-- ===== src/Receiver/Slots.antt =====
-- `BufferSlot`, and the ordered map from chunk ids to slots. `BTreeMap` is an association list in the
-- order of its keys.
pub mod Order
use chainlightning.Base.{
  ℕ, ◌<◌, ◌≡◌, refl, inl, inr, List, [], ◌∷◌, Option, none, some, Bool, true, false, not, ◌&&◌,
  arith, Bool-cases, ltb, ◌==◌, if◌then◌else◌, is_some, length,
}
use chainlightning.Clock.{elapsed}
use chainlightning.Wire.Announce.{AnnouncePacket}
use chainlightning.Aggregator.Chunk.{Chunk}

pub record BufferSlot : Type 0 where
  pub chunk : Option Chunk
  pub announcement : Option AnnouncePacket
  pub expected_link : Option ℕ
  pub created_at : ℕ
  pub forwarded : Bool

-- `BufferSlot::new` at the time `now`.
abbrev pub new_slot : ℕ → BufferSlot
new_slot now = record {
  chunk = none;
  announcement = none;
  expected_link = none;
  created_at = now;
  forwarded = false;
}

unfoldable pub is_ready : BufferSlot → Bool
is_ready slot = is_some slot.chunk && not slot.forwarded

unfoldable pub is_timed_out : (now timeout : ℕ) → BufferSlot → Bool
is_timed_out now timeout slot = ltb timeout (elapsed now slot.created_at)

abbrev pub Slots : Type 0
Slots = List (ℕ × BufferSlot)

-- `*slots.entry(id).or_insert_with(…)`, changed by `f`.
unfoldable pub upsert : ℕ → BufferSlot → (BufferSlot → BufferSlot) → Slots → Slots
upsert id fresh f [] = (id, f fresh) ∷ []
upsert id fresh f ((j, slot) ∷ slots) =
    let rest = upsert id fresh f slots in
    if id == j
    then (j, f slot) ∷ slots
    else if ltb id j
    then (id, f fresh) ∷ (j, slot) ∷ slots
    else (j, slot) ∷ rest

-- `slots.remove(&id)`: the slot that leaves, and the others.
unfoldable pub remove : ℕ → Slots → Option BufferSlot × Slots
remove id [] = (none, [])
remove id ((j, slot) ∷ slots) =
    let (found, rest) = remove id slots in
    if id == j then (some slot, slots) else (found, (j, slot) ∷ rest)

-- `iter().filter(p).map(|(id, _)| *id)`.
unfoldable pub ids_where : (BufferSlot → Bool) → Slots → List ℕ
ids_where p [] = []
ids_where p ((j, slot) ∷ slots) = let rest = ids_where p slots in if p slot then j ∷ rest else rest

-- The keys are in order, each once.
abbrev pub IsAbove : ℕ → Slots → Type 0
IsAbove i [] = Unit
IsAbove i ((j, slot) ∷ slots) = (i < j) × IsAbove i slots

abbrev pub IsSorted : Slots → Type 0
IsSorted [] = Unit
IsSorted ((j, slot) ∷ slots) = IsAbove j slots × IsSorted slots
