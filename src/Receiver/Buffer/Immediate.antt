-- ===== src/Receiver/Buffer/Immediate.antt =====
-- The immediate mode: everything that is ready leaves at once, in the order of the ids.
use chainlightning.Base.{
  ℕ, ◌<◌, ◌≡◌, refl, ◌∙◌, inl, inr, List, [], ◌∷◌, true, Bool-cases, if◌then◌else◌, All,
}
use chainlightning.Aggregator.Chunk.{Chunk}
use chainlightning.Receiver.Slots.{BufferSlot, Slots, remove, ids_where, is_ready, IsSorted}
use chainlightning.Receiver.Slots.Order.{ids_where-All, remove-first, remove-behind}
use chainlightning.Receiver.Buffer.{
  ReassemblyBuffer, chunk_of, cons_some, count_some, forward_ids, forward,
}

-- The chunks that are ready, in the order of the slots, the slots that are not, and the count of the
-- chunks that have been forwarded.
unfoldable pub ready_of : Slots → List Chunk
ready_of [] = []
ready_of ((id, slot) ∷ slots) =
    let rest = ready_of slots in if is_ready slot then cons_some slot.chunk rest else rest

unfoldable pub waiting : Slots → Slots
waiting [] = []
waiting ((id, slot) ∷ slots) =
    let rest = waiting slots in if is_ready slot then rest else (id, slot) ∷ rest

unfoldable pub count_ready : Slots → ℕ → ℕ
count_ready [] n = n
count_ready ((id, slot) ∷ slots) n =
    let counted = count_ready slots (count_some slot.chunk n) in
    let kept = count_ready slots n in if is_ready slot then counted else kept

-- A first slot that is not among the ids stays, and changes nothing for the others.
forward_ids-behind :
    (j : ℕ) (slot : BufferSlot) (ids : List ℕ) (slots : Slots) (b : ReassemblyBuffer)
    → All (λ id. j < id) ids
    → forward_ids ids (record b { slots = (j, slot) ∷ slots }) ≡ (
      (forward_ids ids (record b { slots = slots })).0,
      record (forward_ids ids (record b { slots = slots })).1 {
        slots = (j, slot) ∷ (forward_ids ids (record b { slots = slots })).1.slots;
      },
    )
unfolding forward_ids
forward_ids-behind j slot [] slots b h = refl
forward_ids-behind j slot (id ∷ ids) slots b (first, others) =
    let chunk = chunk_of (remove id slots).0 in
    let c : ReassemblyBuffer = record b {
      chunks_forwarded = count_some chunk b.chunks_forwarded;
    } in
    rw
      (
        remove-behind id j slot slots first,
        forward_ids-behind j slot ids (remove id slots).1 c others,
      )
      refl

forward_ids-ready :
    (slots : Slots) (b : ReassemblyBuffer)
    → IsSorted slots
    → forward_ids (ids_where is_ready slots) (record b { slots = slots }) ≡ (
      ready_of slots,
      record b { slots = waiting slots; chunks_forwarded = count_ready slots b.chunks_forwarded },
    )
unfolding forward_ids ids_where ready_of waiting count_ready
forward_ids-ready [] b sorted = refl
forward_ids-ready ((id, slot) ∷ slots) b (above, sorted) =
    let counted : ReassemblyBuffer = record b {
      chunks_forwarded = count_some slot.chunk b.chunks_forwarded;
    } in
    elim (Bool-cases (is_ready slot)) [
      | inl e ↦ rw (e, remove-first id slot slots, forward_ids-ready slots counted sorted) refl
      | inr e ↦ rw e (
          forward_ids-behind id slot (ids_where is_ready slots) slots b
            (ids_where-All is_ready id slots above)
          ∙ rw (forward_ids-ready slots b sorted) refl)
    ]

-- In the immediate mode one pass forwards exactly the chunks that are ready, each once and in the
-- order of their ids, and leaves exactly the slots that are not ready.
pub forward_immediate :
    (now : ℕ) (b : ReassemblyBuffer)
    → b.config.immediate_forward ≡ true
    → IsSorted b.slots
    → forward now b ≡ (
      ready_of b.slots,
      record b {
        slots = waiting b.slots;
        chunks_forwarded = count_ready b.slots b.chunks_forwarded;
      },
    )
unfolding forward
forward_immediate now b immediate sorted = simp immediate (forward_ids-ready b.slots b sorted)
