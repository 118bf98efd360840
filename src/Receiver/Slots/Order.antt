-- ===== src/Receiver/Slots/Order.antt =====
-- The operations on slots keep the keys in order.
use chainlightning.Base.{
  ℕ, ◌≤◌, ◌<◌, ◌≡◌, inl, inr, [], ◌∷◌, some, Bool, arith, Bool-cases, ltb, ltb→lt, ltb→le, ◌==◌,
  All,
}
use chainlightning.Receiver.Slots.{BufferSlot, Slots, upsert, remove, ids_where, IsAbove, IsSorted}

pub IsAbove-weaken : (i j : ℕ) (slots : Slots) → i ≤ j → IsAbove j slots → IsAbove i slots
IsAbove-weaken i j [] h above = tt
IsAbove-weaken i j ((k, slot) ∷ slots) h (first, others) =
    (omega arith, IsAbove-weaken i j slots h others)

module _ (id : ℕ) (fresh : BufferSlot) (f : BufferSlot → BufferSlot) where
  pub upsert-IsAbove :
      (i : ℕ) (slots : Slots) → i < id → IsAbove i slots → IsAbove i (upsert id fresh f slots)
  unfolding upsert
  upsert-IsAbove i [] h above = (h, tt)
  upsert-IsAbove i ((j, slot) ∷ slots) h (first, others) =
      ground (arith, upsert-IsAbove i slots h others)

  pub upsert-IsSorted : (slots : Slots) → IsSorted slots → IsSorted (upsert id fresh f slots)
  unfolding upsert
  upsert-IsSorted [] sorted = (tt, tt)
  upsert-IsSorted ((j, slot) ∷ slots) (above, sorted) = elim (Bool-cases (id == j)) [
    | inl same ↦ rw same (above, sorted)
    | inr other ↦ rw other elim (Bool-cases (ltb id j)) [
      | inl before ↦ rw before (
        (ltb→lt id j before, IsAbove-weaken id j slots (omega (arith, ltb→lt id j before)) above),
        (above, sorted),
      )
      | inr behind ↦ rw behind (
        upsert-IsAbove j slots (ground (arith, ltb→le id j behind)) above,
        upsert-IsSorted slots sorted,
      )
    ]
  ]

pub remove-IsAbove : (i id : ℕ) (slots : Slots) → IsAbove i slots → IsAbove i (remove id slots).1
unfolding remove
remove-IsAbove i id [] above = tt
remove-IsAbove i id ((j, slot) ∷ slots) (first, others) =
    ground (arith, remove-IsAbove i id slots others)

pub remove-IsSorted : (id : ℕ) (slots : Slots) → IsSorted slots → IsSorted (remove id slots).1
unfolding remove
remove-IsSorted id [] sorted = tt
remove-IsSorted id ((j, slot) ∷ slots) (above, sorted) = elim (Bool-cases (id == j)) [
  | inl same ↦ rw same sorted
  | inr other ↦ rw other (remove-IsAbove j id slots above, remove-IsSorted id slots sorted)
]

-- The ids of the slots that pass a test are above what the keys are above.
pub ids_where-All :
    (p : BufferSlot → Bool) (i : ℕ) (slots : Slots)
    → IsAbove i slots
    → All (λ id. i < id) (ids_where p slots)
unfolding ids_where
ids_where-All p i [] above = tt
ids_where-All p i ((j, slot) ∷ slots) (first, others) =
    ground (arith, ids_where-All p i slots others)

pub remove-first :
    (id : ℕ) (slot : BufferSlot) (slots : Slots)
    → remove id ((id, slot) ∷ slots) ≡ (some slot, slots)
unfolding remove
remove-first id slot slots = ground arith

pub remove-behind :
    (id j : ℕ) (slot : BufferSlot) (slots : Slots)
    → j < id
    → remove id ((j, slot) ∷ slots) ≡ ((remove id slots).0, (j, slot) ∷ (remove id slots).1)
unfolding remove
remove-behind id j slot slots h = ground arith
