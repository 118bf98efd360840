-- ===== src/Receiver/Buffer/InOrder.antt =====
-- The ordered mode while nothing is late: the longest run of consecutive chunks leaves.
use chainlightning.Base.{
  ℕ, suc, ◌+◌, ◌≤◌, ◌<◌, ◌^◌, ◌≡◌, refl, ap, sym, ◌∙◌, subst, inl, inr, List, [], ◌∷◌, true, false,
  ◌&&◌, arith, Bool-cases, if◌then◌else◌, ltb, ltb→lt, ltb→le, ◌==◌, All, take, drop, add64,
}
use chainlightning.Clock.{from_millis}
use chainlightning.Aggregator.Chunk.{Chunk}
use chainlightning.Receiver.Slots.{BufferSlot, Slots, is_ready, is_timed_out, IsAbove, IsSorted}
use chainlightning.Receiver.Buffer.{
  ReassemblyBuffer, cons_some, count_some, forward_in_order, forward,
}
use chainlightning.Receiver.Buffer.Immediate.{ready_of}

-- How many slots from the first on hold the chunks `n`, `n + 1` and so on.
unfoldable pub run_length : ℕ → Slots → ℕ
run_length n [] = 0
run_length n ((id, slot) ∷ slots) =
    let rest = run_length (n + 1) slots in if id == n && is_ready slot then suc rest else 0

-- A slot that is not late, and whose key is at least `n` and not the greatest number of 64 bits.
abbrev pub IsDue : (now timeout n : ℕ) → ℕ × BufferSlot → Type 0
IsDue now timeout n (id, slot) =
    (is_timed_out now timeout slot ≡ false) × (n ≤ id) × (id + 1 < 2 ^ 64)

IsDue-above :
    (now timeout n id : ℕ) (slots : Slots)
    → n ≤ id
    → IsAbove id slots
    → All (IsDue now timeout n) slots
    → All (IsDue now timeout (id + 1)) slots
IsDue-above now timeout n id [] h above due = tt
IsDue-above now timeout n id ((j, slot) ∷ slots) h (first, others) ((early, _, fits), due) =
    ((early, omega arith, fits), IsDue-above now timeout n id slots h others due)

-- What a pass over slots that are due does.
abbrev pub IsRun : Slots → ℕ → List Chunk × ReassemblyBuffer → Type 0
IsRun slots n (ready, t) =
    let k = run_length n slots in
    (ready ≡ ready_of (take k slots)) × (t.slots ≡ drop k slots) × (t.next_expected ≡ n + k)

ready_of-first :
    (id : ℕ) (slot : BufferSlot) (slots : Slots)
    → is_ready slot ≡ true
    → ready_of ((id, slot) ∷ slots) ≡ cons_some slot.chunk (ready_of slots)
unfolding ready_of
ready_of-first id slot slots full = rw full refl

forward_in_order-IsRun :
    (now timeout : ℕ) (slots : Slots) (b : ReassemblyBuffer)
    → IsSorted slots
    → All (IsDue now timeout b.next_expected) slots
    → IsRun slots b.next_expected (forward_in_order now timeout slots b)
unfolding forward_in_order run_length ready_of
forward_in_order-IsRun now timeout [] b sorted due = (refl, refl, omega arith)
forward_in_order-IsRun now timeout ((id, slot) ∷ slots) b (above, sorted)
      ((early, least, fits), due) =
    let n = b.next_expected in
    elim (Bool-cases (ltb n id)) [
      | inl gap ↦
          let other : (id == n) ≡ false = ground (arith, ltb→lt n id gap) in
          rw (gap, early, other) (refl, refl, omega arith)
      | inr no_gap ↦
          let same : id ≡ n = omega (arith, ltb→le n id no_gap) in
          let here : (id == n) ≡ true = ground (arith, same) in
          elim (Bool-cases (is_ready slot)) [
            | inl full ↦
                let c : ReassemblyBuffer = record b {
                  next_expected = add64 id 1;
                  chunks_timeout = add64 b.chunks_timeout 0;
                  chunks_forwarded = count_some slot.chunk b.chunks_forwarded;
                } in
                let kept : add64 id 1 ≡ id + 1 = omega (arith, fits) in
                let next : add64 id 1 ≡ n + 1 = omega (arith, same, fits) in
                let rest : IsRun slots (add64 id 1) (forward_in_order now timeout slots c) =
                  forward_in_order-IsRun now timeout slots c sorted
                    (rw kept (IsDue-above now timeout n id slots least above due)) in
                let run =
                  subst (λ m. IsRun slots m (forward_in_order now timeout slots c)) next rest in
                rw (no_gap, here, full)
                  (
                    ap (cons_some slot.chunk) run.0
                        ∙ sym (ready_of-first id slot (take (run_length (n + 1) slots) slots) full),
                    run.1,
                    omega (arith, run.2),
                  )
            | inr empty ↦ rw (no_gap, early, here, empty) (refl, refl, omega arith)
          ]
    ]

-- In the ordered mode, where no slot is late, none is older than `next_expected` and no key is the
-- greatest number of 64 bits, one pass forwards exactly the longest run of consecutive chunks from
-- `next_expected` on, in order, keeps the other slots and moves `next_expected` behind the run.
pub forward_in_order_lem :
    (now : ℕ) (b : ReassemblyBuffer)
    → b.config.immediate_forward ≡ false
    → IsSorted b.slots
    → All (IsDue now (from_millis b.config.reorder_timeout_ms) b.next_expected) b.slots
    → let (ready, t) = forward now b in
      let k = run_length b.next_expected b.slots in
      (ready ≡ ready_of (take k b.slots))
      × (t.slots ≡ drop k b.slots)
      × (t.next_expected ≡ b.next_expected + k)
unfolding forward
forward_in_order_lem now b ordered sorted due =
    simp ordered
      (forward_in_order-IsRun now (from_millis b.config.reorder_timeout_ms) b.slots b sorted due)
