-- ===== src/Receiver/Buffer/History/Order.antt =====
-- The slots over any history: their keys stay in order, and a drain leaves few enough of them.
use chainlightning.Base.{
  ℕ, inl, inr, List, [], ◌∷◌, not, ◌&&◌, Bool-cases, if◌then◌else◌, ltb, length, add64, mul64,
  sub64,
}
use chainlightning.Clock.{from_millis}
use chainlightning.Receiver.Slots.{
  Slots, remove, ids_where, new_slot, is_ready, is_timed_out, IsSorted,
}
use chainlightning.Receiver.Slots.Order.{upsert-IsSorted, remove-IsSorted}
use chainlightning.Receiver.Buffer.{
  ReassemblyBuffer, announce, fill, chunk_of, forward_ids, forward_in_order, forward, prune_first,
  remove_ids, prune_old_slots, drain_ready, record_announcement, store_chunk, count_some,
}
use chainlightning.Receiver.Buffer.History.{Event, announces, stores, drains, step, run}

forward_ids-IsSorted :
    (ids : List ℕ) (b : ReassemblyBuffer) → IsSorted b.slots → IsSorted (forward_ids ids b).1.slots
unfolding forward_ids
forward_ids-IsSorted [] b sorted = sorted
forward_ids-IsSorted (id ∷ ids) b sorted =
    forward_ids-IsSorted ids
      (record b {
        slots = (remove id b.slots).1;
        chunks_forwarded = count_some (chunk_of (remove id b.slots).0) b.chunks_forwarded;
      })
      (remove-IsSorted id b.slots sorted)

forward_in_order-IsSorted :
    (now timeout : ℕ) (slots : Slots) (b : ReassemblyBuffer)
    → IsSorted slots
    → IsSorted (forward_in_order now timeout slots b).1.slots
unfolding forward_in_order
forward_in_order-IsSorted now timeout [] b sorted = tt
forward_in_order-IsSorted now timeout ((id, slot) ∷ slots) b (above, sorted) =
    let late = is_timed_out now timeout slot in
    let gap = ltb b.next_expected id in
    let skipped = if gap then sub64 id b.next_expected else 0 in
    let c : ReassemblyBuffer = record b {
      next_expected = add64 id 1;
      chunks_timeout = add64 b.chunks_timeout skipped;
      chunks_forwarded = count_some slot.chunk b.chunks_forwarded;
    } in
    let d : ReassemblyBuffer = record b {
      next_expected = add64 id 1;
      chunks_timeout = add64 (add64 b.chunks_timeout skipped) 1;
    } in
    elim (Bool-cases (gap && not late)) [
      | inl e ↦ rw e (above, sorted)
      | inr e ↦ rw e elim (Bool-cases (is_ready slot)) [
        | inl r ↦ rw r (forward_in_order-IsSorted now timeout slots c sorted)
        | inr r ↦ rw r elim (Bool-cases late) [
          | inl l ↦ rw l (forward_in_order-IsSorted now timeout slots d sorted)
          | inr l ↦ rw l (above, sorted)
        ]
      ]
    ]

remove_ids-IsSorted :
    (ids : List ℕ) (slots : Slots) → IsSorted slots → IsSorted (remove_ids ids slots)
unfolding remove_ids
remove_ids-IsSorted [] slots sorted = sorted
remove_ids-IsSorted (id ∷ ids) slots sorted =
    remove_ids-IsSorted ids (remove id slots).1 (remove-IsSorted id slots sorted)

prune_first-IsSorted :
    (limit : ℕ) (slots : Slots) (n : ℕ) → IsSorted slots → IsSorted (prune_first limit slots n).0
unfolding prune_first
prune_first-IsSorted limit [] n sorted = tt
prune_first-IsSorted limit ((id, slot) ∷ slots) n (above, sorted) =
    elim (Bool-cases (ltb limit (length ((id, slot) ∷ slots)))) [
      | inl e ↦ rw e (prune_first-IsSorted limit slots (add64 n 1) sorted)
      | inr e ↦ rw e (above, sorted)
    ]

drain_ready-IsSorted :
    (now : ℕ) (b : ReassemblyBuffer) → IsSorted b.slots → IsSorted (drain_ready now b).1.slots
unfolding drain_ready forward prune_old_slots
drain_ready-IsSorted now b sorted =
    let after : IsSorted (forward now b).1.slots = elim (Bool-cases b.config.immediate_forward) [
      | inl e ↦ simp e (forward_ids-IsSorted (ids_where is_ready b.slots) b sorted)
      | inr e ↦
          simp e (
            forward_in_order-IsSorted now (from_millis b.config.reorder_timeout_ms) b.slots b
              sorted)
    ] in
    let t = (forward now b).1 in
    let limit = t.config.max_buffer_chunks in
    let late = from_millis (mul64 t.config.reorder_timeout_ms 10) in
    remove_ids-IsSorted
      (ids_where (is_timed_out now late) (prune_first limit t.slots t.chunks_timeout).0)
      (prune_first limit t.slots t.chunks_timeout).0
      (prune_first-IsSorted limit t.slots t.chunks_timeout after)

step-IsSorted : (b : ReassemblyBuffer) (e : Event) → IsSorted b.slots → IsSorted (step b e).1.slots
unfolding step record_announcement store_chunk
step-IsSorted b (announces ann now) sorted =
    upsert-IsSorted ann.chunk_id (new_slot now) (announce ann) b.slots sorted
step-IsSorted b (stores chunk now) sorted =
    upsert-IsSorted chunk.id (new_slot now) (fill chunk) b.slots sorted
step-IsSorted b (drains now) sorted = drain_ready-IsSorted now b sorted

pub run-IsSorted :
    (b : ReassemblyBuffer) (es : List Event) → IsSorted b.slots → IsSorted (run b es).1.slots
unfolding run
run-IsSorted b [] sorted = sorted
run-IsSorted b (e ∷ es) sorted = run-IsSorted (step b e).1 es (step-IsSorted b e sorted)
