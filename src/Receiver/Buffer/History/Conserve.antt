-- ===== src/Receiver/Buffer/History/Conserve.antt =====
-- No chunk is delivered more often than it was stored, and none is made up.
use chainlightning.Base.{
  ℕ, ◌+◌, ◌≤◌, ◌≡◌, refl, inl, inr, List, [], ◌∷◌, ◌++◌, Option, none, some, not, ◌&&◌, arith,
  Bool-cases, if◌then◌else◌, ltb, ◌==◌, length, add64, sub64, mul64,
}
use chainlightning.Clock.{from_millis}
use chainlightning.Aggregator.Chunk.{Chunk}
use chainlightning.Receiver.Slots.{
  BufferSlot, Slots, upsert, remove, ids_where, new_slot, is_ready, is_timed_out,
}
use chainlightning.Receiver.Buffer.{
  ReassemblyBuffer, ReceiverConfig, new, announce, fill, cons_some, chunk_of, forward_ids,
  forward_in_order, forward, prune_first, count_some, remove_ids, prune_old_slots, drain_ready,
  record_announcement, store_chunk,
}
use chainlightning.Receiver.Buffer.History.{Event, announces, stores, drains, step, run}

-- Any measure of chunks, added up over a list, over the buffer and over what was stored.
module _ (f : Chunk → ℕ) where
  unfoldable pub sum_of : List Chunk → ℕ
  sum_of [] = 0
  sum_of (chunk ∷ chunks) = f chunk + sum_of chunks

  abbrev pub measure : Option Chunk → ℕ
  measure none = 0
  measure (some chunk) = f chunk

  unfoldable pub sum_slots : Slots → ℕ
  sum_slots [] = 0
  sum_slots ((id, slot) ∷ slots) = measure slot.chunk + sum_slots slots

  unfoldable pub sum_stored : List Event → ℕ
  sum_stored [] = 0
  sum_stored (announces ann now ∷ es) = sum_stored es
  sum_stored (stores chunk now ∷ es) = f chunk + sum_stored es
  sum_stored (drains now ∷ es) = sum_stored es

  sum_of-append : (xs ys : List Chunk) → sum_of (xs ++ ys) ≡ sum_of xs + sum_of ys
  unfolding sum_of
  sum_of-append [] ys = omega arith
  sum_of-append (x ∷ xs) ys = omega (arith, sum_of-append xs ys)

  sum_of-cons_some :
      (c : Option Chunk) (cs : List Chunk) → sum_of (cons_some c cs) ≡ measure c + sum_of cs
  unfolding sum_of
  sum_of-cons_some none cs = omega arith
  sum_of-cons_some (some c) cs = refl

  -- A change of one slot that adds at most `k`.
  sum_slots-upsert :
      (id k : ℕ) (fresh : BufferSlot) (g : BufferSlot → BufferSlot)
      → measure fresh.chunk ≡ 0
      → ((slot : BufferSlot) → measure (g slot).chunk ≤ measure slot.chunk + k)
      → (slots : Slots) → sum_slots (upsert id fresh g slots) ≤ k + sum_slots slots
  unfolding sum_slots upsert
  sum_slots-upsert id k fresh g e h [] = omega (arith, h fresh, e)
  sum_slots-upsert id k fresh g e h ((j, slot) ∷ slots) =
      ground (arith, h fresh, h slot, e, sum_slots-upsert id k fresh g e h slots)

  sum_slots-remove :
      (id : ℕ) (slots : Slots)
      → measure (chunk_of (remove id slots).0) + sum_slots (remove id slots).1 ≡ sum_slots slots
  unfolding sum_slots remove
  sum_slots-remove id [] = refl
  sum_slots-remove id ((j, slot) ∷ slots) = elim (Bool-cases (id == j)) [
    | inl e ↦ rw e refl
    | inr e ↦ rw e (omega (arith, sum_slots-remove id slots))
  ]

  sum-forward_ids :
      (ids : List ℕ) (b : ReassemblyBuffer)
      → sum_of (forward_ids ids b).0 + sum_slots (forward_ids ids b).1.slots ≡ sum_slots b.slots
  unfolding forward_ids sum_of
  sum-forward_ids [] b = omega arith
  sum-forward_ids (id ∷ ids) b =
      let c = chunk_of (remove id b.slots).0 in
      omega (
        arith,
        sum_slots-remove id b.slots,
        sum_of-cons_some c
            (forward_ids ids (record b {
              slots = (remove id b.slots).1;
              chunks_forwarded = count_some c b.chunks_forwarded;
            })).0,
        sum-forward_ids ids (record b {
          slots = (remove id b.slots).1;
          chunks_forwarded = count_some c b.chunks_forwarded;
        }),
      )

  sum_slots-remove_ids :
      (ids : List ℕ) (slots : Slots) → sum_slots (remove_ids ids slots) ≤ sum_slots slots
  unfolding remove_ids
  sum_slots-remove_ids [] slots = omega arith
  sum_slots-remove_ids (id ∷ ids) slots =
      omega (arith, sum_slots-remove id slots, sum_slots-remove_ids ids (remove id slots).1)

  sum_slots-prune_first :
      (limit : ℕ) (slots : Slots) (n : ℕ)
      → sum_slots (prune_first limit slots n).0 ≤ sum_slots slots
  unfolding prune_first sum_slots
  sum_slots-prune_first limit [] n = omega arith
  sum_slots-prune_first limit ((id, slot) ∷ slots) n =
      elim (Bool-cases (ltb limit (length ((id, slot) ∷ slots)))) [
        | inl e ↦ rw e (omega (arith, sum_slots-prune_first limit slots (add64 n 1)))
        | inr e ↦ rw e (omega arith)
      ]

  sum-forward_in_order :
      (now timeout : ℕ) (slots : Slots) (b : ReassemblyBuffer)
      → sum_of (forward_in_order now timeout slots b).0
          + sum_slots (forward_in_order now timeout slots b).1.slots
        ≤ sum_slots slots
  unfolding forward_in_order sum_of sum_slots
  sum-forward_in_order now timeout [] b = omega arith
  sum-forward_in_order now timeout ((id, slot) ∷ slots) b =
      let late = is_timed_out now timeout slot in
      let gap = ltb b.next_expected id in
      let skipped = if gap then sub64 id b.next_expected else 0 in
      let c : ReassemblyBuffer = record b {
        next_expected = add64 id 1;
        chunks_timeout = add64 b.chunks_timeout skipped;
        chunks_forwarded = count_some slot.chunk b.chunks_forwarded;
      } in
      let d : ReassemblyBuffer = record b {
        next_expected = add64 id 1;
        chunks_timeout = add64 (add64 b.chunks_timeout skipped) 1;
      } in
      let out = sum_of-cons_some slot.chunk (forward_in_order now timeout slots c).0 in
      let rest_c = sum-forward_in_order now timeout slots c in
      let rest_d = sum-forward_in_order now timeout slots d in
      elim (Bool-cases (gap && not late)) [
        | inl e ↦ rw e (omega arith)
        | inr e ↦ rw e elim (Bool-cases (is_ready slot)) [
          | inl r ↦ rw r (omega (arith, out, rest_c))
          | inr r ↦ rw r elim (Bool-cases late) [
            | inl l ↦ rw l (omega (arith, rest_d))
            | inr l ↦ rw l (omega arith)
          ]
        ]
      ]

  sum-forward :
      (now : ℕ) (b : ReassemblyBuffer)
      → sum_of (forward now b).0 + sum_slots (forward now b).1.slots ≤ sum_slots b.slots
  unfolding forward
  sum-forward now b = elim (Bool-cases b.config.immediate_forward) [
    | inl e ↦ simp e (omega (arith, sum-forward_ids (ids_where is_ready b.slots) b))
    | inr e ↦ simp e (sum-forward_in_order now (from_millis b.config.reorder_timeout_ms) b.slots b)
  ]

  sum-drain_ready :
      (now : ℕ) (b : ReassemblyBuffer)
      → sum_of (drain_ready now b).0 + sum_slots (drain_ready now b).1.slots ≤ sum_slots b.slots
  unfolding drain_ready prune_old_slots
  sum-drain_ready now b =
      let t = (forward now b).1 in
      let (kept, _) = prune_first t.config.max_buffer_chunks t.slots t.chunks_timeout in
      omega (
        arith,
        sum-forward now b,
        sum_slots-prune_first t.config.max_buffer_chunks t.slots t.chunks_timeout,
        sum_slots-remove_ids
            (ids_where (is_timed_out now (from_millis (mul64 t.config.reorder_timeout_ms 10))) kept)
            kept,
      )

  sum-step :
      (b : ReassemblyBuffer) (e : Event)
      → sum_of (step b e).0 + sum_slots (step b e).1.slots ≤ sum_slots b.slots + sum_stored (e ∷ [])
  unfolding step record_announcement store_chunk sum_of sum_stored
  sum-step b (announces ann now) = omega (
    arith,
    sum_slots-upsert ann.chunk_id 0 (new_slot now) (announce ann) refl (λ slot. omega arith)
        b.slots,
  )
  sum-step b (stores chunk now) = omega (
    arith,
    sum_slots-upsert chunk.id (f chunk) (new_slot now) (fill chunk) refl (λ slot. omega arith)
        b.slots,
  )
  sum-step b (drains now) = omega (arith, sum-drain_ready now b)

  sum_stored-first :
      (e : Event) (es : List Event) → sum_stored (e ∷ es) ≡ sum_stored (e ∷ []) + sum_stored es
  unfolding sum_stored
  sum_stored-first (announces ann now) es = omega arith
  sum_stored-first (stores chunk now) es = omega arith
  sum_stored-first (drains now) es = omega arith

  sum-run :
      (b : ReassemblyBuffer) (es : List Event)
      → sum_of (run b es).0 + sum_slots (run b es).1.slots ≤ sum_slots b.slots + sum_stored es
  unfolding run sum_of
  sum-run b [] = omega arith
  sum-run b (e ∷ es) =
      let t = (step b e).1 in
      omega (
        arith,
        sum_stored-first e es,
        sum-step b e,
        sum-run t es,
        sum_of-append (step b e).0 (run t es).0,
      )

-- Over any sequence of events on a new buffer, in either mode: whatever is counted of the chunks, that
-- which is delivered and that which is still buffered add up to at most that which was stored. So
-- each chunk is delivered at most as often as it was stored, and no other chunk is.
pub receiver_conserves :
    (f : Chunk → ℕ) (config : ReceiverConfig) (es : List Event)
    → let (out, b) = run (new config) es in sum_of f out + sum_slots f b.slots ≤ sum_stored f es
unfolding new sum_slots
receiver_conserves f config es = omega (arith, sum-run f (new config) es)
