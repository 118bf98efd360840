-- ===== src/Receiver/Buffer/History/Drain.antt =====
-- How many slots stay, and what a drain delivers, over any history.
use chainlightning.Base.{
  ℕ, ◌≤◌, ◌≡◌, refl, ap, ◌∙◌, inl, inr, List, [], ◌∷◌, true, arith, not, ◌&&◌, Bool-cases,
  if◌then◌else◌, ltb, ltb→le, length, add64, mul64, sub64,
}
use chainlightning.Clock.{from_millis}
use chainlightning.Receiver.Slots.{Slots, remove, ids_where, is_ready, is_timed_out}
use chainlightning.Receiver.Buffer.{
  ReassemblyBuffer, ReceiverConfig, new, chunk_of, forward_ids, forward_in_order, forward,
  prune_first, remove_ids, prune_old_slots, drain_ready, record_announcement, store_chunk,
  count_some,
}
use chainlightning.Receiver.Buffer.Immediate.{ready_of, forward_immediate}
use chainlightning.Receiver.Buffer.History.Order.{run-IsSorted}
use chainlightning.Receiver.Buffer.History.{Event, announces, stores, drains, step, run}

length-remove : (id : ℕ) (slots : Slots) → length (remove id slots).1 ≤ length slots
unfolding remove
length-remove id [] = omega arith
length-remove id ((j, slot) ∷ slots) = ground (arith, length-remove id slots)

length-remove_ids : (ids : List ℕ) (slots : Slots) → length (remove_ids ids slots) ≤ length slots
unfolding remove_ids
length-remove_ids [] slots = omega arith
length-remove_ids (id ∷ ids) slots =
    omega (arith, length-remove id slots, length-remove_ids ids (remove id slots).1)

length-prune_first :
    (limit : ℕ) (slots : Slots) (n : ℕ) → length (prune_first limit slots n).0 ≤ limit
unfolding prune_first
length-prune_first limit [] n = omega arith
length-prune_first limit (entry ∷ slots) n =
    elim (Bool-cases (ltb limit (length (entry ∷ slots)))) [
      | inl e ↦ rw e (length-prune_first limit slots (add64 n 1))
      | inr e ↦ rw e (omega (arith, ltb→le limit (length (entry ∷ slots)) e))
    ]

config-forward_ids : (ids : List ℕ) (b : ReassemblyBuffer) → (forward_ids ids b).1.config ≡ b.config
unfolding forward_ids
config-forward_ids [] b = refl
config-forward_ids (id ∷ ids) b = config-forward_ids ids (record b {
  slots = (remove id b.slots).1;
  chunks_forwarded = count_some (chunk_of (remove id b.slots).0) b.chunks_forwarded;
})

length-drain_ready :
    (now : ℕ) (b : ReassemblyBuffer)
    → length (drain_ready now b).1.slots ≤ (forward now b).1.config.max_buffer_chunks
unfolding drain_ready prune_old_slots
length-drain_ready now b =
    let t = (forward now b).1 in
    let (kept, _) = prune_first t.config.max_buffer_chunks t.slots t.chunks_timeout in
    omega (
      arith,
      length-prune_first t.config.max_buffer_chunks t.slots t.chunks_timeout,
      length-remove_ids
          (ids_where (is_timed_out now (from_millis (mul64 t.config.reorder_timeout_ms 10))) kept)
          kept,
    )

config-forward_in_order :
    (now timeout : ℕ) (slots : Slots) (b : ReassemblyBuffer)
    → (forward_in_order now timeout slots b).1.config ≡ b.config
unfolding forward_in_order
config-forward_in_order now timeout [] b = refl
config-forward_in_order now timeout ((id, slot) ∷ slots) b =
    let late = is_timed_out now timeout slot in
    let gap = ltb b.next_expected id in
    let skipped = if gap then sub64 id b.next_expected else 0 in
    let c : ReassemblyBuffer = record b {
      next_expected = add64 id 1;
      chunks_timeout = add64 b.chunks_timeout skipped;
      chunks_forwarded = count_some slot.chunk b.chunks_forwarded;
    } in
    let d : ReassemblyBuffer = record b {
      next_expected = add64 id 1;
      chunks_timeout = add64 (add64 b.chunks_timeout skipped) 1;
    } in
    elim (Bool-cases (gap && not late)) [
      | inl e ↦ rw e refl
      | inr e ↦ rw e elim (Bool-cases (is_ready slot)) [
        | inl r ↦ rw r (config-forward_in_order now timeout slots c)
        | inr r ↦ rw r elim (Bool-cases late) [
          | inl l ↦ rw l (config-forward_in_order now timeout slots d)
          | inr l ↦ rw l refl
        ]
      ]
    ]

config-forward : (now : ℕ) (b : ReassemblyBuffer) → (forward now b).1.config ≡ b.config
unfolding forward
config-forward now b = elim (Bool-cases b.config.immediate_forward) [
  | inl e ↦ simp e (config-forward_ids (ids_where is_ready b.slots) b)
  | inr e ↦ simp e (config-forward_in_order now (from_millis b.config.reorder_timeout_ms) b.slots b)
]

pub config-step : (b : ReassemblyBuffer) (e : Event) → (step b e).1.config ≡ b.config
unfolding step record_announcement store_chunk drain_ready prune_old_slots
config-step b (announces ann now) = refl
config-step b (stores chunk now) = refl
config-step b (drains now) = config-forward now b

pub config-run : (b : ReassemblyBuffer) (es : List Event) → (run b es).1.config ≡ b.config
unfolding run
config-run b [] = refl
config-run b (e ∷ es) = config-run (step b e).1 es ∙ config-step b e

-- After any sequence of events on a new buffer, a drain leaves at most `max_buffer_chunks` slots.
pub receiver_bound :
    (config : ReceiverConfig) (es : List Event) (now : ℕ)
    → length (drain_ready now (run (new config) es).1).1.slots ≤ config.max_buffer_chunks
unfolding new
receiver_bound config es now =
    let b = (run (new config) es).1 in
    let same : (forward now b).1.config ≡ config =
      config-forward now b ∙ config-run (new config) es in
    omega (arith, length-drain_ready now b, ap (λ (c : ReceiverConfig). c.max_buffer_chunks) same)

-- After any sequence of events on a new buffer in the immediate mode, a drain delivers exactly the
-- chunks that are buffered and ready, each once and in the order of their ids.
pub receiver_immediate :
    (config : ReceiverConfig) (es : List Event) (now : ℕ)
    → config.immediate_forward ≡ true
    → let b = (run (new config) es).1 in (drain_ready now b).0 ≡ ready_of b.slots
unfolding new drain_ready
receiver_immediate config es now immediate =
    let b = (run (new config) es).1 in
    let mode : b.config.immediate_forward ≡ true =
      ap (λ (c : ReceiverConfig). c.immediate_forward) (config-run (new config) es) ∙ immediate in
    ap (λ r. r.0) (forward_immediate now b mode (run-IsSorted (new config) es tt))
