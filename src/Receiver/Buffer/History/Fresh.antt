-- ===== src/Receiver/Buffer/History/Fresh.antt =====
-- No stored chunk is lost in the immediate mode.
use chainlightning.Base.{
  ℕ, ◌≡◌, refl, ap, ◌∙◌, inl, inr, List, [], ◌∷◌, ◌++◌, Option, none, some, true, false, All,
  Bool-cases, ltb, ◌==◌, length, add64, mul64,
}
use chainlightning.Clock.{from_millis}
use chainlightning.Aggregator.Chunk.{Chunk}
use chainlightning.Receiver.Slots.{
  BufferSlot, Slots, upsert, remove, ids_where, new_slot, is_ready, is_timed_out, IsSorted,
}
use chainlightning.Receiver.Slots.Order.{upsert-IsSorted}
use chainlightning.Receiver.Buffer.{
  ReassemblyBuffer, ReceiverConfig, new, announce, fill, chunk_of, forward_ids, forward,
  prune_first, remove_ids, prune_old_slots, drain_ready, record_announcement, store_chunk,
  count_some, cons_some,
}
use chainlightning.Receiver.Buffer.Immediate.{ready_of, forward_immediate}
use chainlightning.Receiver.Buffer.History.{Event, announces, stores, drains, step, run}
use chainlightning.Receiver.Buffer.History.Order.{run-IsSorted}
use chainlightning.Receiver.Buffer.History.Drain.{config-run, config-step}

-- No slot is marked as forwarded.
abbrev pub AllFresh : Slots → Type 0
AllFresh = All λ e. e.1.forwarded ≡ false

upsert-AllFresh :
    (id : ℕ) (fresh : BufferSlot) (f : BufferSlot → BufferSlot)
    → fresh.forwarded ≡ false
    → ((slot : BufferSlot) → (f slot).forwarded ≡ slot.forwarded)
    → (slots : Slots) → AllFresh slots
    → AllFresh (upsert id fresh f slots)
unfolding upsert
upsert-AllFresh id fresh f e keeps [] h = (keeps fresh ∙ e, tt)
upsert-AllFresh id fresh f e keeps ((j, slot) ∷ slots) (first, others) =
    elim (Bool-cases (id == j)) [
      | inl d ↦ rw d (keeps slot ∙ first, others)
      | inr d ↦ rw d elim (Bool-cases (ltb id j)) [
        | inl b ↦ rw b (keeps fresh ∙ e, (first, others))
        | inr b ↦ rw b (first, upsert-AllFresh id fresh f e keeps slots others)
      ]
    ]

remove-AllFresh : (id : ℕ) (slots : Slots) → AllFresh slots → AllFresh (remove id slots).1
unfolding remove
remove-AllFresh id [] h = tt
remove-AllFresh id ((j, slot) ∷ slots) (first, others) = elim (Bool-cases (id == j)) [
  | inl e ↦ rw e others
  | inr e ↦ rw e (first, remove-AllFresh id slots others)
]

forward_ids-AllFresh :
    (ids : List ℕ) (b : ReassemblyBuffer) → AllFresh b.slots → AllFresh (forward_ids ids b).1.slots
unfolding forward_ids
forward_ids-AllFresh [] b h = h
forward_ids-AllFresh (id ∷ ids) b h =
    forward_ids-AllFresh ids
      (record b {
        slots = (remove id b.slots).1;
        chunks_forwarded = count_some (chunk_of (remove id b.slots).0) b.chunks_forwarded;
      })
      (remove-AllFresh id b.slots h)

remove_ids-AllFresh :
    (ids : List ℕ) (slots : Slots) → AllFresh slots → AllFresh (remove_ids ids slots)
unfolding remove_ids
remove_ids-AllFresh [] slots h = h
remove_ids-AllFresh (id ∷ ids) slots h =
    remove_ids-AllFresh ids (remove id slots).1 (remove-AllFresh id slots h)

prune_first-AllFresh :
    (limit : ℕ) (slots : Slots) (n : ℕ) → AllFresh slots → AllFresh (prune_first limit slots n).0
unfolding prune_first
prune_first-AllFresh limit [] n h = tt
prune_first-AllFresh limit (entry ∷ slots) n (first, others) =
    elim (Bool-cases (ltb limit (length (entry ∷ slots)))) [
      | inl e ↦ rw e (prune_first-AllFresh limit slots (add64 n 1) others)
      | inr e ↦ rw e (first, others)
    ]

module _ (config : ReceiverConfig) (immediate : config.immediate_forward ≡ true) where
  drain_ready-AllFresh :
      (now : ℕ) (b : ReassemblyBuffer)
      → b.config.immediate_forward ≡ true
      → AllFresh b.slots
      → AllFresh (drain_ready now b).1.slots
  unfolding drain_ready prune_old_slots forward
  drain_ready-AllFresh now b mode h =
      let t = (forward now b).1 in
      let after : AllFresh (forward now b).1.slots =
        simp mode (forward_ids-AllFresh (ids_where is_ready b.slots) b h) in
      let limit = t.config.max_buffer_chunks in
      let late = from_millis (mul64 t.config.reorder_timeout_ms 10) in
      let kept = (prune_first limit t.slots t.chunks_timeout).0 in
      remove_ids-AllFresh (ids_where (is_timed_out now late) kept) kept
        (prune_first-AllFresh limit t.slots t.chunks_timeout after)

  step-AllFresh :
      (b : ReassemblyBuffer) (e : Event)
      → b.config.immediate_forward ≡ true
      → AllFresh b.slots
      → AllFresh (step b e).1.slots
  unfolding step record_announcement store_chunk
  step-AllFresh b (announces ann now) mode h =
      upsert-AllFresh ann.chunk_id (new_slot now) (announce ann) refl (λ slot. refl) b.slots h
  step-AllFresh b (stores chunk now) mode h =
      upsert-AllFresh chunk.id (new_slot now) (fill chunk) refl (λ slot. refl) b.slots h
  step-AllFresh b (drains now) mode h = drain_ready-AllFresh now b mode h

  run-AllFresh :
      (b : ReassemblyBuffer) (es : List Event)
      → b.config.immediate_forward ≡ true
      → AllFresh b.slots
      → AllFresh (run b es).1.slots
  unfolding run
  run-AllFresh b [] mode h = h
  run-AllFresh b (e ∷ es) mode h =
      run-AllFresh (step b e).1 es
        (ap (λ (c : ReceiverConfig). c.immediate_forward) (config-step b e) ∙ mode)
        (step-AllFresh b e mode h)

-- The chunk stands in the list.
abbrev pub Contains : Chunk → List Chunk → Type 0
Contains chunk chunks =
    (front : List Chunk) × (back : List Chunk) × (chunks ≡ front ++ chunk ∷ back)

Contains-cons_some :
    (chunk : Chunk) (o : Option Chunk) (chunks : List Chunk)
    → Contains chunk chunks
    → Contains chunk (cons_some o chunks)
Contains-cons_some chunk none chunks h = h
Contains-cons_some chunk (some c) chunks (front, back, e) = (c ∷ front, back, ap (◌∷◌ c) e)

ready_of-filled :
    (chunk : Chunk) (id : ℕ) (slot : BufferSlot) (slots : Slots)
    → slot.forwarded ≡ false
    → Contains chunk (ready_of ((id, fill chunk slot) ∷ slots))
unfolding ready_of is_ready
ready_of-filled chunk id slot slots fresh = ([], ready_of slots, rw fresh refl)

ready_of-behind :
    (chunk : Chunk) (j : ℕ) (slot : BufferSlot) (slots : Slots)
    → Contains chunk (ready_of slots)
    → Contains chunk (ready_of ((j, slot) ∷ slots))
unfolding ready_of
ready_of-behind chunk j slot slots h = elim (Bool-cases (is_ready slot)) [
  | inl e ↦ rw e (Contains-cons_some chunk slot.chunk (ready_of slots) h)
  | inr e ↦ rw e h
]

ready_of-upsert :
    (chunk : Chunk) (now : ℕ) (slots : Slots)
    → AllFresh slots
    → Contains chunk (ready_of (upsert chunk.id (new_slot now) (fill chunk) slots))
unfolding upsert
ready_of-upsert chunk now [] h = ready_of-filled chunk chunk.id (new_slot now) [] refl
ready_of-upsert chunk now ((j, slot) ∷ slots) (first, others) = elim (Bool-cases (chunk.id == j)) [
  | inl e ↦ rw e (ready_of-filled chunk j slot slots first)
  | inr e ↦ rw e elim (Bool-cases (ltb chunk.id j)) [
    | inl b ↦ rw b (ready_of-filled chunk chunk.id (new_slot now) ((j, slot) ∷ slots) refl)
    | inr b ↦ rw b (
        ready_of-behind chunk j slot (upsert chunk.id (new_slot now) (fill chunk) slots)
          (ready_of-upsert chunk now slots others))
  ]
]

-- In the immediate mode no stored chunk waits: after any sequence of events on a new buffer, a chunk
-- that is stored is among the chunks that the next drain delivers, whatever is missing before it.
pub receiver_delivers :
    (config : ReceiverConfig) (es : List Event) (chunk : Chunk) (now later : ℕ)
    → config.immediate_forward ≡ true
    → Contains chunk (drain_ready later (store_chunk chunk now (run (new config) es).1)).0
unfolding new drain_ready store_chunk
receiver_delivers config es chunk now later immediate =
    let b = (run (new config) es).1 in
    let c = store_chunk chunk now b in
    let mode : b.config.immediate_forward ≡ true =
      ap (λ (d : ReceiverConfig). d.immediate_forward) (config-run (new config) es) ∙ immediate in
    let sorted : IsSorted c.slots =
      upsert-IsSorted chunk.id (new_slot now) (fill chunk) b.slots
        (run-IsSorted (new config) es tt) in
    let (front, back, e) =
      ready_of-upsert chunk now b.slots
        (run-AllFresh config immediate (new config) es immediate tt) in
    (front, back, ap (λ r. r.0) (forward_immediate later c mode sorted) ∙ e)
