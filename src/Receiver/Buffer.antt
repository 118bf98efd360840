-- ===== src/Receiver/Buffer.antt =====
-- `ReassemblyBuffer` and `ChunkReceiver`.
pub mod History
pub mod InOrder
pub mod Immediate
use chainlightning.Base.{
  ℕ, List, [], ◌∷◌, Option, none, some, Bool, not, ◌&&◌, ltb, ◌==◌, if◌then◌else◌, length, add64,
  sub64, mul64,
}
use chainlightning.Clock.{from_millis}
use chainlightning.Wire.Announce.{AnnouncePacket}
use chainlightning.Aggregator.Chunk.{Chunk}
use chainlightning.Receiver.Slots.{
  BufferSlot, new_slot, is_ready, is_timed_out, Slots, upsert, remove, ids_where,
}

-- `ReceiverConfig` of common/src/config.rs.
pub record ReceiverConfig : Type 0 where
  pub reorder_timeout_ms : ℕ
  pub max_buffer_chunks : ℕ
  pub immediate_forward : Bool

pub record ReassemblyBuffer : Type 0 where
  pub config : ReceiverConfig
  pub slots : Slots
  pub next_expected : ℕ
  pub highest_seen : ℕ
  pub chunks_received : ℕ
  pub chunks_forwarded : ℕ
  pub chunks_timeout : ℕ

pub record ReassemblyStats : Type 0 where
  pub buffered : ℕ
  pub ready : ℕ
  pub next_expected : ℕ
  pub highest_seen : ℕ
  pub chunks_received : ℕ
  pub chunks_forwarded : ℕ
  pub chunks_timeout : ℕ

unfoldable pub new : ReceiverConfig → ReassemblyBuffer
new config = record {
  config = config;
  slots = [];
  next_expected = 0;
  highest_seen = 0;
  chunks_received = 0;
  chunks_forwarded = 0;
  chunks_timeout = 0;
}

-- The bodies of `record_announcement` and `store_chunk` on the slot.
abbrev pub announce : AnnouncePacket → BufferSlot → BufferSlot
announce ann slot = record slot { announcement = some ann; expected_link = some ann.link_id }

abbrev pub fill : Chunk → BufferSlot → BufferSlot
fill chunk slot = record slot { chunk = some chunk }

abbrev raise : ℕ → ℕ → ℕ
raise id highest = if ltb highest id then id else highest

unfoldable pub record_announcement : AnnouncePacket → ℕ → ReassemblyBuffer → ReassemblyBuffer
unfolding upsert
record_announcement ann now b = record b {
  highest_seen = raise ann.chunk_id b.highest_seen;
  slots = upsert ann.chunk_id (new_slot now) (announce ann) b.slots;
}

unfoldable pub store_chunk : Chunk → ℕ → ReassemblyBuffer → ReassemblyBuffer
unfolding upsert
store_chunk chunk now b = record b {
  highest_seen = raise chunk.id b.highest_seen;
  chunks_received = add64 b.chunks_received 1;
  slots = upsert chunk.id (new_slot now) (fill chunk) b.slots;
}

-- `if let Some(mut slot) = self.slots.remove(&id) { if let Some(chunk) = slot.chunk.take() { … } }`.
abbrev pub chunk_of : Option BufferSlot → Option Chunk
chunk_of none = none
chunk_of (some slot) = slot.chunk

abbrev pub cons_some : Option Chunk → List Chunk → List Chunk
cons_some none chunks = chunks
cons_some (some chunk) chunks = chunk ∷ chunks

abbrev pub count_some : Option Chunk → ℕ → ℕ
count_some none n = n
count_some (some chunk) n = add64 n 1

-- The loop over the ids that are ready.
unfoldable pub forward_ids : List ℕ → ReassemblyBuffer → List Chunk × ReassemblyBuffer
unfolding remove
forward_ids [] b = ([], b)
forward_ids (id ∷ ids) b =
    let (found, slots) = remove id b.slots in
    let chunk = chunk_of found in
    let (ready, t) =
      forward_ids ids
        (record b { slots = slots; chunks_forwarded = count_some chunk b.chunks_forwarded }) in
    (cons_some chunk ready, t)

-- The loop over the first slot, which every turn but the last removes: the chunks that leave and the
-- buffer, whose `slots` are those of the first argument.
unfoldable pub forward_in_order :
    (now timeout : ℕ) → Slots → ReassemblyBuffer → List Chunk × ReassemblyBuffer
unfolding is_ready is_timed_out
forward_in_order now timeout [] b = ([], record b { slots = [] })
forward_in_order now timeout ((id, slot) ∷ slots) b =
    let late = is_timed_out now timeout slot in
    let gap = ltb b.next_expected id in
    -- The gap before the first slot is given up once that slot is late.
    let skipped = if gap then sub64 id b.next_expected else 0 in
    let (ready, t) = forward_in_order now timeout slots (record b {
      next_expected = add64 id 1;
      chunks_timeout = add64 b.chunks_timeout skipped;
      chunks_forwarded = count_some slot.chunk b.chunks_forwarded;
    }) in
    let (dropped, u) = forward_in_order now timeout slots (record b {
      next_expected = add64 id 1;
      chunks_timeout = add64 (add64 b.chunks_timeout skipped) 1;
    }) in
    let stop = record b { slots = (id, slot) ∷ slots } in
    if gap && not late
    then ([], stop)
    else if is_ready slot
    then (cons_some slot.chunk ready, t)
    else if late
    then (dropped, u)
    else (
      [],
      record stop {
        next_expected = if gap then id else b.next_expected;
        chunks_timeout = add64 b.chunks_timeout skipped;
      },
    )

-- While there are too many slots the first goes.
unfoldable pub prune_first : (limit : ℕ) → Slots → ℕ → Slots × ℕ
prune_first limit [] timeouts = ([], timeouts)
prune_first limit (entry ∷ slots) timeouts =
    let rest = prune_first limit slots (add64 timeouts 1) in
    if ltb limit (length (entry ∷ slots)) then rest else (entry ∷ slots, timeouts)

-- The loop over the ids that are old.
unfoldable pub remove_ids : List ℕ → Slots → Slots
unfolding remove
remove_ids [] slots = slots
remove_ids (id ∷ ids) slots = remove_ids ids (remove id slots).1

unfoldable pub prune_old_slots : ℕ → ReassemblyBuffer → ReassemblyBuffer
unfolding prune_first remove_ids ids_where is_timed_out
prune_old_slots now b =
    let (slots, timeouts) = prune_first b.config.max_buffer_chunks b.slots b.chunks_timeout in
    let timeout = from_millis (mul64 b.config.reorder_timeout_ms 10) in
    record b {
      slots = remove_ids (ids_where (is_timed_out now timeout) slots) slots;
      chunks_timeout = timeouts;
    }

-- Before the pruning.
unfoldable pub forward : ℕ → ReassemblyBuffer → List Chunk × ReassemblyBuffer
unfolding forward_ids ids_where is_ready forward_in_order
forward now b =
    if b.config.immediate_forward
    then forward_ids (ids_where is_ready b.slots) b
    else forward_in_order now (from_millis b.config.reorder_timeout_ms) b.slots b

unfoldable pub drain_ready : ℕ → ReassemblyBuffer → List Chunk × ReassemblyBuffer
unfolding forward prune_old_slots
drain_ready now b = let (ready, t) = forward now b in (ready, prune_old_slots now t)

unfoldable pub stats : ReassemblyBuffer → ReassemblyStats
unfolding ids_where is_ready
stats b = record {
  buffered = length b.slots;
  ready = length (ids_where is_ready b.slots);
  next_expected = b.next_expected;
  highest_seen = b.highest_seen;
  chunks_received = b.chunks_received;
  chunks_forwarded = b.chunks_forwarded;
  chunks_timeout = b.chunks_timeout;
}

-- `announcement_link` maps the ids of announced chunks to links; nothing removes an entry.
pub record ChunkReceiver : Type 0 where
  pub announcement_link : ℕ → Option ℕ
  pub buffer : ReassemblyBuffer

unfoldable pub handle_announcement : AnnouncePacket → ℕ → ChunkReceiver → ChunkReceiver
unfolding record_announcement
handle_announcement ann now r = record {
  announcement_link = λ id. if id == ann.chunk_id then some ann.link_id else r.announcement_link id;
  buffer = record_announcement ann now r.buffer;
}

unfoldable pub handle_chunk : Chunk → ℕ → ChunkReceiver → ChunkReceiver
unfolding store_chunk
handle_chunk chunk now r = record r { buffer = store_chunk chunk now r.buffer }

unfoldable pub drain : ℕ → ChunkReceiver → List Chunk × ChunkReceiver
unfolding drain_ready
drain now r = let (ready, b) = drain_ready now r.buffer in (ready, record r { buffer = b })
