-- ===== src/Receiver/Buffer/History.antt =====
-- The receiver over any sequence of announcements, chunks and drains.
pub mod Conserve
pub mod Order
pub mod Drain
pub mod Fresh
use chainlightning.Base.{
  ℕ, ◌+◌, ◌≤◌, ◌<◌, ◌≡◌, refl, inl, inr, List, [], ◌∷◌, ◌++◌, Option, none, some, Bool, true, false,
  not, ◌&&◌, arith, Bool-cases, if◌then◌else◌, ltb, ◌==◌, ltb→le, length, add64,
}
use chainlightning.Wire.Announce.{AnnouncePacket}
use chainlightning.Aggregator.Chunk.{Chunk}
use chainlightning.Receiver.Slots.{
  BufferSlot, Slots, upsert, remove, ids_where, new_slot, is_ready, is_timed_out,
}
use chainlightning.Receiver.Buffer.{
  ReassemblyBuffer, announce, fill, cons_some, chunk_of, forward_ids, forward_in_order, forward,
  prune_first, count_some, remove_ids, prune_old_slots, drain_ready, record_announcement,
  store_chunk,
}

pub data Event : Type 0 where
  announces : (ann : AnnouncePacket) (now : ℕ) → Event
  stores : (chunk : Chunk) (now : ℕ) → Event
  drains : (now : ℕ) → Event

unfoldable pub step : ReassemblyBuffer → Event → List Chunk × ReassemblyBuffer
step b (announces ann now) = ([], record_announcement ann now b)
step b (stores chunk now) = ([], store_chunk chunk now b)
step b (drains now) = drain_ready now b

-- All chunks that leave, and the buffer in the end.
unfoldable pub run : ReassemblyBuffer → List Event → List Chunk × ReassemblyBuffer
unfolding step
run b [] = ([], b)
run b (e ∷ es) = let (out, t) = step b e in let (later, u) = run t es in (out ++ later, u)
