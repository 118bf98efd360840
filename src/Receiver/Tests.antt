-- ===== src/Receiver/Tests.antt =====
-- The receiver on a few chunks.
use chainlightning.Base.{◌+◌, ◌≤◌, ◌≡◌, refl, List, [], ◌∷◌, true, false, arith, length}
use chainlightning.Aggregator.Chunk.{new_chunk}
use chainlightning.Receiver.Slots.{Slots, new_slot, is_timed_out, is_ready}
use chainlightning.Receiver.Buffer.{
  ReceiverConfig, ReassemblyBuffer, new, fill, forward, forward_in_order, drain_ready, store_chunk,
}
use chainlightning.Receiver.Buffer.History.Fresh.{receiver_delivers, Contains}
use chainlightning.Receiver.Buffer.Immediate.{ready_of}
use chainlightning.Receiver.Buffer.InOrder.{forward_in_order_lem, run_length}
use chainlightning.Receiver.Buffer.History.{Event, announces, stores, drains, run}
use chainlightning.Receiver.Buffer.History.Conserve.{
  receiver_conserves, sum_of, sum_slots, sum_stored,
}
use chainlightning.Receiver.Buffer.History.Drain.{receiver_immediate, receiver_bound}

abbrev quick_config : ReceiverConfig
quick_config = record { reorder_timeout_ms = 50; max_buffer_chunks = 4; immediate_forward = true }

abbrev ordered_config : ReceiverConfig
ordered_config = record {
  reorder_timeout_ms = 50;
  max_buffer_chunks = 4;
  immediate_forward = false;
}

-- Chunks 1 and 0 arrive out of order, are drained, and chunk 3 follows, announced before.
abbrev arrivals : List Event
arrivals =
    stores (new_chunk 1 0) 10
    ∷ stores (new_chunk 0 0) 20
    ∷ drains 30
    ∷ announces (record { chunk_id = 3; link_id = 1; expected_size = 9; timestamp_us = 5 }) 40
    ∷ stores (new_chunk 3 0) 50
    ∷ []

-- The chunks are counted.
receiver_conserves_example :
    let (out, b) = run (new ordered_config) arrivals in
    sum_of (λ _. 1) out + sum_slots (λ _. 1) b.slots ≤ 3
unfolding sum_stored
receiver_conserves_example = receiver_conserves (λ _. 1) ordered_config arrivals

receiver_immediate_example :
    let b = (run (new quick_config) arrivals).1 in (drain_ready 60 b).0 ≡ ready_of b.slots
receiver_immediate_example = receiver_immediate quick_config arrivals 60 refl

receiver_bound_example : length (drain_ready 60 (run (new ordered_config) arrivals).1).1.slots ≤ 4
receiver_bound_example = receiver_bound ordered_config arrivals 60

-- Chunks 5, 6 and 8 are buffered where 5 comes next.
abbrev gap_slots : Slots
gap_slots =
    (5, fill (new_chunk 5 0) (new_slot 10))
    ∷ (6, fill (new_chunk 6 0) (new_slot 5))
    ∷ (8, fill (new_chunk 8 0) (new_slot 12))
    ∷ []

abbrev gap_buffer : ReassemblyBuffer
unfolding new
gap_buffer = record (new ordered_config) {
  slots = gap_slots;
  next_expected = 5;
  highest_seen = 8;
  chunks_received = 3;
}

forward_in_order_lem_example :
    let (ready, t) = forward 20 gap_buffer in
    (ready ≡ new_chunk 5 0 ∷ new_chunk 6 0 ∷ [])
    × (t.slots ≡ (8, fill (new_chunk 8 0) (new_slot 12)) ∷ [])
    × (t.next_expected ≡ 7)
unfolding new run_length ready_of is_timed_out is_ready
forward_in_order_lem_example = forward_in_order_lem 20 gap_buffer refl (ground arith) (ground arith)

-- Chunk 3 arrives where 5 comes next.
abbrev late_buffer : ReassemblyBuffer
unfolding new
late_buffer = record (new ordered_config) {
  slots = (3, fill (new_chunk 3 0) (new_slot 10)) ∷ [];
  next_expected = 5;
}

-- A late chunk takes `next_expected` back.
late_chunk_returns :
    ((forward 20 late_buffer).0 ≡ new_chunk 3 0 ∷ [])
    × ((forward 20 late_buffer).1.next_expected ≡ 4)
unfolding new is_ready forward forward_in_order is_timed_out
late_chunk_returns = (refl, refl)

receiver_delivers_example :
    Contains
      (new_chunk 9 0)
      (drain_ready 70 (store_chunk (new_chunk 9 0) 60 (run (new quick_config) arrivals).1)).0
receiver_delivers_example = receiver_delivers quick_config arrivals (new_chunk 9 0) 60 70 refl
