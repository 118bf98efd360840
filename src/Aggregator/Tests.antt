-- ===== src/Aggregator/Tests.antt =====
-- The aggregator on a short history.
use chainlightning.Base.{ℕ, ◌≡◌, List, [], ◌∷◌, ◌++◌, none, some, arith, length, map, All}
use chainlightning.Floats.{millionths}
use chainlightning.Aggregator.Chunk.{Chunk, new_chunk, extract_packets}
use chainlightning.Aggregator.Chunk.RoundTrip.{extract_packets_total}
use chainlightning.Aggregator.Ops.{
  ChunkAggregatorConfig, ChunkAggregator, Event, adds, polls, flushes, updates, new, run,
}
use chainlightning.Aggregator.Ops.Delivery.{deliver, aggregator_delivers}
use chainlightning.Aggregator.Ops.Ids.{aggregator_ids, ids_from}
use chainlightning.Aggregator.Ops.Sizes.{aggregator_sizes, IsBounded}

-- Chunks of 8 to 16 bytes.
abbrev small_config : ChunkAggregatorConfig ℕ
small_config = record {
  min_chunk_size = 8;
  max_chunk_size = 16;
  bdp_multiplier = 1_000_000;
  aggregation_timeout_ms = 5;
}

abbrev small_aggregator : ChunkAggregator ℕ
unfolding new
small_aggregator = new small_config 2 0

-- Three packets, of which the second closes the first chunk, a poll after the timeout, and a flush.
abbrev short_history : List (Event millionths)
short_history =
    adds (1 ∷ 2 ∷ 3 ∷ []) none 0
    ∷ adds (4 ∷ 5 ∷ 6 ∷ 7 ∷ []) (some 9) 1
    ∷ polls 10_000_000
    ∷ adds (8 ∷ []) none 10_000_001
    ∷ updates 0 1_000 20
    ∷ flushes 10_000_002
    ∷ []

aggregator_delivers_example :
    let (chunks, b) = run millionths (new small_config 2 0) short_history in
    deliver (chunks ++ b.current_chunk ∷ [])
    ≡ some ((1 ∷ 2 ∷ 3 ∷ []) ∷ (4 ∷ 5 ∷ 6 ∷ 7 ∷ []) ∷ (8 ∷ []) ∷ [])
aggregator_delivers_example =
    aggregator_delivers millionths small_config 2 0 short_history (ground arith)

aggregator_ids_example :
    let chunks = (run millionths (new small_config 2 0) short_history).0 in
    map (λ (c : Chunk). c.id) chunks ≡ ids_from 0 (length chunks)
aggregator_ids_example = aggregator_ids millionths small_config 2 0 short_history

aggregator_sizes_example :
    All (IsBounded 16) (run millionths (new small_config 2 0) short_history).0
aggregator_sizes_example = aggregator_sizes millionths small_config 2 0 short_history (omega arith)

-- A chunk whose second length runs past the end.
extract_packets_total_example :
    (ps : List (List ℕ)) × (extract_packets
        (record (new_chunk 0 0) { data_bytes = 0 ∷ 1 ∷ 5 ∷ 0 ∷ 9 ∷ 1 ∷ [] })
      ≡ some ps)
extract_packets_total_example =
    extract_packets_total (record (new_chunk 0 0) { data_bytes = 0 ∷ 1 ∷ 5 ∷ 0 ∷ 9 ∷ 1 ∷ [] })
