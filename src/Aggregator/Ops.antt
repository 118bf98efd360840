-- ===== src/Aggregator/Ops.antt =====
-- `ChunkAggregator`: packets are gathered into the current chunk until it reaches the optimal size,
-- or until the timeout.
pub mod Conserve
pub mod Delivery
pub mod Ids
pub mod Sizes
use chainlightning.Base.{
  ℕ, ◌+◌, ◌*◌, ◌^◌, List, [], ◌∷◌, Option, none, some, Bool, not, ◌&&◌, ltb, leb, if◌then◌else◌,
  min, max, replicate, is_some, length, modify, add64, sub64,
}
use chainlightning.Clock.{from_millis, elapsed}
use chainlightning.Floats.{Floats}
use chainlightning.Aggregator.Chunk.{Chunk, new_chunk, push_packet, size, is_empty}

pub record ChunkAggregatorConfig (F : Type 0) : Type 0 where
  pub min_chunk_size : ℕ
  pub max_chunk_size : ℕ
  pub bdp_multiplier : F
  pub aggregation_timeout_ms : ℕ

pub record ChunkAggregator (F : Type 0) : Type 0 where
  pub config : ChunkAggregatorConfig F
  pub current_chunk : Chunk
  pub next_chunk_id : ℕ
  pub ready_chunks : List Chunk
  pub link_stats : List (ℕ × ℕ)
  pub optimal_chunk_size : ℕ

module _ {F : Type 0} where
  -- `ChunkAggregator::new` at the time `now`.
  unfoldable pub new : ChunkAggregatorConfig F → ℕ → ℕ → ChunkAggregator F
  new config num_links now = record {
    config = config;
    current_chunk = new_chunk 0 now;
    next_chunk_id = 1;
    ready_chunks = [];
    link_stats = replicate num_links (0, 0);
    optimal_chunk_size = config.min_chunk_size;
  }

  -- The finished chunk, and the aggregator with a new current chunk.
  unfoldable pub finalize_current_chunk : ChunkAggregator F → ℕ → Chunk × ChunkAggregator F
  finalize_current_chunk a now = (
    record (a.current_chunk) { id = sub64 a.next_chunk_id 1 },
    record a {
      current_chunk = new_chunk a.next_chunk_id now;
      next_chunk_id = add64 a.next_chunk_id 1;
    },
  )

  -- `current_chunk.add_packet(packet)`, and the flow id where the test says so.
  abbrev pub append_packet : ChunkAggregator F → List ℕ → Bool → Option ℕ → ChunkAggregator F
  append_packet a packet set_flow flow_id =
      let c = push_packet a.current_chunk packet in
      record a { current_chunk = if set_flow then record c { flow_id = flow_id } else c }

  unfoldable pub add_packet :
      ChunkAggregator F → List ℕ → Option ℕ → ℕ → Option Chunk × ChunkAggregator F
  unfolding finalize_current_chunk
  add_packet a packet flow_id now =
      let new_size = size a.current_chunk + 2 + length packet in
      if ltb a.optimal_chunk_size new_size && not (is_empty a.current_chunk)
      then (let (ready_chunk, b) = finalize_current_chunk a now in
          (some ready_chunk, append_packet b packet (is_some flow_id) flow_id))
      else (let b =
            append_packet a packet (is_some flow_id && not (is_some a.current_chunk.flow_id))
              flow_id in
          if leb b.optimal_chunk_size (size b.current_chunk)
          then (let (ready_chunk, c) = finalize_current_chunk b now in (some ready_chunk, c))
          else (none, b))

  unfoldable pub flush : ChunkAggregator F → ℕ → Option Chunk × ChunkAggregator F
  unfolding finalize_current_chunk
  flush a now =
      if is_empty a.current_chunk
      then (none, a)
      else (let (ready_chunk, b) = finalize_current_chunk a now in (some ready_chunk, b))

  unfoldable pub check_timeout : ChunkAggregator F → ℕ → Option Chunk × ChunkAggregator F
  unfolding flush
  check_timeout a now =
      if is_empty a.current_chunk
      then (none, a)
      else if leb (from_millis a.config.aggregation_timeout_ms)
          (elapsed now a.current_chunk.created_at)
      then flush a now
      else (none, a)

module _ (fl : Floats) where
  open fl use {F64, lit, of_u64, to_u64, mul, div}

  -- The greatest bandwidth-delay product of the links with both numbers known.
  unfoldable pub max_bdp : ℕ → List (ℕ × ℕ) → ℕ
  max_bdp acc [] = acc
  max_bdp acc ((bandwidth_bps, rtt_ms) ∷ links) =
      max_bdp
        (if ltb 0 bandwidth_bps && ltb 0 rtt_ms
          then max acc (to_u64 (div (mul (of_u64 bandwidth_bps) (of_u64 rtt_ms)) (lit 1000 1)))
          else acc)
        links

  unfoldable pub recalculate_chunk_size : ChunkAggregator F64 → ChunkAggregator F64
  unfolding max_bdp
  recalculate_chunk_size a =
      let bdp = max_bdp 0 a.link_stats in
      let target = to_u64 (mul (of_u64 bdp) a.config.bdp_multiplier) in
      if ltb 0 bdp
      then record a {
        optimal_chunk_size = min (max target a.config.min_chunk_size) a.config.max_chunk_size;
      }
      else a

  unfoldable pub update_link_stats : ChunkAggregator F64 → ℕ → ℕ → ℕ → ChunkAggregator F64
  unfolding recalculate_chunk_size
  update_link_stats a link_id bandwidth_bps rtt_ms =
      if ltb link_id (length a.link_stats)
      then recalculate_chunk_size
          (record a { link_stats = modify (λ _. (bandwidth_bps, rtt_ms)) a.link_stats link_id })
      else a

  -- What the tasks around the aggregator ask of it; each request carries the time.
  pub data Event : Type 0 where
    adds : (packet : List ℕ) (flow_id : Option ℕ) (now : ℕ) → Event
    polls : (now : ℕ) → Event
    flushes : (now : ℕ) → Event
    updates : (link_id bandwidth_bps rtt_ms : ℕ) → Event

  unfoldable pub step : ChunkAggregator F64 → Event → Option Chunk × ChunkAggregator F64
  step a (adds packet flow_id now) = add_packet a packet flow_id now
  step a (polls now) = check_timeout a now
  step a (flushes now) = flush a now
  step a (updates link_id bandwidth_bps rtt_ms) =
      (none, update_link_stats a link_id bandwidth_bps rtt_ms)

  abbrev pub cons_some : Option Chunk → List Chunk → List Chunk
  cons_some none cs = cs
  cons_some (some c) cs = c ∷ cs

  -- The chunks that a history of requests produces, and the aggregator after it.
  unfoldable pub run : ChunkAggregator F64 → List Event → List Chunk × ChunkAggregator F64
  unfolding step
  run a [] = ([], a)
  run a (e ∷ es) =
      let (out, b) = step a e in let (chunks, c) = run b es in (cons_some out chunks, c)
