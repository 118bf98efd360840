-- ===== src/Aggregator/Ops/Sizes.antt =====
-- How large a chunk gets.
use chainlightning.Base.{
  ℕ, ◌≤◌, ◌≡◌, refl, inl, ◌⊎◌, List, [], ◌∷◌, Option, none, some, arith, length, All, length-append,
  subst,
}
use chainlightning.Floats.{Floats}
use chainlightning.Aggregator.Chunk.{Chunk, size, is_empty, push_packet, frame}
use chainlightning.Aggregator.Chunk.RoundTrip.{length-frame}
use chainlightning.Aggregator.Ops.{
  ChunkAggregatorConfig, ChunkAggregator, new, add_packet, flush, check_timeout, update_link_stats,
  Event, adds, polls, flushes, updates, step, run, cons_some,
}

-- The chunk is no larger than `limit`, or it consists of a single packet.
abbrev pub IsBounded : ℕ → Chunk → Type 0
IsBounded limit c = (length c.data_bytes ≤ limit) ⊎ (length c.packet_offsets ≤ 1)

-- A chunk with no bytes has no packets.
abbrev IsProper : Chunk → Type 0
IsProper c = length c.data_bytes ≡ 0 → length c.packet_offsets ≡ 0

-- The current chunk and the optimal size stay below the configured maximum.
pub record IsSized {F : Type 0} (a : ChunkAggregator F) : Type 0 where
  pub bounded : IsBounded a.config.max_chunk_size a.current_chunk
  pub proper : IsProper a.current_chunk
  pub optimal_max : a.optimal_chunk_size ≤ a.config.max_chunk_size
  pub optimal_min : a.config.min_chunk_size ≤ a.optimal_chunk_size

abbrev Sizes : {F : Type 0} → ChunkAggregatorConfig F → Option Chunk → ChunkAggregator F → Type 0
Sizes config none b = IsSized b × (b.config ≡ config)
Sizes config (some c) b = IsBounded config.max_chunk_size c × IsSized b × (b.config ≡ config)

module _ {F : Type 0} (a : ChunkAggregator F) (now : ℕ) where
  flush-Sizes : IsSized a → let (out, b) = flush a now in Sizes a.config out b
  unfolding flush
  flush-Sizes h = ground arith

  check_timeout-Sizes : IsSized a → let (out, b) = check_timeout a now in Sizes a.config out b
  unfolding check_timeout
  check_timeout-Sizes h = ground (arith, flush-Sizes h)

  add_packet-Sizes :
      (p : List ℕ) (flow_id : Option ℕ)
      → IsSized a
      → let (out, b) = add_packet a p flow_id now in Sizes a.config out b
  unfolding add_packet push_packet size is_empty
  add_packet-Sizes p flow_id h = ground (
    arith,
    length-append a.current_chunk.data_bytes (frame p),
    length-frame p,
    length-append a.current_chunk.packet_offsets (length a.current_chunk.data_bytes ∷ []),
  )

module _ (fl : Floats) where
  open fl use {F64}

  update_link_stats-Sizes :
      (a : ChunkAggregator F64) (link_id bandwidth_bps rtt_ms : ℕ)
      → IsSized a
      → Sizes a.config none (update_link_stats fl a link_id bandwidth_bps rtt_ms)
  unfolding update_link_stats
  update_link_stats-Sizes a link_id bandwidth_bps rtt_ms h = ground arith

  step-Sizes :
      (a : ChunkAggregator F64) (e : Event fl)
      → IsSized a
      → let (out, b) = step fl a e in Sizes a.config out b
  unfolding step
  step-Sizes a (adds packet flow_id now) h = add_packet-Sizes a now packet flow_id h
  step-Sizes a (polls now) h = check_timeout-Sizes a now h
  step-Sizes a (flushes now) h = flush-Sizes a now h
  step-Sizes a (updates link_id bandwidth_bps rtt_ms) h =
      update_link_stats-Sizes a link_id bandwidth_bps rtt_ms h

  Sizes-step :
      (config : ChunkAggregatorConfig F64) (b : ChunkAggregator F64) (out : Option Chunk)
      (chunks : List Chunk)
      → Sizes config out b
      → (IsSized b → All (IsBounded b.config.max_chunk_size) chunks)
      → All (IsBounded config.max_chunk_size) (cons_some fl out chunks)
  Sizes-step config b none chunks (h, same) ih =
      subst (λ (c : ChunkAggregatorConfig F64). All (IsBounded c.max_chunk_size) chunks) same (ih h)
  Sizes-step config b (some c) chunks (hc, h, same) ih = (
    hc,
    subst (λ (d : ChunkAggregatorConfig F64). All (IsBounded d.max_chunk_size) chunks) same (ih h),
  )

  run_sizes :
      (a : ChunkAggregator F64) (es : List (Event fl))
      → IsSized a
      → All (IsBounded a.config.max_chunk_size) (run fl a es).0
  unfolding run
  run_sizes a [] h = tt
  run_sizes a (e ∷ es) h =
      let (out, b) = step fl a e in
      Sizes-step a.config b out (run fl b es).0 (step-Sizes a e h) (run_sizes b es)

  -- With `min_chunk_size ≤ max_chunk_size`, as `Config::validate` demands, every chunk of a history
  -- of a new aggregator is at most `max_chunk_size` bytes long or consists of a single packet.
  pub aggregator_sizes :
      (config : ChunkAggregatorConfig F64) (num_links now : ℕ) (es : List (Event fl))
      → config.min_chunk_size ≤ config.max_chunk_size
      → All (IsBounded config.max_chunk_size) (run fl (new config num_links now) es).0
  unfolding new
  aggregator_sizes config num_links now es valid = run_sizes (new config num_links now) es (record {
    bounded = inl (omega arith);
    proper = λ _. refl;
    optimal_max = valid;
    optimal_min = omega arith;
  })
