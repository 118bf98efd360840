-- ===== src/Aggregator/Ops/Ids.antt =====
-- The numbers of the chunks.
use chainlightning.Base.{
  ℕ, zero, suc, ◌≡◌, refl, List, [], ◌∷◌, Option, none, some, map, arith, add64, IsU64, length,
}
use chainlightning.Floats.{Floats}
use chainlightning.Aggregator.Chunk.{Chunk, push_packet}
use chainlightning.Aggregator.Ops.{
  ChunkAggregatorConfig, ChunkAggregator, new, add_packet, flush, check_timeout, Event, adds, polls,
  flushes, updates, step, run, cons_some,
}
use chainlightning.Aggregator.Ops.Conserve.{update_link_stats-current}

-- The current chunk has the number `k`, and the next one will have the number behind it.
pub record IsNumbered {F : Type 0} (a : ChunkAggregator F) (k : ℕ) : Type 0 where
  pub current_id : a.current_chunk.id ≡ k
  pub next_id : a.next_chunk_id ≡ add64 k 1
  pub fits : IsU64 k

-- What an operation hands out has the number `k`, and the next chunk the number behind it.
abbrev pub Numbers : {F : Type 0} → ℕ → Option Chunk → ChunkAggregator F → Type 0
Numbers k none b = IsNumbered b k
Numbers k (some c) b = (c.id ≡ k) × IsNumbered b (add64 k 1)

module _ {F : Type 0} (a : ChunkAggregator F) (k now : ℕ) where
  flush-Numbers : IsNumbered a k → let (out, b) = flush a now in Numbers k out b
  unfolding flush
  flush-Numbers h = ground arith

  check_timeout-Numbers : IsNumbered a k → let (out, b) = check_timeout a now in Numbers k out b
  unfolding check_timeout
  check_timeout-Numbers h = ground arith

  add_packet-Numbers :
      (p : List ℕ) (flow_id : Option ℕ)
      → IsNumbered a k
      → let (out, b) = add_packet a p flow_id now in Numbers k out b
  unfolding add_packet push_packet
  add_packet-Numbers p flow_id h = ground arith

-- `n` consecutive numbers from `k` on, wrapping at 2^64.
abbrev pub ids_from : ℕ → ℕ → List ℕ
ids_from k zero = []
ids_from k (suc n) = k ∷ ids_from (add64 k 1) n

module _ (fl : Floats) where
  open fl use {F64}

  step-Numbers :
      (a : ChunkAggregator F64) (k : ℕ) (e : Event fl)
      → IsNumbered a k
      → let (out, b) = step fl a e in Numbers k out b
  unfolding step
  step-Numbers a k (adds packet flow_id now) h = add_packet-Numbers a k now packet flow_id h
  step-Numbers a k (polls now) h = check_timeout-Numbers a k now h
  step-Numbers a k (flushes now) h = flush-Numbers a k now h
  step-Numbers a k (updates link_id bandwidth_bps rtt_ms) h =
      let (same, next) = update_link_stats-current fl a link_id bandwidth_bps rtt_ms in
      record { current_id = rw same h.current_id; next_id = rw next h.next_id; fits = h.fits }

  abbrev ids : List Chunk → List ℕ
  ids = map λ c. c.id

  ids_step :
      (b : ChunkAggregator F64) (out : Option Chunk) (chunks : List Chunk) (k : ℕ)
      → Numbers k out b
      → ((j : ℕ) → IsNumbered b j → ids chunks ≡ ids_from j (length chunks))
      → ids (cons_some fl out chunks) ≡ ids_from k (length (cons_some fl out chunks))
  ids_step b none chunks k h ih = ih k h
  ids_step b (some c) chunks k (e, h) ih = rw (e, ih (add64 k 1) h)

  run-ids :
      (a : ChunkAggregator F64) (k : ℕ) (es : List (Event fl))
      → IsNumbered a k
      → let chunks = (run fl a es).0 in ids chunks ≡ ids_from k (length chunks)
  unfolding run
  run-ids a k [] h = refl
  run-ids a k (e ∷ es) h =
      let (out, b) = step fl a e in
      ids_step b out (run fl b es).0 k (step-Numbers a k e h) (λ j. run-ids b j es)

  -- The chunks of any history of a new aggregator are numbered 0, 1, 2, … in the order in which they
  -- are handed out.
  pub aggregator_ids :
      (config : ChunkAggregatorConfig F64) (num_links now : ℕ) (es : List (Event fl))
      → let chunks = (run fl (new config num_links now) es).0 in
        map (λ (c : Chunk). c.id) chunks ≡ ids_from 0 (length chunks)
  unfolding new
  aggregator_ids config num_links now es =
      run-ids (new config num_links now) 0 es
        (record { current_id = refl; next_id = omega arith; fits = omega arith })
