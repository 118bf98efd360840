-- ===== src/Aggregator/Ops/Conserve.antt =====
-- No packet is lost, doubled or reordered on the way through the aggregator.
use chainlightning.Base.{
  ℕ, ◌+◌, ◌≡◌, refl, sym, inl, inr, List, [], ◌∷◌, ◌++◌, Option, none, some, Bool, true, false,
  arith, Bool-cases, append-nil, ltb, leb, length, not, ◌&&◌, is_some, subst,
}
use chainlightning.Floats.{Floats}
use chainlightning.Aggregator.Chunk.{Chunk, size, is_empty}
use chainlightning.Aggregator.Chunk.RoundTrip.{Holds, push_packet-Holds, new_chunk-Holds}
use chainlightning.Aggregator.Ops.{
  ChunkAggregator, append_packet, add_packet, flush, check_timeout, update_link_stats,
  finalize_current_chunk, Event, adds, polls, flushes, updates, step,
}

-- The packets `before` are those that an operation hands out, followed by those that it keeps.
abbrev pub Splits : {F : Type 0} → List (List ℕ) → Option Chunk → ChunkAggregator F → Type 0
Splits before none a = Holds a.current_chunk before
Splits before (some c) a =
    (out : List (List ℕ)) × (kept : List (List ℕ)) × (before ≡ out ++ kept)
    × Holds c out
    × Holds a.current_chunk kept

module _ {F : Type 0} (a : ChunkAggregator F) (ps : List (List ℕ)) (now : ℕ) where
  append_packet-Holds :
      (p : List ℕ) (set_flow : Bool) (flow_id : Option ℕ)
      → Holds a.current_chunk ps
      → Holds (append_packet a p set_flow flow_id).current_chunk (ps ++ p ∷ [])
  append_packet-Holds p true flow_id h =
      let k = push_packet-Holds a.current_chunk ps p h in
      record { bytes = k.bytes; starts = k.starts }
  append_packet-Holds p false flow_id h = push_packet-Holds a.current_chunk ps p h

  finalize-Splits :
      Holds a.current_chunk ps → let (c, b) = finalize_current_chunk a now in Splits ps (some c) b
  unfolding finalize_current_chunk
  finalize-Splits h = (
    ps,
    [],
    sym (append-nil ps),
    record { bytes = h.bytes; starts = h.starts },
    new_chunk-Holds _ now,
  )

  flush-Splits : Holds a.current_chunk ps → let (out, b) = flush a now in Splits ps out b
  unfolding flush
  flush-Splits h = elim (Bool-cases (is_empty a.current_chunk)) [
    | inl e ↦ rw e h
    | inr e ↦ rw e (finalize-Splits h)
  ]

  check_timeout-Splits :
      Holds a.current_chunk ps → let (out, b) = check_timeout a now in Splits ps out b
  unfolding check_timeout
  check_timeout-Splits h = ground (arith, flush-Splits h)

module _ {F : Type 0} (a : ChunkAggregator F) (ps : List (List ℕ)) (now : ℕ) where
  add_packet-Splits :
      (p : List ℕ) (flow_id : Option ℕ)
      → Holds a.current_chunk ps
      → let (out, b) = add_packet a p flow_id now in Splits (ps ++ p ∷ []) out b
  unfolding add_packet
  add_packet-Splits p flow_id h =
      let full =
        ltb a.optimal_chunk_size (size a.current_chunk + 2 + length p)
        && not (is_empty a.current_chunk) in
      let first = is_some flow_id && not (is_some a.current_chunk.flow_id) in
      let b = append_packet a p first flow_id in
      let k = append_packet-Holds a ps now p first flow_id h in
      elim (Bool-cases full) [
        | inl e ↦ rw e (
          ps,
          p ∷ [],
          refl,
          record { bytes = h.bytes; starts = h.starts },
          append_packet-Holds (finalize_current_chunk a now).1 [] now p (is_some flow_id) flow_id
              (new_chunk-Holds a.next_chunk_id now),
        )
        | inr e ↦ rw e (elim (Bool-cases (leb b.optimal_chunk_size (size b.current_chunk))) [
          | inl d ↦ rw d (finalize-Splits b (ps ++ p ∷ []) now k)
          | inr d ↦ rw d k
        ])
      ]

module _ (fl : Floats) where
  open fl use {F64}

  -- Bandwidth measurements change the optimal size and nothing of the chunks.
  pub update_link_stats-current :
      (a : ChunkAggregator F64) (link_id bandwidth_bps rtt_ms : ℕ)
      → let b = update_link_stats fl a link_id bandwidth_bps rtt_ms in
        (b.current_chunk ≡ a.current_chunk) × (b.next_chunk_id ≡ a.next_chunk_id)
  unfolding update_link_stats
  update_link_stats-current a link_id bandwidth_bps rtt_ms = ground arith

  -- The packets that a request brings.
  abbrev pub arriving : Event fl → List (List ℕ)
  arriving (adds packet flow_id now) = packet ∷ []
  arriving _ = []

  pub step-Splits :
      (a : ChunkAggregator F64) (ps : List (List ℕ)) (e : Event fl)
      → Holds a.current_chunk ps
      → let (out, b) = step fl a e in Splits (ps ++ arriving e) out b
  unfolding step
  step-Splits a ps (adds packet flow_id now) h = add_packet-Splits a ps now packet flow_id h
  step-Splits a ps (polls now) h = rw (append-nil ps) (check_timeout-Splits a ps now h)
  step-Splits a ps (flushes now) h = rw (append-nil ps) (flush-Splits a ps now h)
  step-Splits a ps (updates link_id bandwidth_bps rtt_ms) h =
      rw (append-nil ps) (
        subst (λ c. Holds c ps) (sym (update_link_stats-current a link_id bandwidth_bps rtt_ms).0)
          h)
