-- ===== src/Node/Steps/Rtt.antt =====
-- Between two of these programs no ACK gives a round trip, and what depends on it stays at rest.
use chainlightning.Base.{
  ℕ, zero, suc, ◌/◌, ◌%◌, ◌^◌, ◌≡◌, refl, ap, sym, ◌∙◌, inl, inr, List, [], ◌∷◌, map, Option, some,
  false, ◌&&◌, arith, take, append-nil, length, All, take_all, modify, ltb, Bool-cases, IsU64,
  to_be,
}
use chainlightning.Floats.{Floats}
use chainlightning.Aggregator.Chunk.{Chunk}
use chainlightning.Aggregator.Ops
use chainlightning.Aggregator.Ops.{
  ChunkAggregator, add_packet, check_timeout, update_link_stats, max_bdp,
}
use chainlightning.Node.State.{Node, Phase, pushing}
use chainlightning.Node.Steps
use chainlightning.Node.Steps.{
  Event, step, run, step_read, step_read_send, step_poll, step_poll_send, step_send, step_write,
  step_keepalive,
}
use chainlightning.Node.Tasks.{chunk_packet, ack_packet, push_stats}
use chainlightning.Stats.Collector
use chainlightning.Stats.Collector.{StatsCollector, new_links}
use chainlightning.Stats.Link.{
  LinkStats, link_record_tx, link_record_rx, update_bandwidth, update_health,
}
use chainlightning.Wire.Ack as Ack
use chainlightning.Wire.Chunk as Wire
use chainlightning.Wire.Keepalive as Keepalive
use chainlightning.Wire.Packet
use chainlightning.Wire.Packet.{Packet, data_chunk, announce, ack, stats, keepalive, probe}
use chainlightning.Wire.Packet.RoundTrip.{packet_round_trip, decode-MinSize}
use chainlightning.Wire.Probe as Probe
use chainlightning.Wire.Stats.{SerdeJson}

-- The datagrams that the programs send: chunks, ACKs, probes and keepalives.
pub data IsEmitted : List ℕ → Type 0 where
  chunk : (link_id : ℕ) (c : Chunk) → IsEmitted (Wire.encode (chunk_packet link_id c))
  answer :
      (link_id chunk_id now_us : ℕ)
      → IsU64 chunk_id
      → IsU64 now_us
      → IsEmitted (Ack.encode (ack_packet link_id chunk_id now_us))
  probing : (p : Probe.ProbePacket) → IsEmitted (Probe.encode p)
  alive : (p : Keepalive.KeepalivePacket) → IsEmitted (Keepalive.encode p)

-- Every datagram that comes in was sent by such a program.
abbrev pub IsFromPeer : Event → Type 0
IsFromPeer (Steps.receives link_id addr datagram now now_us) = IsEmitted datagram
IsFromPeer _ = Unit

length-ack : (p : Ack.AckPacket) → length (Ack.encode p) ≡ 26
unfolding Ack.encode to_be
length-ack p = omega arith

module _ {A : Type 0} (P : A → Type 0) (f : A → A) (keep : (a : A) → P a → P (f a)) where
  All-modify : (xs : List A) (i : ℕ) → All P xs → All P (modify f xs i)
  All-modify [] i h = h
  All-modify (x ∷ xs) zero h = (keep x h.0, h.1)
  All-modify (x ∷ xs) (suc i) h = (h.0, All-modify xs i h.1)

  All-map : (xs : List A) → All P xs → All P (map f xs)
  All-map [] h = h
  All-map (x ∷ xs) h = (keep x h.0, All-map xs h.1)

module _ (fl : Floats) where
  open fl use {F64}

  abbrev pub IsUnmeasured : LinkStats F64 → Type 0
  IsUnmeasured l = l.smoothed_rtt_us ≡ 0

  abbrev pub NoRtt : ℕ × ℕ → Type 0
  NoRtt link = link.1 ≡ 0

  -- No link has an RTT, and the optimal chunk size is the smallest.
  abbrev pub IsAtRest : (min_chunk_size : ℕ) → StatsCollector F64 → ChunkAggregator F64 → Type 0
  IsAtRest min_chunk_size s a =
      All IsUnmeasured s.links × All NoRtt a.link_stats × (a.optimal_chunk_size ≡ min_chunk_size)

  max_bdp_rest : (links : List (ℕ × ℕ)) → All NoRtt links → max_bdp fl 0 links ≡ 0
  unfolding max_bdp
  max_bdp_rest [] h = refl
  max_bdp_rest ((bw, rtt) ∷ links) h =
      let quiet : (ltb 0 bw && ltb 0 rtt) ≡ false = ground arith in
      rw quiet (max_bdp_rest links h.1)

  recalculate_rest :
      (a : ChunkAggregator F64) → All NoRtt a.link_stats → Ops.recalculate_chunk_size fl a ≡ a
  unfolding Ops.recalculate_chunk_size
  recalculate_rest a h = rw (max_bdp_rest a.link_stats h) refl

  update_link_stats_rest :
      (a : ChunkAggregator F64) (i bw rtt_ms : ℕ)
      → rtt_ms ≡ 0
      → All NoRtt a.link_stats
      → let b = update_link_stats fl a i bw rtt_ms in
        All NoRtt b.link_stats × (b.optimal_chunk_size ≡ a.optimal_chunk_size)
  unfolding update_link_stats
  update_link_stats_rest a i bw rtt_ms z h =
      let links = modify (λ (_ : ℕ × ℕ). (bw, rtt_ms)) a.link_stats i in
      let calm : All NoRtt links =
        All-modify NoRtt (λ (_ : ℕ × ℕ). (bw, rtt_ms)) (λ p k. z) a.link_stats i h in
      let same = recalculate_rest (record a { link_stats = links }) calm in
      elim (Bool-cases (ltb i (length a.link_stats))) [
        | inl found ↦ rw (found, same) (calm, refl)
        | inr missing ↦ rw missing (h, refl)
      ]

  pub add_packet_rest :
      (a : ChunkAggregator F64) (p : List ℕ) (flow_id : Option ℕ) (now : ℕ)
      → let b = (add_packet a p flow_id now).1 in
        (b.link_stats ≡ a.link_stats) × (b.optimal_chunk_size ≡ a.optimal_chunk_size)
  unfolding add_packet
  add_packet_rest a p flow_id now = ground arith

  pub check_timeout_rest :
      (a : ChunkAggregator F64) (now : ℕ)
      → let b = (check_timeout a now).1 in
        (b.link_stats ≡ a.link_stats) × (b.optimal_chunk_size ≡ a.optimal_chunk_size)
  unfolding check_timeout
  check_timeout_rest a now = ground arith

  pub tick_rest :
      (now : ℕ) (s : StatsCollector F64)
      → All IsUnmeasured s.links
      → All IsUnmeasured (Collector.tick fl now s).links
  unfolding Collector.tick update_health update_bandwidth
  tick_rest now s h = All-map IsUnmeasured _ (λ l k. ground arith) s.links h

  pub record_tx_rest :
      (i bytes now : ℕ) (s : StatsCollector F64)
      → All IsUnmeasured s.links
      → All IsUnmeasured (Collector.record_tx i bytes now s).links
  unfolding Collector.record_tx link_record_tx
  record_tx_rest i bytes now s h = All-modify IsUnmeasured _ (λ l k. k) s.links i h

  pub record_rx_rest :
      (i bytes now : ℕ) (s : StatsCollector F64)
      → All IsUnmeasured s.links
      → All IsUnmeasured (Collector.record_rx i bytes now s).links
  unfolding Collector.record_rx link_record_rx
  record_rx_rest i bytes now s h = All-modify IsUnmeasured _ (λ l k. k) s.links i h

  pub rtts_rest :
      (ls : List (LinkStats F64))
      → All IsUnmeasured ls
      → All (λ (r : ℕ). r ≡ 0) (map (λ (l : LinkStats F64). l.smoothed_rtt_us) ls)
  rtts_rest [] h = tt
  rtts_rest (l ∷ ls) h = (h.0, rtts_rest ls h.1)

  -- The RTTs that the statistics task has in its hands are 0.
  abbrev pub IsCalm : Phase → Type 0
  IsCalm (pushing i bws rtts) = All (λ (r : ℕ). r ≡ 0) rtts
  IsCalm _ = Unit

  pub push_stats_rest :
      (k now i : ℕ) (bws rtts : List ℕ) (n : Node F64)
      → All (λ (r : ℕ). r ≡ 0) rtts
      → IsAtRest k n.stats n.aggregator
      → let m = push_stats fl now i bws rtts n in IsAtRest k m.stats m.aggregator × IsCalm m.phase
  unfolding push_stats
  push_stats_rest k now i [] rtts n z h = (h, tt)
  push_stats_rest k now i (bw ∷ bws) [] n z h = (h, tt)
  push_stats_rest k now i (bw ∷ bws) (rtt ∷ rtts) n z h =
      let (calm, same) =
        update_link_stats_rest n.aggregator i bw (rtt / 1000 % 2 ^ 32) (omega (arith, z.0)) h.1 in
      ((h.0, calm, same ∙ h.2), z.1)

  module _ (j : SerdeJson) where
    answer_echo :
        (link_id chunk_id now_us : ℕ) (p : Ack.AckPacket)
        → IsU64 chunk_id
        → IsU64 now_us
        → Packet.decode j (take 65_536 (Ack.encode (ack_packet link_id chunk_id now_us)))
          ≡ some (ack p)
        → p.echo_timestamp_us ≡ 0
    unfolding Packet.encode ack_packet
    answer_echo link_id chunk_id now_us p f g e =
        let q = ack_packet link_id chunk_id now_us in
        let short : length (Ack.encode q) ≡ 26 = length-ack q in
        let read = packet_round_trip j (ack q) [] (record {
          chunk_id_fits = f;
          link_id_fits = omega arith;
          echo_timestamp_us_fits = omega arith;
          recv_timestamp_us_fits = g;
        }) in
        let same : some (ack p) ≡ some (ack q) =
          sym e
          ∙ ap (λ bs. Packet.decode j bs)
              (take_all 65_536 (Ack.encode q) (omega arith) ∙ sym (append-nil (Ack.encode q)))
          ∙ read in
        ground arith

    -- An ACK that the other program sent echoes no time.
    pub emitted_echo :
        (bytes : List ℕ) (p : Ack.AckPacket)
        → IsEmitted bytes
        → Packet.decode j (take 65_536 bytes) ≡ some (ack p)
        → p.echo_timestamp_us ≡ 0
    unfolding Wire.encode Probe.encode Keepalive.encode
    emitted_echo bytes p (chunk link_id c) e =
        absurd (omega (arith, (decode-MinSize j _ (ack p) e).0))
    emitted_echo bytes p (answer link_id chunk_id now_us f g) e =
        answer_echo link_id chunk_id now_us p f g e
    emitted_echo bytes p (probing q) e = absurd (omega (arith, (decode-MinSize j _ (ack p) e).0))
    emitted_echo bytes p (alive q) e = absurd (omega (arith, (decode-MinSize j _ (ack p) e).0))
