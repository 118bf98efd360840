-- ===== src/Node/Steps/Rest.antt =====
-- Between two of these programs, over any run.
use chainlightning.Base.{
  ℕ, ◌≡◌, refl, ap, sym, ◌∙◌, inl, inr, List, [], ◌∷◌, Option, none, some, Bool, true, false, ◌&&◌,
  arith, take, subst, length, All, ltb, if◌then◌else◌, Option-cases,
}
use chainlightning.Floats.{Floats}
use chainlightning.Aggregator.Chunk.{Chunk, extract_packets}
use chainlightning.Aggregator.Ops
use chainlightning.Aggregator.Ops.{
  ChunkAggregator, add_packet, check_timeout, update_link_stats, max_bdp,
}
use chainlightning.Classifier.{classify}
use chainlightning.Wire.Flow.{from_packet}
use chainlightning.Config.State.{Config}
use chainlightning.Node.State.{
  Node, Peer, connected, learned, new_node, Phase, waits, ticked, weighing, measuring, pushing,
  sending_weights,
}
use chainlightning.Node.Steps
use chainlightning.Node.Steps.{
  Event, step, run, step_read, step_read_send, step_poll, step_poll_send, step_send, step_write,
  step_keepalive, step_receive, step_received,
}
use chainlightning.Node.Tasks.{
  receive, handle_packet, read_tun, poll_timeout, send_chunk, write_tun, update_stats, send_probes,
  send_keepalives, after_read,
}
use chainlightning.Metrics.Snapshot.{snapshot}
use chainlightning.RateController.Ops as Rates
use chainlightning.Stats.Collector
use chainlightning.Stats.Collector.{StatsCollector, new_links}
use chainlightning.Stats.Link.{new_link_stats}
use chainlightning.Wire.Ack as Ack
use chainlightning.Wire.Packet
use chainlightning.Wire.Packet.{Packet, data_chunk, announce, ack, stats, keepalive, probe}
use chainlightning.Wire.Stats.{SerdeJson}
use chainlightning.Node.Steps.Rtt.{
  IsEmitted, IsFromPeer, NoRtt, IsAtRest, IsCalm, add_packet_rest, check_timeout_rest, tick_rest,
  record_tx_rest, record_rx_rest, rtts_rest, push_stats_rest, emitted_echo,
}

some_eq {ℓ κ} : {A : Type ℓ} {x u : A} (P : A → Type κ) → some x ≡ some u → P x → P u
some_eq P e h = subst P (cc) h

module _ (fl : Floats) (k : ℕ) where
  open fl use {F64}

  -- The node's statistics and its aggregator, and what its statistics task has in its hands.
  abbrev Rests : Node F64 → Type 0
  Rests n = IsAtRest fl k n.stats n.aggregator × IsCalm fl n.phase

  after_read_rest :
      (out : Option Chunk) (bytes : ℕ) (n : Node F64) → Rests n → Rests (after_read fl out bytes n)
  after_read_rest none bytes n h = h
  after_read_rest (some c) bytes n h = h

  -- The same sizes and links in the aggregator.
  moved :
      (s : StatsCollector F64) (a b : ChunkAggregator F64)
      → (b.link_stats ≡ a.link_stats) × (b.optimal_chunk_size ≡ a.optimal_chunk_size)
      → IsAtRest fl k s a
      → IsAtRest fl k s b
  moved s a b (links, size) h = (h.0, subst (All (NoRtt fl)) (sym links) h.1, size ∙ h.2)

  read_rest :
      (o : Option (Chunk × ℕ)) (bytes : List ℕ) (now : ℕ) (n : Node F64)
      → Rests n
      → Rests (step_read fl o bytes now n)
  unfolding read_tun
  read_rest (some waiting) bytes now n h = h
  read_rest none [] now n h = h
  read_rest none (b ∷ bytes) now n h =
      let packet = take 2000 (b ∷ bytes) in
      let flow_id = from_packet packet in
      let (out, a) = add_packet n.aggregator packet flow_id now in
      after_read_rest out (length packet)
        (record n { classifier = (classify fl packet now n.classifier).1; aggregator = a })
        (moved n.stats n.aggregator a (add_packet_rest fl n.aggregator packet flow_id now) h.0, h.1)

  poll_rest : (o : Option Chunk) (now : ℕ) (n : Node F64) → Rests n → Rests (step_poll fl o now n)
  unfolding poll_timeout
  poll_rest (some waiting) now n h = h
  poll_rest none now n h = (
    moved n.stats n.aggregator (check_timeout n.aggregator now).1
        (check_timeout_rest fl n.aggregator now) h.0,
    h.1,
  )

  -- Whether there is room or not.
  either_rest : (b : Bool) (m n : Node F64) → Rests m → Rests n → Rests (if b then m else n)
  either_rest true m n p q = p
  either_rest false m n p q = q

  read_send_rest : (o : Option (Chunk × ℕ)) (n : Node F64) → Rests n → Rests (step_read_send fl o n)
  read_send_rest none n h = h
  read_send_rest (some (c, bytes)) n h = either_rest _ _ n h h

  poll_send_rest : (o : Option Chunk) (n : Node F64) → Rests n → Rests (step_poll_send fl o n)
  poll_send_rest none n h = h
  poll_send_rest (some c) n h = either_rest _ _ n h h

  send_rest :
      (cs : List Chunk) (accepted : Bool) (now : ℕ) (n : Node F64)
      → Rests n
      → Rests (step_send fl cs accepted now n)
  unfolding send_chunk
  send_rest [] accepted now n h = h
  send_rest (c ∷ rest) accepted now n h =
      either_rest _ _ _ ((record_tx_rest fl _ _ now n.stats h.0.0, h.0.1, h.0.2), h.1) h

  write_rest : (cs : List Chunk) (n m : Node F64) → step_write fl cs n ≡ some m → Rests n → Rests m
  unfolding write_tun
  write_rest [] n m e h = some_eq Rests e h
  write_rest (c ∷ rest) n m e h = elim (Option-cases (extract_packets c)) [
    | inl stuck ↦ let bad = rw stuck at e in absurd (cc)
    | inr (ps, p) ↦ let q = rw p at e in some_eq Rests q h
  ]

  keepalive_rest :
      (peer : Peer) (now_us : ℕ) (n : Node F64) → Rests n → Rests (step_keepalive fl peer now_us n)
  unfolding send_keepalives
  keepalive_rest connected now_us n h = h
  keepalive_rest (learned addrs) now_us n h = h

  probes_rest :
      (b : Bool) (now_us : ℕ) (n : Node F64)
      → Rests n
      → Rests (if b then send_probes fl now_us n else n)
  unfolding send_probes
  probes_rest b now_us n h = either_rest b _ n h h

  update_rest :
      (p : Phase) (now timestamp memory : ℕ) (n m : Node F64)
      → n.phase ≡ p
      → update_stats fl p now timestamp memory n ≡ some m
      → Rests n
      → Rests m
  unfolding update_stats Collector.rtts
  update_rest waits now timestamp memory n m same e h =
      some_eq Rests e ((tick_rest fl now n.stats h.0.0, h.0.1, h.0.2), tt)
  update_rest ticked now timestamp memory n m same e h =
      some_eq Rests e (h.0, rtts_rest fl n.stats.links h.0.0)
  update_rest (pushing i bws rtts) now timestamp memory n m same e h =
      some_eq Rests e (push_stats_rest fl k now i bws rtts n (subst (IsCalm fl) same h.1) h.0)
  update_rest weighing now timestamp memory n m same e h =
      some_eq Rests e (either_rest (Rates.enabled n.rates) _ _ (h.0, tt) (h.0, tt))
  update_rest (sending_weights weights) now timestamp memory n m same e h =
      some_eq Rests e (h.0, tt)
  update_rest measuring now timestamp memory n m same e h =
      elim (Option-cases (snapshot fl n.metrics now timestamp memory)) [
        | inl panics ↦ let bad = rw panics at e in absurd (cc)
        | inr (taken, done) ↦ let q = rw done at e in some_eq Rests q (h.0, tt)
      ]

  received_rest :
      (o : Option Chunk) (link_id now_us : ℕ) (n : Node F64)
      → Rests n
      → Rests (step_received fl o link_id now_us n)
  received_rest none link_id now_us n h = h
  received_rest (some c) link_id now_us n h = either_rest _ _ n h h

  module _ (j : SerdeJson) where
    handle_rest :
        (link_id bytes now now_us : ℕ) (p : Packet j.F32) (n m : Node F64)
        → ((q : Ack.AckPacket) → p ≡ ack q → q.echo_timestamp_us ≡ 0)
        → handle_packet fl j link_id bytes now now_us p n ≡ some m
        → Rests n
        → Rests m
    unfolding handle_packet
    handle_rest link_id bytes now now_us (data_chunk p) n m z e h =
        some_eq Rests e ((record_rx_rest fl link_id bytes now n.stats h.0.0, h.0.1, h.0.2), h.1)
    handle_rest link_id bytes now now_us (announce p) n m z e h = some_eq Rests e h
    handle_rest link_id bytes now now_us (ack p) n m z e h =
        let silent : (ltb 0 p.echo_timestamp_us && ltb p.echo_timestamp_us now_us) ≡ false =
          ground (arith, z p refl) in
        let q = rw silent at e in some_eq Rests q h
    handle_rest link_id bytes now now_us (stats p) n m z e h = some_eq Rests e h
    handle_rest link_id bytes now now_us (keepalive p) n m z e h = some_eq Rests e h
    handle_rest link_id bytes now now_us (probe p) n m z e h =
        elim (Option-cases (Rates.process_probe fl p now_us now n.rates)) [
          | inl panics ↦ let bad = rw panics at e in absurd (cc)
          | inr (rates, done) ↦ let q = rw done at e in some_eq Rests q h
        ]

    receive_rest :
        (link_id addr : ℕ) (datagram : List ℕ) (now now_us : ℕ) (n m : Node F64)
        → IsEmitted datagram
        → receive fl j link_id addr datagram now now_us n ≡ some m
        → Rests n
        → Rests m
    unfolding receive
    receive_rest link_id addr datagram now now_us n m s e h =
        elim (Option-cases (Packet.decode j (take 65_536 datagram))) [
          | inl none_decoded ↦ let q = rw (none_decoded, receive) at e in some_eq Rests q h
          | inr (p, d) ↦
              let q = rw (d, receive) at e in
              let silent : (a : Ack.AckPacket) → p ≡ ack a → a.echo_timestamp_us ≡ 0 =
                λ a same. emitted_echo fl j datagram a s (d ∙ ap some same) in
              handle_rest link_id _ now now_us p _ m silent q h
        ]

    receive_step_rest :
        (o : Option Chunk) (link_id addr : ℕ) (datagram : List ℕ) (now now_us : ℕ) (n m : Node F64)
        → IsEmitted datagram
        → step_receive fl j o link_id addr datagram now now_us n ≡ some m
        → Rests n
        → Rests m
    receive_step_rest none link_id addr datagram now now_us n m s e h =
        receive_rest link_id addr datagram now now_us n m s e h
    receive_step_rest (some waiting) link_id addr datagram now now_us n m s e h = some_eq Rests e h

    step_rest :
        (n m : Node F64) (e : Event) → step fl j n e ≡ some m → IsFromPeer e → Rests n → Rests m
    unfolding step
    step_rest n m (Steps.reads bytes now) e s h =
        some_eq Rests e (read_rest n.reader_chunk bytes now n h)
    step_rest n m Steps.reader_sends e s h = some_eq Rests e (read_send_rest n.reader_chunk n h)
    step_rest n m (Steps.polls now) e s h = some_eq Rests e (poll_rest n.checker_chunk now n h)
    step_rest n m Steps.checker_sends e s h = some_eq Rests e (poll_send_rest n.checker_chunk n h)
    step_rest n m (Steps.sends accepted now) e s h =
        some_eq Rests e (send_rest n.to_links accepted now n h)
    step_rest n m (Steps.receives link_id addr datagram now now_us) e s h =
        receive_step_rest (n.held link_id) link_id addr datagram now now_us n m s e h
    step_rest n m (Steps.receiver_sends link_id now_us) e s h =
        some_eq Rests e (received_rest (n.held link_id) link_id now_us n h)
    step_rest n m Steps.writes e s h = write_rest n.from_links n m e h
    step_rest n m (Steps.updates now timestamp memory) e s h =
        update_rest n.phase now timestamp memory n m refl e h
    step_rest n m (Steps.probes now_us) e s h =
        some_eq Rests e (probes_rest (Rates.enabled n.rates) now_us n h)
    step_rest n m (Steps.keeps_alive now_us) e s h =
        some_eq Rests e (keepalive_rest n.peer now_us n h)

    run_rest :
        (n m : Node F64) (es : List Event)
        → run fl j n es ≡ some m
        → All IsFromPeer es
        → Rests n
        → Rests m
    unfolding run
    run_rest n m [] e s h = some_eq Rests e h
    run_rest n m (x ∷ es) e s h = elim (Option-cases (step fl j n x)) [
      | inl stuck ↦ let bad = rw stuck at e in absurd (cc)
      | inr (v, one) ↦ run_rest v m es (rw one at e) s.1 (step_rest n v x one s.0 h)
    ]

-- In a run of a new program in which every datagram received is a chunk, an ACK, a probe or a
-- keepalive of such a program, the statistics never record an RTT: at the end the smoothed RTT of
-- every link in the statistics is 0, so are the RTTs that the aggregator has, and the optimal chunk
-- size is still min_chunk_size. The RTT that the rate controller takes from probes is not meant.
pub rtt_stays_zero :
    (fl : Floats) (j : SerdeJson) (config : Config fl.F64) (is_upload : Bool) (peer : Peer)
    (now : ℕ) (es : List Event) (n : Node fl.F64)
    → run fl j (new_node fl config is_upload peer now) es ≡ some n
    → All IsFromPeer es
    → IsAtRest fl config.chunk_aggregator.min_chunk_size n.stats n.aggregator
unfolding new_node Collector.new new_link_stats Ops.new
rtt_stays_zero fl j config is_upload peer now es n e s =
    (run_rest fl config.chunk_aggregator.min_chunk_size j (new_node fl config is_upload peer now) n
      es e s
      (
        (
          (refl, (refl, (refl, (refl, (refl, tt))))),
          (refl, (refl, (refl, (refl, (refl, tt))))),
          refl,
        ),
        tt,
      )).0
