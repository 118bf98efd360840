-- ===== src/Node/Steps/Order.antt =====
-- The other steps leave the chunks alone, and a whole run keeps them in order.
use mathlib.Core.List.{append_assoc}
use chainlightning.Base.{
  ℕ, ◌≡◌, refl, sym, inl, inr, List, [], ◌∷◌, ◌++◌, Option, none, some, Bool, true, false, ◌&&◌,
  Bool-cases, take, append-nil, if◌then◌else◌, subst, Option-cases, ltb, length, is_some, not,
}
use chainlightning.Floats.{Floats}
use chainlightning.Aggregator.Chunk.{Chunk, size, extract_packets}
use chainlightning.Aggregator.Ops
use chainlightning.Aggregator.Ops.{ChunkAggregator, adds, polls, updates, update_link_stats}
use chainlightning.Metrics.Snapshot.{snapshot}
use chainlightning.Node.State.{
  Node, Peer, connected, learned, reaches, Phase, waits, ticked, weighing, measuring, pushing,
  sending_weights,
}
use chainlightning.Node.Steps
use chainlightning.Node.Steps.{
  Event, step, run, step_send, step_write, step_keepalive, step_receive, step_received,
}
use chainlightning.Node.Steps.Moves.{
  Carries-snoc, Keeps, kept, Keeps-trans, unchanged, OnePending, Moves, Keeps-Moves,
  step_read-Moves, step_poll-Moves, step_read_send-Moves, step_poll_send-Moves,
}
use chainlightning.Node.Steps.Pipeline.{pipeline, stats_request, requests_of}
use chainlightning.Node.Tasks.{
  channel_size, send_chunk, receive, handle_packet, write_tun, push_stats, check_rates,
  update_stats, send_probes, send_keepalives,
}
use chainlightning.RateController.Ops as Rates
use chainlightning.Scheduler.Select.{schedule}
use chainlightning.Wire.Packet
use chainlightning.Wire.Packet.{Packet, data_chunk, announce, ack, stats, keepalive, probe}
use chainlightning.Wire.Stats.{SerdeJson}

some_eq {ℓ κ} : {A : Type ℓ} {x u : A} (P : A → Type κ) → some x ≡ some u → P x → P u
some_eq P e h = subst P (cc) h

-- The aggregator and the pipeline are as they were.
abbrev Leaves : {F : Type 0} → Node F → Node F → Type 0
Leaves n m = Keeps n m × (m.aggregator ≡ n.aggregator)

free_hands :
    {A B : Type 0} (x : Option A) (y : Option B)
    → (not (is_some x) && not (is_some y)) ≡ true
    → (x ≡ none) × (y ≡ none)
free_hands none none h = (refl, refl)
free_hands none (some y) h = absurd (cc)
free_hands (some x) y h = absurd (cc)

module _ (fl : Floats) where
  open fl use {F64}

  -- The datagram of the next chunk goes out.
  abbrev pub goes_out : List Chunk → (accepted : Bool) → Node F64 → Bool
  goes_out [] accepted n = true
  goes_out (c ∷ rest) accepted n =
      reaches n.peer (schedule n.scheduler (size c) false).0.link_id && accepted

  step_send-Moves :
      (n : Node F64) (cs : List Chunk) (accepted : Bool) (now : ℕ)
      → n.to_links ≡ cs
      → goes_out cs accepted n ≡ true
      → OnePending n
      → Moves fl n (step_send fl cs accepted now n) []
  unfolding send_chunk Ops.run
  step_send-Moves n [] accepted now e g h = Keeps-Moves fl n n (unchanged n) refl h
  step_send-Moves n (c ∷ rest) accepted now e g h = rw g (record {
    aggregator = refl;
    chunks = simp (e, append_assoc, append-nil);
    pending = h;
    carries = Carries-snoc n.transmitted n.taken _ c;
  })

  module _ (j : SerdeJson) where
    handle_packet-Leaves :
        (link_id bytes now now_us : ℕ) (p : Packet j.F32) (n m : Node F64)
        → handle_packet fl j link_id bytes now now_us p n ≡ some m
        → Leaves n m
    unfolding handle_packet
    handle_packet-Leaves link_id bytes now now_us (data_chunk p) n m e =
        some_eq (Leaves n) e (kept refl refl refl refl refl, refl)
    handle_packet-Leaves link_id bytes now now_us (announce p) n m e =
        some_eq (Leaves n) e (kept refl refl refl refl refl, refl)
    handle_packet-Leaves link_id bytes now now_us (ack p) n m e =
        elim (Bool-cases (ltb 0 p.echo_timestamp_us && ltb p.echo_timestamp_us now_us)) [
          | inl measured ↦
              let q = rw measured at e in some_eq (Leaves n) q (kept refl refl refl refl refl, refl)
          | inr other ↦ let q = rw other at e in some_eq (Leaves n) q (unchanged n, refl)
        ]
    handle_packet-Leaves link_id bytes now now_us (stats p) n m e =
        some_eq (Leaves n) e (unchanged n, refl)
    handle_packet-Leaves link_id bytes now now_us (keepalive p) n m e =
        some_eq (Leaves n) e (unchanged n, refl)
    handle_packet-Leaves link_id bytes now now_us (probe p) n m e =
        elim (Option-cases (Rates.process_probe fl p now_us now n.rates)) [
          | inl panics ↦ let bad = rw panics at e in absurd (cc)
          | inr (rates, done) ↦
              let q = rw done at e in some_eq (Leaves n) q (kept refl refl refl refl refl, refl)
        ]

    receive-Leaves :
        (link_id addr : ℕ) (datagram : List ℕ) (now now_us : ℕ) (n m : Node F64)
        → receive fl j link_id addr datagram now now_us n ≡ some m
        → Leaves n m
    unfolding receive
    receive-Leaves link_id addr datagram now now_us n m e =
        elim (Option-cases (Packet.decode j (take 65_536 datagram))) [
          | inl none_decoded ↦
              let q = rw (none_decoded, receive) at e in
              some_eq (Leaves n) q (kept refl refl refl refl refl, refl)
          | inr (p, d) ↦
              let q = rw (d, receive) at e in
              let (k, a) = handle_packet-Leaves link_id _ now now_us p _ m q in
              (Keeps-trans (kept refl refl refl refl refl) k, a)
        ]

  step_write-Leaves : (cs : List Chunk) (n m : Node F64) → step_write fl cs n ≡ some m → Leaves n m
  unfolding write_tun
  step_write-Leaves [] n m e = some_eq (Leaves n) e (unchanged n, refl)
  step_write-Leaves (c ∷ rest) n m e = elim (Option-cases (extract_packets c)) [
    | inl stuck ↦ let bad = rw stuck at e in absurd (cc)
    | inr (ps, p) ↦ let q = rw p at e in some_eq (Leaves n) q (kept refl refl refl refl refl, refl)
  ]

  step_keepalive-Leaves :
      (peer : Peer) (now_us : ℕ) (n : Node F64) → Leaves n (step_keepalive fl peer now_us n)
  unfolding send_keepalives
  step_keepalive-Leaves connected now_us n = (kept refl refl refl refl refl, refl)
  step_keepalive-Leaves (learned addrs) now_us n = (unchanged n, refl)

  step_probes-Leaves :
      (b : Bool) (now_us : ℕ) (n : Node F64) → Leaves n (if b then send_probes fl now_us n else n)
  unfolding send_probes
  step_probes-Leaves true now_us n = (kept refl refl refl refl refl, refl)
  step_probes-Leaves false now_us n = (unchanged n, refl)

  push_stats-Moves :
      (now i : ℕ) (bws rtts : List ℕ) (n : Node F64)
      → OnePending n
      → Moves fl n (push_stats fl now i bws rtts n) (stats_request fl (pushing i bws rtts))
  unfolding push_stats Ops.run Ops.step
  push_stats-Moves now i [] rtts n h = Keeps-Moves fl n _ (kept refl refl refl refl refl) refl h
  push_stats-Moves now i (bw ∷ bws) [] n h =
      Keeps-Moves fl n _ (kept refl refl refl refl refl) refl h
  push_stats-Moves now i (bw ∷ bws) (rtt ∷ rtts) n h = record {
    aggregator = refl;
    chunks = sym (append-nil (pipeline n));
    pending = h;
    carries = λ c. c;
  }

  weighed-Leaves :
      (b : Bool) (now : ℕ) (n : Node F64)
      → Leaves n (if b then check_rates fl now n else record n { phase = measuring })
  weighed-Leaves true now n = (kept refl refl refl refl refl, refl)
  weighed-Leaves false now n = (kept refl refl refl refl refl, refl)

  update_stats-Moves :
      (p : Phase) (now timestamp memory : ℕ) (n m : Node F64)
      → update_stats fl p now timestamp memory n ≡ some m
      → OnePending n
      → Moves fl n m (stats_request fl p)
  unfolding update_stats
  update_stats-Moves waits now timestamp memory n m e h =
      some_eq (λ u. Moves fl n u []) e (Keeps-Moves fl n _ (kept refl refl refl refl refl) refl h)
  update_stats-Moves ticked now timestamp memory n m e h =
      some_eq (λ u. Moves fl n u []) e (Keeps-Moves fl n _ (kept refl refl refl refl refl) refl h)
  update_stats-Moves (pushing i bws rtts) now timestamp memory n m e h =
      some_eq (λ u. Moves fl n u (stats_request fl (pushing i bws rtts))) e
        (push_stats-Moves now i bws rtts n h)
  update_stats-Moves weighing now timestamp memory n m e h =
      let (k, a) = weighed-Leaves (Rates.enabled n.rates) now n in
      some_eq (λ u. Moves fl n u []) e (Keeps-Moves fl n _ k a h)
  update_stats-Moves (sending_weights weights) now timestamp memory n m e h =
      some_eq (λ u. Moves fl n u []) e (Keeps-Moves fl n _ (kept refl refl refl refl refl) refl h)
  update_stats-Moves measuring now timestamp memory n m e h =
      elim (Option-cases (snapshot fl n.metrics now timestamp memory)) [
        | inl panics ↦ let bad = rw panics at e in absurd (cc)
        | inr (taken, done) ↦
            let q = rw done at e in
            some_eq (λ u. Moves fl n u []) q
              (Keeps-Moves fl n (record n { metrics = taken.1; phase = waits })
                (kept refl refl refl refl refl) refl h)
      ]

  step_received-Leaves :
      (o : Option Chunk) (link_id now_us : ℕ) (n : Node F64)
      → Leaves n (step_received fl o link_id now_us n)
  step_received-Leaves none link_id now_us n = (unchanged n, refl)
  step_received-Leaves (some c) link_id now_us n =
      elim (Bool-cases (ltb (length n.from_links) channel_size)) [
        | inl room ↦ rw room (kept refl refl refl refl refl, refl)
        | inr full ↦ rw full (unchanged n, refl)
      ]

  -- The reader and the checker start only with nothing in either's hands, and every chunk that the
  -- chunk sender takes goes out.
  abbrev pub is_orderly : Node F64 → Event → Bool
  is_orderly n (Steps.reads bytes now) =
      not (is_some n.reader_chunk) && not (is_some n.checker_chunk)
  is_orderly n (Steps.polls now) = not (is_some n.reader_chunk) && not (is_some n.checker_chunk)
  is_orderly n (Steps.sends accepted now) = goes_out n.to_links accepted n
  is_orderly n _ = true

  -- Nothing in either's hands.
  pub free :
      (n : Node F64)
      → (not (is_some n.reader_chunk) && not (is_some n.checker_chunk)) ≡ true
      → (n.reader_chunk ≡ none) × (n.checker_chunk ≡ none)
  free n h = free_hands n.reader_chunk n.checker_chunk h

  module _ (j : SerdeJson) where
    step_receive-Leaves :
        (o : Option Chunk) (link_id addr : ℕ) (datagram : List ℕ) (now now_us : ℕ) (n m : Node F64)
        → step_receive fl j o link_id addr datagram now now_us n ≡ some m
        → Leaves n m
    step_receive-Leaves none link_id addr datagram now now_us n m e =
        receive-Leaves j link_id addr datagram now now_us n m e
    step_receive-Leaves (some waiting) link_id addr datagram now now_us n m e =
        some_eq (Leaves n) e (unchanged n, refl)

    Leaves-Moves : (n m : Node F64) → Leaves n m → OnePending n → Moves fl n m []
    Leaves-Moves n m l h = Keeps-Moves fl n m l.0 l.1 h

    pub step-Moves :
        (n m : Node F64) (e : Event)
        → step fl j n e ≡ some m
        → is_orderly n e ≡ true
        → OnePending n
        → Moves fl n m (requests_of fl n e)
    unfolding step
    step-Moves n m (Steps.reads bytes now) e g h =
        let (hr, hc) = free n g in
        some_eq (λ u. Moves fl n u (requests_of fl n (Steps.reads bytes now))) e
          (step_read-Moves fl n n.reader_chunk bytes now refl hr hc)
    step-Moves n m (Steps.polls now) e g h =
        let (hr, hc) = free n g in
        some_eq (λ u. Moves fl n u (requests_of fl n (Steps.polls now))) e
          (step_poll-Moves fl n n.checker_chunk now refl hr hc)
    step-Moves n m Steps.reader_sends e g h =
        some_eq (λ u. Moves fl n u []) e (step_read_send-Moves fl n n.reader_chunk refl h)
    step-Moves n m Steps.checker_sends e g h =
        some_eq (λ u. Moves fl n u []) e (step_poll_send-Moves fl n n.checker_chunk refl h)
    step-Moves n m (Steps.sends accepted now) e g h =
        some_eq (λ u. Moves fl n u []) e (step_send-Moves n n.to_links accepted now refl g h)
    step-Moves n m (Steps.receives link_id addr datagram now now_us) e g h =
        Leaves-Moves n m
          (step_receive-Leaves (n.held link_id) link_id addr datagram now now_us n m e) h
    step-Moves n m (Steps.receiver_sends link_id now_us) e g h =
        Leaves-Moves n m
          (some_eq (Leaves n) e (step_received-Leaves (n.held link_id) link_id now_us n)) h
    step-Moves n m Steps.writes e g h = Leaves-Moves n m (step_write-Leaves n.from_links n m e) h
    step-Moves n m (Steps.updates now timestamp memory) e g h =
        update_stats-Moves n.phase now timestamp memory n m e h
    step-Moves n m (Steps.probes now_us) e g h =
        Leaves-Moves n m
          (some_eq (Leaves n) e (step_probes-Leaves (Rates.enabled n.rates) now_us n)) h
    step-Moves n m (Steps.keeps_alive now_us) e g h =
        Leaves-Moves n m (some_eq (Leaves n) e (step_keepalive-Leaves n.peer now_us n)) h

    -- Every event of a run is orderly.
    abbrev pub is_orderly_run : Node F64 → List Event → Bool
    is_orderly_run n [] = true
    is_orderly_run n (e ∷ es) =
        is_orderly n e && elim (step fl j n e) [ none ↦ true | some m ↦ is_orderly_run m es ]

  -- The packets that the TUN reader reads.
  abbrev pub tun_packet : Event → List (List ℕ)
  tun_packet (Steps.reads [] now) = []
  tun_packet (Steps.reads (b ∷ bytes) now) = take 2000 (b ∷ bytes) ∷ []
  tun_packet _ = []

  abbrev pub tun_packets : List Event → List (List ℕ)
  tun_packets [] = []
  tun_packets (e ∷ es) = tun_packet e ++ tun_packets es
