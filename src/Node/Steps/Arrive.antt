-- ===== src/Node/Steps/Arrive.antt =====
-- The receiving side: what arrives as the datagrams of chunks is written.
use chainlightning.Base.{
  ℕ, ◌+◌, ◌≤◌, ◌≡◌, refl, ap, sym, ◌∙◌, inl, List, [], ◌∷◌, ◌++◌, map, some, true, arith, take,
  append-nil, append_assoc, subst, length, All, take_all, to_be, IsU64, ltb, none, Option, inr,
  ◌==◌, Bool-cases,
}
use chainlightning.Floats.{Floats}
use chainlightning.Aggregator.Chunk.{Chunk, extract_packets}
use chainlightning.Aggregator.Chunk.RoundTrip.{extract_packets_total}
use chainlightning.Aggregator.Ops.Delivery.{deliver}
use chainlightning.Node.State.{Node, learn}
use chainlightning.Node.Steps.{
  Event, step, run, receives, receiver_sends, writes, step_write, step_receive, step_received,
}
use chainlightning.Node.Steps.Moves.{Carries}
use chainlightning.Node.Tasks.{
  count_written, hold, send_received, chunk_packet, received_chunk, receive, handle_packet,
  write_tun, channel_size,
}
use chainlightning.Metrics.Counters.{record_chunk_rx}
use chainlightning.RateController.Ops as Rates
use chainlightning.Stats.Collector
use chainlightning.Wire.Chunk as Wire
use chainlightning.Wire.Packet
use chainlightning.Wire.Packet.{data_chunk}
use chainlightning.Wire.Packet.RoundTrip.{packet_round_trip}
use chainlightning.Wire.Stats.{SerdeJson}

-- A datagram that comes in, and when.
pub record Arrival : Type 0 where
  pub link_id : ℕ
  pub addr : ℕ
  pub datagram : List ℕ
  pub now : ℕ
  pub now_us : ℕ

-- The link receiver handles each datagram and sends its chunk on, and the TUN writer writes it.
abbrev pub arrivals : List Arrival → List Event
arrivals [] = []
arrivals (x ∷ xs) =
    receives x.link_id x.addr x.datagram x.now x.now_us
    ∷ receiver_sends x.link_id x.now_us
    ∷ writes
    ∷ arrivals xs

-- UDP carries at most 65507 bytes.
abbrev pub IsDatagram : List ℕ → Type 0
IsDatagram bytes = length bytes ≤ 65_507

length-encode : (p : Wire.ChunkPacket) → length (Wire.encode p) ≡ 20 + length p.payload
unfolding Wire.encode to_be
length-encode p = omega arith

pub deliver_total : (cs : List Chunk) → (ps : List (List ℕ)) × (deliver cs ≡ some ps)
unfolding deliver
deliver_total [] = ([], refl)
deliver_total (c ∷ cs) =
    let (ps, e) = extract_packets_total c in
    let (qs, d) = deliver_total cs in (ps ++ qs, rw (e, d) refl)

-- Chunks with the numbers of an aggregator fit the wire.
abbrev pub HasNumber : Chunk → Type 0
HasNumber c = IsU64 c.id

module _ (fl : Floats) (j : SerdeJson) where
  open fl use {F64}

  chunk_packet-decode :
      (link_id : ℕ) (c : Chunk) (bytes : List ℕ)
      → bytes ≡ Wire.encode (chunk_packet link_id c)
      → IsDatagram bytes
      → HasNumber c
      → Packet.decode j (take 65_536 bytes) ≡ some (data_chunk (chunk_packet link_id c))
  unfolding Packet.encode chunk_packet
  chunk_packet-decode link_id c bytes d fits number =
      let p = chunk_packet link_id c in
      let size_eq : length (Wire.encode p) ≡ 20 + length c.data_bytes = length-encode p in
      let short : length (Wire.encode p) ≤ 65_507 = subst IsDatagram d fits in
      ap (λ bs. Packet.decode j bs)
        (take_all 65_536 bytes (omega arith) ∙ d ∙ sym (append-nil (Wire.encode p)))
      ∙ packet_round_trip j (data_chunk p) [] (
        record {
          chunk_id_fits = number;
          link_id_fits = omega arith;
          total_size_fits = omega arith;
          offset_fits = omega arith;
        },
        omega arith,
      )

  -- The node after a datagram with a chunk.
  abbrev with_chunk : Node F64 → Arrival → Wire.ChunkPacket → Node F64
  with_chunk n x p = record n {
    peer = learn x.link_id x.addr n.peer;
    stats = Collector.record_rx x.link_id (length (take 65_536 x.datagram)) x.now n.stats;
    metrics = record (n.metrics) {
      counters = record_chunk_rx (length p.payload) n.metrics.counters;
    };
    rates = Rates.record_rx x.link_id (length (take 65_536 x.datagram)) n.rates;
    held = hold x.link_id (some (received_chunk p x.now)) n.held;
  }

  step_receives :
      (n : Node F64) (x : Arrival) (p : Wire.ChunkPacket)
      → n.held x.link_id ≡ none
      → Packet.decode j (take 65_536 x.datagram) ≡ some (data_chunk p)
      → step fl j n (receives x.link_id x.addr x.datagram x.now x.now_us) ≡ some (with_chunk n x p)
  unfolding step receive handle_packet
  step_receives n x p free e =
      ap (λ o. step_receive fl j o x.link_id x.addr x.datagram x.now x.now_us n) free
      ∙ rw (e, receive) refl

  step_receiver_sends :
      (n : Node F64) (link_id now_us : ℕ) (c : Chunk)
      → n.from_links ≡ []
      → n.held link_id ≡ some c
      → step fl j n (receiver_sends link_id now_us) ≡ some (send_received fl link_id now_us c n)
  unfolding step
  step_receiver_sends n link_id now_us c empty has =
      let room : ltb (length n.from_links) channel_size ≡ true =
        ap (λ (cs : List Chunk). ltb (length cs) channel_size) empty in
      ap (λ o. some (step_received fl o link_id now_us n)) has ∙ rw room refl

  -- After its send a receiver has nothing in its hands.
  hold-none :
      (held : ℕ → Option Chunk) (link_id : ℕ) (c : Option Chunk)
      → ((i : ℕ) → held i ≡ none)
      → (i : ℕ) → hold link_id none (hold link_id c held) i ≡ none
  hold-none held link_id c free i = elim (Bool-cases (i == link_id)) [
    | inl e ↦ rw e refl
    | inr e ↦ rw e (free i)
  ]

  hold-same :
      (held : ℕ → Option Chunk) (link_id : ℕ) (c : Option Chunk) → hold link_id c held link_id ≡ c
  hold-same held link_id c = let same : (link_id == link_id) ≡ true = ground arith in rw same refl

  step_writes :
      (n : Node F64) (c : Chunk) (ps : List (List ℕ))
      → n.from_links ≡ c ∷ []
      → extract_packets c ≡ some ps
      → step fl j n writes
        ≡ some (record n {
          from_links = [];
          written = n.written ++ ps;
          metrics = count_written fl ps n.metrics;
        })
  unfolding step write_tun
  step_writes n c ps one e = ap (λ cs. step_write fl cs n) one ∙ rw e refl

  received_chunk-extract :
      (link_id now : ℕ) (c : Chunk)
      → extract_packets (received_chunk (chunk_packet link_id c) now) ≡ extract_packets c
  unfolding extract_packets received_chunk chunk_packet
  received_chunk-extract link_id now c = refl

  -- What arrives as the datagrams of chunks is written, packet by packet.
  pub arrivals_written :
      (n : Node F64) (xs : List Arrival) (ts : List (ℕ × List ℕ)) (cs : List Chunk)
      (ps : List (List ℕ))
      → n.from_links ≡ []
      → ((i : ℕ) → n.held i ≡ none)
      → map (λ (x : Arrival). x.datagram) xs ≡ map (λ (t : ℕ × List ℕ). t.1) ts
      → Carries ts cs
      → All (λ (t : ℕ × List ℕ). IsDatagram t.1) ts
      → All HasNumber cs
      → deliver cs ≡ some ps
      → (m : Node F64) × (run fl j n (arrivals xs) ≡ some m) × (m.written ≡ n.written ++ ps)
  unfolding run deliver
  arrivals_written n [] [] [] ps empty free same c fits numbers e =
      let none_yet : [] ≡ ps = cc in (n, refl, rw (← none_yet) (sym (append-nil n.written)))
  arrivals_written n (x ∷ xs) (t ∷ ts) (c ∷ cs) ps empty free same ((link_id, d), carried) fits
        numbers e =
      let (first, f) = extract_packets_total c in
      let (others, o) = deliver_total cs in
      let both : first ++ others ≡ ps = let q = rw (f, o) at e in cc in
      let head : x.datagram ≡ t.1 = cc in
      let tail : map (λ (y : Arrival). y.datagram) xs ≡ map (λ (u : ℕ × List ℕ). u.1) ts = cc in
      let p = chunk_packet link_id c in
      let decoded =
        chunk_packet-decode link_id c x.datagram (head ∙ d) (subst IsDatagram (sym head) fits.0)
          numbers.0 in
      let u = with_chunk n x p in
      let k = received_chunk p x.now in
      let v = send_received fl x.link_id x.now_us k u in
      let alone : v.from_links ≡ k ∷ [] = ap (λ (ks : List Chunk). ks ++ k ∷ []) empty in
      let w : Node F64 = record v {
        from_links = [];
        written = v.written ++ first;
        metrics = count_written fl first v.metrics;
      } in
      let (m, done, wrote) =
        arrivals_written w xs ts cs others refl (hold-none n.held x.link_id (some k) free) tail
          carried fits.1 numbers.1 o in
      (
        m,
        rw
            (
              step_receives n x p (free x.link_id) decoded,
              step_receiver_sends u x.link_id x.now_us k empty
                  (hold-same n.held x.link_id (some k)),
              step_writes v k first alone (received_chunk-extract link_id x.now c ∙ f),
              done,
            )
            refl,
        wrote ∙ append_assoc n.written first others ∙ ap (λ qs. n.written ++ qs) both,
      )
  arrivals_written n [] (t ∷ ts) cs ps empty free same c fits numbers e = absurd (cc)
  arrivals_written n (x ∷ xs) [] cs ps empty free same c fits numbers e = absurd (cc)
  arrivals_written n [] [] (k ∷ cs) ps empty free same c fits numbers e = absurd c
  arrivals_written n (x ∷ xs) (t ∷ ts) [] ps empty free same c fits numbers e = absurd c
