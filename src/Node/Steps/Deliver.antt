-- ===== src/Node/Steps/Deliver.antt =====
-- Through the whole tunnel: from the TUN device of one side to that of the other.
use chainlightning.Base.{
  ℕ, ◌≡◌, refl, ap, sym, ◌∙◌, inl, List, [], ◌∷◌, ◌++◌, map, some, Bool, true, arith, append_assoc,
  length, All, All-append, length-take-le, All-append_left, IsU64, add64, drop, get_or, none,
}
use chainlightning.Floats.{Floats}
use chainlightning.Aggregator.Chunk.{Chunk}
use chainlightning.Aggregator.Chunk.RoundTrip.{IsShort, extract_packets_total}
use chainlightning.Aggregator.Ops
use chainlightning.Aggregator.Ops.Delivery.{deliver, aggregator_delivers}
use chainlightning.Aggregator.Ops.Ids.{aggregator_ids, ids_from}
use chainlightning.Config.State.{Config}
use chainlightning.Links.{num_links}
use chainlightning.Node.State.{Node, Peer, new_node}
use chainlightning.Node.Steps.{Event, run, reads}
use chainlightning.Node.Steps.Order.{is_orderly_run, tun_packet, tun_packets}
use chainlightning.Node.Steps.Pipeline.{pipeline, checker_list, reader_list}
use chainlightning.Node.Steps.Runs.{run-Moves}
use chainlightning.Wire.Stats.{SerdeJson}
use chainlightning.Node.Steps.Arrive.{
  Arrival, arrivals, IsDatagram, deliver_total, HasNumber, arrivals_written,
}

deliver-append :
    (xs ys : List Chunk) (ps qs : List (List ℕ))
    → deliver xs ≡ some ps
    → deliver ys ≡ some qs
    → deliver (xs ++ ys) ≡ some (ps ++ qs)
unfolding deliver
deliver-append [] ys ps qs e d = let none_yet : [] ≡ ps = cc in rw (← none_yet) d
deliver-append (c ∷ cs) ys ps qs e d =
    let (first, f) = extract_packets_total c in
    let (rest, r) = deliver_total cs in
    let both : first ++ rest ≡ ps = let q = rw (f, r) at e in cc in
    rw (f, deliver-append cs ys rest qs r d, ← both, append_assoc first rest qs)

ids-HasNumber :
    (k : ℕ) (cs : List Chunk)
    → IsU64 k
    → map (λ (c : Chunk). c.id) cs ≡ ids_from k (length cs)
    → All HasNumber cs
ids-HasNumber k [] h e = tt
ids-HasNumber k (c ∷ cs) h e =
    let first : c.id ≡ k = ap (λ (xs : List ℕ). get_or xs 0 k) e in
    let rest = ap (λ (xs : List ℕ). drop 1 xs) e in
    (omega arith, ids-HasNumber (add64 k 1) cs (omega arith) rest)

tun_packet-IsShort : (fl : Floats) (e : Event) → All IsShort (tun_packet fl e)
tun_packet-IsShort fl (reads [] now) = tt
tun_packet-IsShort fl (reads (b ∷ bytes) now) = (omega (arith, length-take-le 2000 (b ∷ bytes)), tt)
tun_packet-IsShort fl _ = tt

tun_packets-IsShort : (fl : Floats) (es : List Event) → All IsShort (tun_packets fl es)
tun_packets-IsShort fl [] = tt
tun_packets-IsShort fl (e ∷ es) =
    All-append IsShort (tun_packet fl e) (tun_packets fl es) (tun_packet-IsShort fl e)
      (tun_packets-IsShort fl es)

some_injective : {A : Type 0} {x y : A} → some x ≡ some y → x ≡ y
some_injective e = cc

module _ (fl : Floats) (j : SerdeJson) where
  open fl use {F64}

  -- The chunks behind the aggregator that the chunk sender has not taken, and the current one.
  abbrev pub waiting : Node F64 → List Chunk
  waiting n =
      (n.to_links ++ (checker_list n.checker_chunk ++ reader_list n.reader_chunk))
      ++ n.aggregator.current_chunk ∷ []

  -- Consider a run of a new sending program in which the TUN reader and the timeout checker start
  -- only while neither has a chunk in its hands, and each chunk that the chunk sender takes goes
  -- out, in datagrams of at most 65507 bytes. If these datagrams arrive in this order at a program
  -- whose channel to the TUN writer is empty and whose receivers have no chunk in their hands, and
  -- each is written before the next arrives, then that program does not panic, and what it writes
  -- to its TUN device are the packets that the sender read from its own, in order and once each, up
  -- to those in the chunks that still wait there.
  pub tunnel_delivers :
      (config : Config F64) (is_upload : Bool) (peer : Peer) (now : ℕ) (es : List Event)
      (n : Node F64) (far : Node F64) (xs : List Arrival)
      → run fl j (new_node fl config is_upload peer now) es ≡ some n
      → is_orderly_run fl j (new_node fl config is_upload peer now) es ≡ true
      → All (λ (t : ℕ × List ℕ). IsDatagram t.1) n.transmitted
      → far.from_links ≡ []
      → ((i : ℕ) → far.held i ≡ none)
      → map (λ (x : Arrival). x.datagram) xs ≡ map (λ (t : ℕ × List ℕ). t.1) n.transmitted
      → (m : Node F64) × (sent : List (List ℕ)) × (rest : List (List ℕ)) × (run fl j far
            (arrivals xs)
          ≡ some m)
        × (m.written ≡ far.written ++ sent)
        × (deliver (waiting n) ≡ some rest)
        × (tun_packets fl es ≡ sent ++ rest)
  unfolding new_node
  tunnel_delivers config is_upload peer now es n far xs e g fits empty free same =
      let start = new_node fl config is_upload peer now in
      let (rs, packets, moves) = run-Moves fl j start n es e g (inl refl) in
      let (chunks, a) = Ops.run fl (Ops.new config.chunk_aggregator num_links now) rs in
      let all : deliver (pipeline n ++ n.aggregator.current_chunk ∷ []) ≡ some (tun_packets fl es) =
        rw (moves.chunks, moves.aggregator, ← packets)
          (aggregator_delivers fl config.chunk_aggregator num_links now rs
            (rw packets (tun_packets-IsShort fl es))) in
      let numbers : All HasNumber (pipeline n) = rw moves.chunks (
        ids-HasNumber 0 chunks (omega arith)
          (aggregator_ids fl config.chunk_aggregator num_links now rs)) in
      let (sent, s) = deliver_total n.taken in
      let (rest, r) = deliver_total (waiting n) in
      let whole : tun_packets fl es ≡ sent ++ rest = some_injective (
        sym all
        ∙ ap deliver (
            append_assoc n.taken
              (n.to_links ++ (checker_list n.checker_chunk ++ reader_list n.reader_chunk))
              (n.aggregator.current_chunk ∷ []))
        ∙ deliver-append n.taken (waiting n) sent rest s r) in
      let (m, done, wrote) =
        arrivals_written fl j far xs n.transmitted n.taken sent empty free same (moves.carries tt)
          fits
          (All-append_left HasNumber n.taken
            (n.to_links ++ (checker_list n.checker_chunk ++ reader_list n.reader_chunk)) numbers)
          s in
      (m, sent, rest, done, wrote, r, whole)
