-- ===== src/Aggregator/Ops/Delivery.antt =====
-- The whole way through an aggregator: what a receiver reads from the chunks of a history.
use chainlightning.Base.{
  ℕ, ◌≡◌, refl, List, [], ◌∷◌, ◌++◌, Option, none, some, append_assoc, append-nil, All,
  All-append_left, All-append_right,
}
use chainlightning.Floats.{Floats}
use chainlightning.Aggregator.Chunk.{Chunk, extract_packets}
use chainlightning.Aggregator.Chunk.RoundTrip.{
  Holds, IsShort, new_chunk-Holds, extract_packets-Holds,
}
use chainlightning.Aggregator.Ops.{
  ChunkAggregatorConfig, ChunkAggregator, new, step, run, Event, cons_some,
}
use chainlightning.Aggregator.Ops.Conserve.{Splits, arriving, step-Splits}

-- What the TUN writer of the other side writes: the packets of each chunk, chunk by chunk.
abbrev pub then_deliver : Option (List (List ℕ)) → Option (List (List ℕ)) → Option (List (List ℕ))
then_deliver (some ps) (some qs) = some (ps ++ qs)
then_deliver _ _ = none

unfoldable pub deliver : List Chunk → Option (List (List ℕ))
deliver [] = some []
deliver (c ∷ cs) = then_deliver (extract_packets c) (deliver cs)

deliver_last :
    (c : Chunk) (ps : List (List ℕ))
    → Holds c ps
    → All IsShort (ps ++ [])
    → deliver (c ∷ []) ≡ some (ps ++ [])
unfolding deliver
deliver_last c ps h short = rw (extract_packets-Holds c ps h (rw (append-nil ps) at short))

module _ (fl : Floats) where
  open fl use {F64}

  -- The packets of a history, in the order of their arrival.
  abbrev pub packets_of : List (Event fl) → List (List ℕ)
  packets_of [] = []
  packets_of (e ∷ es) = arriving fl e ++ packets_of es

  -- One step: what it hands out comes before what the rest of the history delivers.
  step_delivers :
      (b : ChunkAggregator F64) (out : Option Chunk) (chunks : List Chunk) (ps rest : List (List ℕ))
      → Splits ps out b
      → All IsShort (ps ++ rest)
      → ((qs : List (List ℕ))
          → Holds b.current_chunk qs
          → All IsShort (qs ++ rest)
          → deliver chunks ≡ some (qs ++ rest))
      → deliver (cons_some fl out chunks) ≡ some (ps ++ rest)
  unfolding deliver
  step_delivers b none chunks ps rest h short ih = ih ps h short
  step_delivers b (some c) chunks ps rest (front, kept, e, hc, hb) short ih =
      let regrouped : ps ++ rest ≡ front ++ (kept ++ rest) = rw e (append_assoc front kept rest) in
      let short' : All IsShort (front ++ (kept ++ rest)) = rw regrouped at short in
      rw (
        extract_packets-Holds c front hc (All-append_left IsShort front (kept ++ rest) short'),
        ih kept hb (All-append_right IsShort front (kept ++ rest) short'),
        regrouped,
      )

  pub cons_some-append :
      (out : Option Chunk) (cs ds : List Chunk)
      → cons_some fl out cs ++ ds ≡ cons_some fl out (cs ++ ds)
  cons_some-append none cs ds = refl
  cons_some-append (some c) cs ds = refl

  -- From a current chunk that holds `ps` on, the chunks of a history and the chunk that is left
  -- deliver `ps` and then the packets of the history.
  run_delivers :
      (a : ChunkAggregator F64) (ps : List (List ℕ)) (es : List (Event fl))
      → Holds a.current_chunk ps
      → All IsShort (ps ++ packets_of es)
      → let (chunks, b) = run fl a es in
        deliver (chunks ++ b.current_chunk ∷ []) ≡ some (ps ++ packets_of es)
  unfolding run
  run_delivers a ps [] h short = deliver_last a.current_chunk ps h short
  run_delivers a ps (e ∷ es) h short =
      let (out, b) = step fl a e in
      let (chunks, c) = run fl b es in
      let regrouped : (ps ++ arriving fl e) ++ packets_of es ≡ ps ++ packets_of (e ∷ es) =
        append_assoc ps (arriving fl e) (packets_of es) in
      rw (cons_some-append out chunks (c.current_chunk ∷ []), ← regrouped)
        (step_delivers b out (chunks ++ c.current_chunk ∷ []) (ps ++ arriving fl e) (packets_of es)
          (step-Splits fl a ps e h) (rw (← regrouped) at short) (λ qs. run_delivers b qs es))

  -- A new aggregator delivers the packets of any history: the chunks that it handed out and the one
  -- that it still fills, read by the receiver, give back all packets in their order, none twice, if
  -- each is shorter than 64 KiB.
  pub aggregator_delivers :
      (config : ChunkAggregatorConfig F64) (num_links now : ℕ) (es : List (Event fl))
      → All IsShort (packets_of es)
      → let (chunks, b) = run fl (new config num_links now) es in
        deliver (chunks ++ b.current_chunk ∷ []) ≡ some (packets_of es)
  unfolding new
  aggregator_delivers config num_links now es short =
      run_delivers (new config num_links now) [] es (new_chunk-Holds 0 now) short
