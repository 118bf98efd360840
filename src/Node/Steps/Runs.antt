-- ===== src/Node/Steps/Runs.antt =====
-- A whole run of the sending side keeps the chunks in order.
use mathlib.Core.List.{append_assoc}
use chainlightning.Base.{
  ℕ, ◌≡◌, refl, ap, sym, ◌∙◌, inl, inr, List, [], ◌∷◌, ◌++◌, Option, none, some, Bool, true, false,
  ◌&&◌, subst, Option-cases,
}
use chainlightning.Floats.{Floats}
use chainlightning.Aggregator.Chunk.{Chunk}
use chainlightning.Aggregator.Ops
use chainlightning.Aggregator.Ops.Delivery.{packets_of}
use chainlightning.Aggregator.Ops.Conserve.{arriving}
use chainlightning.Node.State.{Node, Phase, pushing}
use chainlightning.Node.Steps
use chainlightning.Node.Steps.{Event, step, run, receives, writes}
use chainlightning.Node.Steps.Moves.{
  OnePending, run-append, run-append_last, Moves, Keeps-Moves, unchanged,
}
use chainlightning.Node.Steps.Order.{
  is_orderly, is_orderly_run, step-Moves, tun_packet, tun_packets, free,
}
use chainlightning.Node.Steps.Pipeline.{
  pipeline, requests_of, stats_request, read_request, poll_request,
}
use chainlightning.Wire.Stats.{SerdeJson}

some_eq {ℓ κ} : {A : Type ℓ} {x u : A} (P : A → Type κ) → some x ≡ some u → P x → P u
some_eq P e h = subst P (cc) h

and_true : (a b : Bool) → (a && b) ≡ true → (a ≡ true) × (b ≡ true)
and_true true b h = (refl, h)
and_true false b h = absurd (cc)

module _ (fl : Floats) (j : SerdeJson) where
  open fl use {F64}

  packets_of-append :
      (xs ys : List (Ops.Event fl))
      → packets_of fl (xs ++ ys) ≡ packets_of fl xs ++ packets_of fl ys
  packets_of-append [] ys = refl
  packets_of-append (x ∷ xs) ys =
      ap (λ ps. arriving fl x ++ ps) (packets_of-append xs ys)
      ∙ sym (append_assoc (arriving fl x) (packets_of fl xs) (packets_of fl ys))

  Moves-trans :
      (n v m : Node F64) (xs ys : List (Ops.Event fl))
      → Moves fl n v xs
      → Moves fl v m ys
      → Moves fl n m (xs ++ ys)
  Moves-trans n v m xs ys p q = record {
    aggregator =
        q.aggregator
        ∙ ap (λ a. (Ops.run fl a ys).1) p.aggregator
        ∙ sym (run-append_last fl n.aggregator xs ys);
    chunks =
        q.chunks
        ∙ ap (λ cs. cs ++ (Ops.run fl v.aggregator ys).0) p.chunks
        ∙ append_assoc (pipeline n) (Ops.run fl n.aggregator xs).0 (Ops.run fl v.aggregator ys).0
        ∙ ap (λ a. pipeline n ++ ((Ops.run fl n.aggregator xs).0 ++ (Ops.run fl a ys).0))
            p.aggregator
        ∙ ap (λ cs. pipeline n ++ cs) (sym (run-append fl n.aggregator xs ys));
    pending = q.pending;
    carries = λ c. q.carries (p.carries c);
  }

  stats-packets : (p : Phase) → packets_of fl (stats_request fl p) ≡ []
  stats-packets (pushing i [] rtts) = refl
  stats-packets (pushing i (bw ∷ bws) []) = refl
  stats-packets (pushing i (bw ∷ bws) (rtt ∷ rtts)) = refl
  stats-packets _ = refl

  read-packets :
      (o : Option (Chunk × ℕ)) (bytes : List ℕ) (now : ℕ)
      → o ≡ none
      → packets_of fl (read_request fl o bytes now) ≡ tun_packet fl (Steps.reads bytes now)
  read-packets none [] now h = refl
  read-packets none (b ∷ bytes) now h = refl
  read-packets (some waiting) bytes now h = absurd (cc)

  poll-packets : (o : Option Chunk) (now : ℕ) → packets_of fl (poll_request fl o now) ≡ []
  poll-packets none now = refl
  poll-packets (some waiting) now = refl

  requests-packets :
      (n : Node F64) (e : Event)
      → is_orderly fl n e ≡ true
      → packets_of fl (requests_of fl n e) ≡ tun_packet fl e
  requests-packets n (Steps.reads bytes now) g =
      read-packets n.reader_chunk bytes now (free fl n g).0
  requests-packets n (Steps.polls now) g = poll-packets n.checker_chunk now
  requests-packets n (Steps.updates now timestamp memory) g = stats-packets n.phase
  requests-packets n _ g = refl

  pub run-Moves :
      (n m : Node F64) (es : List Event)
      → run fl j n es ≡ some m
      → is_orderly_run fl j n es ≡ true
      → OnePending n
      → (rs : List (Ops.Event fl)) × (packets_of fl rs ≡ tun_packets fl es) × Moves fl n m rs
  unfolding run
  run-Moves n m [] e g h =
      ([], refl, some_eq (λ u. Moves fl n u []) e (Keeps-Moves fl n n (unchanged n) refl h))
  run-Moves n m (x ∷ es) e g h = elim (Option-cases (step fl j n x)) [
    | inl stuck ↦ let bad = rw stuck at e in absurd (cc)
    | inr (v, one) ↦
        let (now_orderly, rest) = and_true (is_orderly fl n x) _ g in
        let first = step-Moves fl j n v x one now_orderly h in
        let (rs, packets, later) = run-Moves v m es (rw one at e) (rw one at rest) first.pending in
        (
          requests_of fl n x ++ rs,
          packets_of-append (requests_of fl n x) rs
              ∙ ap (λ ps. ps ++ packets_of fl rs) (requests-packets n x now_orderly)
              ∙ ap (λ ps. tun_packet fl x ++ ps) packets,
          Moves-trans n v m (requests_of fl n x) rs first later,
        )
  ]
