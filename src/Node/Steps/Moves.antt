-- ===== src/Node/Steps/Moves.antt =====
-- With one chunk in the tasks' hands at a time, each step of the sending tasks keeps the chunks in order.
use mathlib.Core.List.{append_assoc}
use chainlightning.Base.{
  ℕ, ◌≡◌, refl, ap, sym, ◌∙◌, inl, inr, ◌⊎◌, List, [], ◌∷◌, ◌++◌, Option, none, some, Bool-cases,
  take, append-nil, ltb, length,
}
use chainlightning.Floats.{Floats}
use chainlightning.Aggregator.Chunk.{Chunk}
use chainlightning.Aggregator.Ops
use chainlightning.Aggregator.Ops.Delivery.{cons_some-append}
use chainlightning.Classifier.{classify}
use chainlightning.Wire.Flow.{from_packet}
use chainlightning.Aggregator.Ops.{
  ChunkAggregator, adds, polls, updates, add_packet, check_timeout, update_link_stats, cons_some,
}
use chainlightning.Node.State.{Node}
use chainlightning.Node.Steps.{step_read, step_read_send, step_poll, step_poll_send}
use chainlightning.Node.Steps.Pipeline.{
  pipeline, reader_list, checker_list, read_request, poll_request,
}
use chainlightning.Node.Tasks.{channel_size, after_read, read_tun, poll_timeout, chunk_packet}
use chainlightning.Wire.Chunk as Wire

-- Each datagram is the encoding of its chunk, on some link.
abbrev pub Carries : List (ℕ × List ℕ) → List Chunk → Type 0
Carries [] [] = Unit
Carries (t ∷ ts) (c ∷ cs) =
    ((link_id : ℕ) × (t.1 ≡ Wire.encode (chunk_packet link_id c))) × Carries ts cs
Carries [] (c ∷ cs) = ⊥
Carries (t ∷ ts) [] = ⊥

pub Carries-snoc :
    (ts : List (ℕ × List ℕ)) (cs : List Chunk) (link_id : ℕ) (c : Chunk)
    → Carries ts cs
    → Carries (ts ++ (link_id, Wire.encode (chunk_packet link_id c)) ∷ []) (cs ++ c ∷ [])
Carries-snoc [] [] link_id c h = ((link_id, refl), tt)
Carries-snoc (t ∷ ts) (d ∷ cs) link_id c h = (h.0, Carries-snoc ts cs link_id c h.1)
Carries-snoc [] (d ∷ cs) link_id c h = absurd h
Carries-snoc (t ∷ ts) [] link_id c h = absurd h

-- The pipeline is as it was.
pub record Keeps {F : Type 0} (n m : Node F) : Type 0 where
  pub taken : m.taken ≡ n.taken
  pub to_links : m.to_links ≡ n.to_links
  pub checker : m.checker_chunk ≡ n.checker_chunk
  pub reader : m.reader_chunk ≡ n.reader_chunk
  pub transmitted : m.transmitted ≡ n.transmitted

pub Keeps-pipeline : {F : Type 0} {n m : Node F} → Keeps n m → pipeline m ≡ pipeline n
Keeps-pipeline k =
    λ i. k.taken i ++ (k.to_links i ++ (checker_list (k.checker i) ++ reader_list (k.reader i)))

-- One of the two tasks has nothing in its hands.
abbrev pub OnePending : {F : Type 0} → Node F → Type 0
OnePending n = (n.reader_chunk ≡ none) ⊎ (n.checker_chunk ≡ none)

pending_kept : {F : Type 0} (n m : Node F) → Keeps n m → OnePending n → OnePending m
pending_kept n m k (inl r) = inl (k.reader ∙ r)
pending_kept n m k (inr c) = inr (k.checker ∙ c)

pub kept :
    {F : Type 0} {n m : Node F}
    → m.taken ≡ n.taken
    → m.to_links ≡ n.to_links
    → m.checker_chunk ≡ n.checker_chunk
    → m.reader_chunk ≡ n.reader_chunk
    → m.transmitted ≡ n.transmitted
    → Keeps n m
kept a b c d e = record { taken = a; to_links = b; checker = c; reader = d; transmitted = e }

pub Keeps-trans : {F : Type 0} {n m k : Node F} → Keeps n m → Keeps m k → Keeps n k
Keeps-trans p q = record {
  taken = q.taken ∙ p.taken;
  to_links = q.to_links ∙ p.to_links;
  checker = q.checker ∙ p.checker;
  reader = q.reader ∙ p.reader;
  transmitted = q.transmitted ∙ p.transmitted;
}

pub unchanged : {F : Type 0} (n : Node F) → Keeps n n
unchanged n = record {
  taken = refl;
  to_links = refl;
  checker = refl;
  reader = refl;
  transmitted = refl;
}

-- The chunk of the reader goes into the channel, with nothing in the checker's hands.
read_sent :
    {F : Type 0} (n : Node F) (c : Chunk) (bytes : ℕ)
    → n.reader_chunk ≡ some (c, bytes)
    → OnePending n
    → n.taken ++ ((n.to_links ++ c ∷ []) ++ (checker_list n.checker_chunk ++ [])) ≡ pipeline n ++ []
read_sent n c bytes e (inl r) = absurd (cc)
read_sent n c bytes e (inr h) = simp (e, h, append_assoc, append-nil)

module _ (fl : Floats) where
  open fl use {F64}

  pub run-append :
      (a : ChunkAggregator F64) (xs ys : List (Ops.Event fl))
      → (Ops.run fl a (xs ++ ys)).0 ≡ (Ops.run fl a xs).0 ++ (Ops.run fl (Ops.run fl a xs).1 ys).0
  unfolding Ops.run
  run-append a [] ys = refl
  run-append a (x ∷ xs) ys =
      let b = (Ops.step fl a x).1 in
      ap (cons_some fl (Ops.step fl a x).0) (run-append b xs ys)
      ∙ sym (
          cons_some-append fl (Ops.step fl a x).0 (Ops.run fl b xs).0
            (Ops.run fl (Ops.run fl b xs).1 ys).0)

  pub run-append_last :
      (a : ChunkAggregator F64) (xs ys : List (Ops.Event fl))
      → (Ops.run fl a (xs ++ ys)).1 ≡ (Ops.run fl (Ops.run fl a xs).1 ys).1
  unfolding Ops.run
  run-append_last a [] ys = refl
  run-append_last a (x ∷ xs) ys = run-append_last (Ops.step fl a x).1 xs ys

  -- What the chunks and the aggregator become when the requests `rs` are made.
  pub record Moves (n m : Node F64) (rs : List (Ops.Event fl)) : Type 0 where
    pub aggregator : m.aggregator ≡ (Ops.run fl n.aggregator rs).1
    pub chunks : pipeline m ≡ pipeline n ++ (Ops.run fl n.aggregator rs).0
    pub pending : OnePending m
    pub carries : Carries n.transmitted n.taken → Carries m.transmitted m.taken

  pub Keeps-Moves :
      (n m : Node F64) → Keeps n m → m.aggregator ≡ n.aggregator → OnePending n → Moves n m []
  unfolding Ops.run
  Keeps-Moves n m k a h = record {
    aggregator = a;
    chunks = Keeps-pipeline k ∙ sym (append-nil (pipeline n));
    pending = pending_kept n m k h;
    carries = λ c. rw (k.transmitted, k.taken) c;
  }

  after_read-pipeline :
      (n : Node F64) (out : Option Chunk) (bytes : ℕ)
      → n.reader_chunk ≡ none
      → n.checker_chunk ≡ none
      → pipeline (after_read fl out bytes n) ≡ pipeline n ++ cons_some fl out []
  after_read-pipeline n none bytes hr hc = sym (append-nil (pipeline n))
  after_read-pipeline n (some c) bytes hr hc = simp (hr, hc, append_assoc)

  after_read-rest :
      (n : Node F64) (out : Option Chunk) (bytes : ℕ)
      → let m = after_read fl out bytes n in
        (m.aggregator ≡ n.aggregator)
        × (m.checker_chunk ≡ n.checker_chunk)
        × (m.transmitted ≡ n.transmitted)
        × (m.taken ≡ n.taken)
  after_read-rest n none bytes = (refl, refl, refl, refl)
  after_read-rest n (some c) bytes = (refl, refl, refl, refl)

  pub step_read-Moves :
      (n : Node F64) (o : Option (Chunk × ℕ)) (bytes : List ℕ) (now : ℕ)
      → n.reader_chunk ≡ o
      → n.reader_chunk ≡ none
      → n.checker_chunk ≡ none
      → Moves n (step_read fl o bytes now n) (read_request fl o bytes now)
  unfolding read_tun Ops.run Ops.step
  step_read-Moves n (some waiting) bytes now e hr hc = absurd (cc)
  step_read-Moves n none [] now e hr hc = Keeps-Moves n n (unchanged n) refl (inl hr)
  step_read-Moves n none (b ∷ bytes) now e hr hc =
      let packet = take 2000 (b ∷ bytes) in
      let (out, a) = add_packet n.aggregator packet (from_packet packet) now in
      let m : Node F64 = record n {
        classifier = (classify fl packet now n.classifier).1;
        aggregator = a;
      } in
      let (same_a, same_c, same_t, same_k) = after_read-rest m out (length packet) in
      record {
        aggregator = same_a;
        chunks = after_read-pipeline m out (length packet) hr hc;
        pending = inr (same_c ∙ hc);
        carries = λ c. rw (same_t, same_k) c;
      }

  poll-pipeline :
      (n : Node F64) (out : Option Chunk)
      → n.reader_chunk ≡ none
      → n.checker_chunk ≡ none
      → n.taken ++ (n.to_links ++ (checker_list out ++ reader_list n.reader_chunk))
        ≡ pipeline n ++ cons_some fl out []
  poll-pipeline n none hr hc = simp (hr, hc, append_assoc, append-nil)
  poll-pipeline n (some c) hr hc = simp (hr, hc, append_assoc, append-nil)

  pub step_poll-Moves :
      (n : Node F64) (o : Option Chunk) (now : ℕ)
      → n.checker_chunk ≡ o
      → n.reader_chunk ≡ none
      → n.checker_chunk ≡ none
      → Moves n (step_poll fl o now n) (poll_request fl o now)
  unfolding poll_timeout Ops.run Ops.step
  step_poll-Moves n (some waiting) now e hr hc = absurd (cc)
  step_poll-Moves n none now e hr hc = record {
    aggregator = refl;
    chunks = poll-pipeline n (check_timeout n.aggregator now).0 hr hc;
    pending = inl hr;
    carries = λ c. c;
  }

  pub step_read_send-Moves :
      (n : Node F64) (o : Option (Chunk × ℕ))
      → n.reader_chunk ≡ o
      → OnePending n
      → Moves n (step_read_send fl o n) []
  unfolding Ops.run
  step_read_send-Moves n none e h = Keeps-Moves n n (unchanged n) refl h
  step_read_send-Moves n (some (c, bytes)) e h =
      elim (Bool-cases (ltb (length n.to_links) channel_size)) [
        | inl room ↦ rw room (record {
          aggregator = refl;
          chunks = read_sent n c bytes e h;
          pending = inl refl;
          carries = λ k. k;
        })
        | inr full ↦ rw full (Keeps-Moves n n (unchanged n) refl h)
      ]

  pub step_poll_send-Moves :
      (n : Node F64) (o : Option Chunk)
      → n.checker_chunk ≡ o
      → OnePending n
      → Moves n (step_poll_send fl o n) []
  unfolding Ops.run
  step_poll_send-Moves n none e h = Keeps-Moves n n (unchanged n) refl h
  step_poll_send-Moves n (some c) e h = elim (Bool-cases (ltb (length n.to_links) channel_size)) [
    | inl room ↦ rw room (record {
      aggregator = refl;
      chunks = simp (e, append_assoc, append-nil);
      pending = inr refl;
      carries = λ k. k;
    })
    | inr full ↦ rw full (Keeps-Moves n n (unchanged n) refl h)
  ]
