-- ===== src/Scheduler/Select/Fairness.antt =====
-- Weighted round-robin is fair: in a round of `total_weight` chunks every link carries as many chunks
-- as its weight says.
use chainlightning.Base.{
  ℕ, zero, suc, ◌+◌, ◌*◌, ◌%◌, ◌^◌, ◌≤◌, ◌<◌, ◌≡◌, refl, ap, ◌∙◌, inl, inr, List, [], ◌∷◌, Bool,
  true, false, arith, Bool-cases, ◌==◌, if◌then◌else◌, length, modify, add64, add32, le→ltb,
}
use chainlightning.Scheduler.State.{LinkState, LinkScheduler, record_sent, sum_weights, total_of}
use chainlightning.Scheduler.Select.{
  select_loop, first_weighted, link_at, or_else, or_zero, schedule,
}
use chainlightning.Scheduler.Select.Cycle.{
  sum_range, sum_range-add, sum_range_congr, sum_range_cycle,
}

abbrev pub hit : ℕ → ℕ → ℕ
hit i j = if j == i then 1 else 0

-- The weights added up, and those of the links with the id `i`.
unfoldable pub weight_sum : List LinkState → ℕ
weight_sum [] = 0
weight_sum (l ∷ ls) = l.weight + weight_sum ls

unfoldable pub share : ℕ → List LinkState → ℕ
share i [] = 0
share i (l ∷ ls) = l.weight * hit i l.id + share i ls

-- How many of the chosen links are `i`.
unfoldable pub count : ℕ → List ℕ → ℕ
count i [] = 0
count i (j ∷ js) = hit i j + count i js

pub sum_weights-eq : (ls : List LinkState) → weight_sum ls < 2 ^ 32 → sum_weights ls ≡ weight_sum ls
unfolding sum_weights weight_sum
sum_weights-eq [] h = refl
sum_weights-eq (l ∷ ls) h = omega (arith, sum_weights-eq ls (omega arith))

sum_range_const : (k start n : ℕ) → sum_range (λ _. k) start n ≡ n * k
unfolding sum_range
sum_range_const k start zero = omega arith
sum_range_const k start (suc n) = grind (arith, sum_range_const k (start + 1) n)

-- The positions of the first link, and those behind it.
at_first :
    (l : LinkState) (ls : List LinkState) (c p d : ℕ)
    → c + l.weight < 2 ^ 32
    → c ≤ p
    → p < c + l.weight
    → or_else (select_loop p c (l ∷ ls)) d ≡ l.id
unfolding select_loop
at_first l ls c p d h lo hi = ground arith

behind_first :
    (l : LinkState) (ls : List LinkState) (c p d : ℕ)
    → c + l.weight < 2 ^ 32
    → c + l.weight ≤ p
    → or_else (select_loop p c (l ∷ ls)) d ≡ or_else (select_loop p (c + l.weight) ls) d
unfolding select_loop
behind_first l ls c p d h lo =
    let sum : add32 c l.weight ≡ c + l.weight = omega arith in
    elim (Bool-cases (l.weight == 0)) [
      | inl e ↦
          let same : c ≡ c + l.weight = ground arith in
          rw e (ap (λ (t : ℕ). or_else (select_loop p t ls) d) same)
      | inr e ↦ rw (e, sum, le→ltb p (c + l.weight) lo)
    ]

share_of_positions :
    (i d : ℕ) (ls : List LinkState) (c : ℕ)
    → c + weight_sum ls < 2 ^ 32
    → sum_range (λ p. hit i (or_else (select_loop p c ls) d)) c (weight_sum ls) ≡ share i ls
unfolding weight_sum share
share_of_positions i d [] c h = unfold sum_range in refl
share_of_positions i d (l ∷ ls) c h =
    let f : ℕ → ℕ = λ p. hit i (or_else (select_loop p c (l ∷ ls)) d) in
    let g : ℕ → ℕ = λ p. hit i (or_else (select_loop p (c + l.weight) ls) d) in
    let here : sum_range f c l.weight ≡ l.weight * hit i l.id =
      sum_range_congr f (λ _. hit i l.id) c l.weight
        (λ p lo hi. ap (hit i) (at_first l ls c p d (omega arith) lo hi))
      ∙ sum_range_const (hit i l.id) c l.weight in
    let there : sum_range f (c + l.weight) (weight_sum ls)
        ≡ sum_range g (c + l.weight) (weight_sum ls) =
      sum_range_congr f g (c + l.weight) (weight_sum ls)
        (λ p lo hi. ap (hit i) (behind_first l ls c p d (omega arith) lo)) in
    omega (
      arith,
      sum_range-add f c l.weight (weight_sum ls),
      here,
      there,
      share_of_positions i d ls (c + l.weight) (omega arith),
    )

-- Recording sent bytes changes no choice.
select_loop-modify :
    (b p c k : ℕ) (ls : List LinkState)
    → select_loop p c (modify (record_sent b) ls k) ≡ select_loop p c ls
unfolding select_loop record_sent
select_loop-modify b p c k [] = refl
select_loop-modify b p c zero (l ∷ ls) = refl
select_loop-modify b p c (suc k) (l ∷ ls) =
    rw (select_loop-modify b p c k ls, select_loop-modify b p (add32 c l.weight) k ls)

first_weighted-modify :
    (b k : ℕ) (ls : List LinkState)
    → first_weighted (modify (record_sent b) ls k) ≡ first_weighted ls
unfolding first_weighted record_sent
first_weighted-modify b k [] = refl
first_weighted-modify b zero (l ∷ ls) = refl
first_weighted-modify b (suc k) (l ∷ ls) = rw (first_weighted-modify b k ls)

link_at-modify :
    (b p k : ℕ) (ls : List LinkState) → link_at (modify (record_sent b) ls k) p ≡ link_at ls p
unfolding link_at
link_at-modify b p k ls = rw (select_loop-modify b p 0 k ls, first_weighted-modify b k ls)

whole_round :
    (i : ℕ) (ls : List LinkState)
    → weight_sum ls < 2 ^ 32
    → sum_range (λ p. hit i (link_at ls p)) 0 (weight_sum ls) ≡ share i ls
unfolding link_at
whole_round i ls fits = share_of_positions i (or_zero (first_weighted ls)) ls 0 (omega arith)

module _ {F : Type 0} where
  -- The links that a sequence of chunks is sent on; each chunk comes with its size and its mode.
  unfoldable pub choices : LinkScheduler F → List (ℕ × Bool) → List ℕ
  unfolding schedule
  choices s [] = []
  choices s ((chunk_size, multi_link) ∷ rest) =
      let (decision, t) = schedule s chunk_size multi_link in decision.link_id ∷ choices t rest

  -- One call: the next position of the round, with the weights as they were.
  record Stepped (s t : LinkScheduler F) (id : ℕ) : Type 0 where
    chosen : id ≡ link_at s.links (add64 s.cursor 1 % s.total_weight)
    moved : t.cursor ≡ add64 s.cursor 1
    same_total : t.total_weight ≡ s.total_weight
    same_links : (p : ℕ) → link_at t.links p ≡ link_at s.links p

  schedule-Stepped :
      (s : LinkScheduler F) (chunk_size : ℕ) (multi_link : Bool)
      → let (decision, t) = schedule s chunk_size multi_link in Stepped s t decision.link_id
  unfolding schedule
  schedule-Stepped s chunk_size true = record {
    chosen = refl;
    moved = refl;
    same_total = refl;
    same_links = λ p. link_at-modify chunk_size p _ s.links;
  }
  schedule-Stepped s chunk_size false = record {
    chosen = refl;
    moved = refl;
    same_total = refl;
    same_links = λ p. link_at-modify chunk_size p _ s.links;
  }

  count-choices :
      (i w : ℕ) (f : ℕ → ℕ) (s : LinkScheduler F) (rs : List (ℕ × Bool))
      → ((p : ℕ) → link_at s.links p ≡ f p)
      → s.total_weight ≡ w
      → s.cursor + length rs < 2 ^ 64
      → count i (choices s rs) ≡ sum_range (λ p. hit i (f (p % w))) (s.cursor + 1) (length rs)
  unfolding choices count sum_range
  count-choices i w f s [] links total h = refl
  count-choices i w f s ((chunk_size, multi_link) ∷ rs) links total h =
      let (decision, t) = schedule s chunk_size multi_link in
      let st = schedule-Stepped s chunk_size multi_link in
      let next : add64 s.cursor 1 ≡ s.cursor + 1 = omega arith in
      let here : decision.link_id ≡ f ((s.cursor + 1) % w) =
        st.chosen ∙ rw (next, total) (links _) in
      let moved : t.cursor ≡ s.cursor + 1 = st.moved ∙ next in
      let rest =
        count-choices i w f t rs (λ p. st.same_links p ∙ links p) (st.same_total ∙ total)
          (omega arith) in
      omega (
        arith,
        ap (hit i) here,
        rest,
        ap (λ (q : ℕ). sum_range (λ p. hit i (f (p % w))) (q + 1) (length rs)) moved,
      )

  -- Over any `total_weight` consecutive chunks, of any sizes and modes and from any point of the
  -- round, each link is chosen exactly as often as its weight says, as long as the total is that of
  -- the weights, the weights fit 32 bits, one is positive, and the cursor does not wrap in the
  -- meantime.
  pub schedule_fair :
      (s : LinkScheduler F) (rs : List (ℕ × Bool)) (i : ℕ)
      → s.total_weight ≡ total_of s.links
      → 0 < weight_sum s.links
      → weight_sum s.links < 2 ^ 32
      → s.cursor + s.total_weight < 2 ^ 64
      → length rs ≡ s.total_weight
      → count i (choices s rs) ≡ share i s.links
  unfolding total_of
  schedule_fair s rs i total some_weight fits room round =
      let w = weight_sum s.links in
      let e : s.total_weight ≡ w = omega (arith, sum_weights-eq s.links fits) in
      let len : length rs ≡ w = round ∙ e in
      let f : ℕ → ℕ = link_at s.links in
      count-choices i w f s rs (λ p. refl) e (omega arith)
      ∙ rw len (sum_range_cycle (λ p. hit i (f p)) w (s.cursor + 1) some_weight)
      ∙ whole_round i s.links fits
