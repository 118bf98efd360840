-- ===== src/Scheduler/Select/Cycle.antt =====
-- Sums over a round of positions, wherever the round starts.
use native.Mathlib.Nat.{mod-eq_of_lt, add_comm}
use chainlightning.Base.{ℕ, zero, suc, ◌+◌, ◌%◌, ◌≤◌, ◌<◌, ◌≡◌, refl, ap, ◌∙◌, arith}

-- f (start) + … + f (start + n - 1).
unfoldable pub sum_range : (ℕ → ℕ) → ℕ → ℕ → ℕ
sum_range f start zero = 0
sum_range f start (suc n) = f start + sum_range f (start + 1) n

sum_range_one : (f : ℕ → ℕ) (start : ℕ) → sum_range f start 1 ≡ f start
unfolding sum_range
sum_range_one f start = omega arith

-- The range split behind its first `m` positions.
pub sum_range-add :
    (f : ℕ → ℕ) (start m n : ℕ)
    → sum_range f start (m + n) ≡ sum_range f start m + sum_range f (start + m) n
unfolding sum_range
sum_range-add f start zero n =
    let e : zero + n ≡ n = omega arith in
    let d : start + 0 ≡ start = omega arith in rw (e, d) (omega arith)
sum_range-add f start (suc m) n =
    let e : suc m + n ≡ suc (m + n) = omega arith in
    let d : start + suc m ≡ start + 1 + m = omega arith in
    rw (e, d) (omega (arith, sum_range-add f (start + 1) m n))

-- Only the values in the range count.
pub sum_range_congr :
    (f g : ℕ → ℕ) (start n : ℕ)
    → ((p : ℕ) → start ≤ p → p < start + n → f p ≡ g p)
    → sum_range f start n ≡ sum_range g start n
unfolding sum_range
sum_range_congr f g start zero h = refl
sum_range_congr f g start (suc n) h = omega (
  arith,
  h start (omega arith) (omega arith),
  sum_range_congr f g (start + 1) n (λ p lo hi. h p (omega arith) (omega arith)),
)

-- A function with period `w` has the same sum over `w` positions one further.
sum_range_shift :
    (g : ℕ → ℕ) (w start : ℕ)
    → g (start + w) ≡ g start
    → sum_range g (start + 1) w ≡ sum_range g start w
sum_range_shift g w start period =
    let front : sum_range g start (1 + w) ≡ sum_range g start 1 + sum_range g (start + 1) w =
      sum_range-add g start 1 w in
    let back : sum_range g start (w + 1) ≡ sum_range g start w + sum_range g (start + w) 1 =
      sum_range-add g start w 1 in
    let same : sum_range g start (1 + w) ≡ sum_range g start (w + 1) =
      ap (sum_range g start) (add_comm 1 w) in
    omega (arith, front, back, same, sum_range_one g start, sum_range_one g (start + w))

-- A whole round modulo `w` sums to the same from any start.
pub sum_range_cycle :
    (f : ℕ → ℕ) (w start : ℕ) → 0 < w → sum_range (λ p. f (p % w)) start w ≡ sum_range f 0 w
sum_range_cycle f w zero h =
    sum_range_congr (λ p. f (p % w)) f 0 w (λ p lo hi. ap f (mod-eq_of_lt (omega arith)))
sum_range_cycle f w (suc start) h =
    let e : suc start ≡ start + 1 = omega arith in
    let period : (start + w) % w ≡ start % w = grind arith in
    rw e (sum_range_shift (λ p. f (p % w)) w start (ap f period) ∙ sum_range_cycle f w start h)
