-- ===== src/Metrics/Snapshot/Order.antt =====
-- The percentiles stand at their ranks in the order of the samples.
use chainlightning.Base.{
  ℕ, zero, suc, ◌+◌, ◌-◌, ◌≤◌, ◌<◌, ◌≡◌, refl, ap, sym, ◌∙◌, subst, inl, inr, List, [], ◌∷◌, some,
  Bool, true, false, if◌then◌else◌, ◌==◌, Bool-cases, arith, length, get_elem?, All, length-map,
}
use chainlightning.Floats.{Floats}
use chainlightning.Metrics.Snapshot.{
  Percentiles, insert_sorted, sort_floats, in_ms, calculate_percentiles,
}
use chainlightning.Metrics.Snapshot.Ranks.{Scales, length-sorted, calculate_percentiles-Reads}

abbrev pub ms : (fl : Floats) → ℕ → fl.F64
ms fl s = fl.div (fl.of_u64 s) (fl.lit 1000 1)

-- Samples in milliseconds are ordered by `<=`.
pub record Orders (fl : Floats) : Type 0 where
  pub total : (a b : ℕ) → fl.le (ms fl a) (ms fl b) ≡ false → fl.le (ms fl b) (ms fl a) ≡ true
  pub transitive :
      (a b c : ℕ)
      → fl.le (ms fl a) (ms fl b) ≡ true
      → fl.le (ms fl b) (ms fl c) ≡ true
      → fl.le (ms fl a) (ms fl c) ≡ true

abbrev pub count_if : (ℕ → Bool) → List ℕ → ℕ
count_if p [] = 0
count_if p (x ∷ xs) = (if p x then 1 else 0) + count_if p xs

-- The value is a sample in milliseconds; more than `i` samples are at most it, and all but `i` at
-- least it.
abbrev pub HasRank : (fl : Floats) → fl.F64 → ℕ → List ℕ → Type 0
HasRank fl x i samples =
    (s : ℕ) × (x ≡ ms fl s)
    × (0 < count_if (λ a. a == s) samples)
    × (i < count_if (λ a. fl.le (ms fl a) (ms fl s)) samples)
    × (length samples ≤ i + count_if (λ a. fl.le (ms fl s) (ms fl a)) samples)

All-get_elem? : (P : ℕ → Type 0) (xs : List ℕ) (i s : ℕ) → All P xs → get_elem? xs i ≡ some s → P s
All-get_elem? P [] i s h e = absurd (cc)
All-get_elem? P (x ∷ xs) zero s h e = subst P (cc) h.0
All-get_elem? P (x ∷ xs) (suc i) s h e = All-get_elem? P xs i s h.1 e

count_if-All : (p : ℕ → Bool) (xs : List ℕ) → All (λ a. p a ≡ true) xs → count_if p xs ≡ length xs
count_if-All p [] h = refl
count_if-All p (x ∷ xs) h = rw h.0 (omega (arith, count_if-All p xs h.1))

count_if-get_elem? :
    (p : ℕ → Bool) (xs : List ℕ) (i s : ℕ)
    → get_elem? xs i ≡ some s
    → p s ≡ true
    → 0 < count_if p xs
count_if-get_elem? p [] i s e h = absurd (cc)
count_if-get_elem? p (x ∷ xs) zero s e h =
    let same : p x ≡ true = ap p (cc) ∙ h in rw same (omega arith)
count_if-get_elem? p (x ∷ xs) (suc i) s e h = omega (arith, count_if-get_elem? p xs i s e h)

module _ (fl : Floats) where
  open fl use {F64, le, lit, of_u64, to_u64, mul}

  -- The sort, on the samples themselves.
  abbrev insert_ms : ℕ → List ℕ → List ℕ
  insert_ms x [] = x ∷ []
  insert_ms x (y ∷ ys) = if le (ms fl x) (ms fl y) then x ∷ y ∷ ys else y ∷ insert_ms x ys

  abbrev sort_ms : List ℕ → List ℕ
  sort_ms [] = []
  sort_ms (x ∷ xs) = insert_ms x (sort_ms xs)

  insert_sorted-ms :
      (x : ℕ) (ys : List ℕ) → insert_sorted fl (ms fl x) (in_ms fl ys) ≡ in_ms fl (insert_ms x ys)
  unfolding insert_sorted
  insert_sorted-ms x [] = refl
  insert_sorted-ms x (y ∷ ys) = elim (Bool-cases (le (ms fl x) (ms fl y))) [
    | inl e ↦ rw e refl
    | inr e ↦ rw e (ap (λ zs. ms fl y ∷ zs) (insert_sorted-ms x ys))
  ]

  sort_floats-ms : (xs : List ℕ) → sort_floats fl (in_ms fl xs) ≡ in_ms fl (sort_ms xs)
  unfolding sort_floats
  sort_floats-ms [] = refl
  sort_floats-ms (x ∷ xs) =
      ap (λ ys. insert_sorted fl (ms fl x) ys) (sort_floats-ms xs) ∙ insert_sorted-ms x (sort_ms xs)

  length-sort_ms : (xs : List ℕ) → length (sort_ms xs) ≡ length xs
  length-sort_ms xs =
      sym (length-map (ms fl) (sort_ms xs))
      ∙ ap length (sym (sort_floats-ms xs))
      ∙ length-sorted fl xs

  get_elem?-in_ms :
      (xs : List ℕ) (i : ℕ) (x : F64)
      → get_elem? (in_ms fl xs) i ≡ some x
      → (s : ℕ) × (get_elem? xs i ≡ some s) × (x ≡ ms fl s)
  get_elem?-in_ms [] i x e = absurd (cc)
  get_elem?-in_ms (y ∷ ys) zero x e = (y, refl, cc)
  get_elem?-in_ms (y ∷ ys) (suc i) x e = get_elem?-in_ms ys i x e

  count_if-insert_ms :
      (p : ℕ → Bool) (x : ℕ) (ys : List ℕ) → count_if p (insert_ms x ys) ≡ count_if p (x ∷ ys)
  count_if-insert_ms p x [] = refl
  count_if-insert_ms p x (y ∷ ys) = elim (Bool-cases (le (ms fl x) (ms fl y))) [
    | inl e ↦ rw e refl
    | inr e ↦ rw e (omega (arith, count_if-insert_ms p x ys))
  ]

  count_if-sort_ms : (p : ℕ → Bool) (xs : List ℕ) → count_if p (sort_ms xs) ≡ count_if p xs
  count_if-sort_ms p [] = refl
  count_if-sort_ms p (x ∷ xs) =
      omega (arith, count_if-insert_ms p x (sort_ms xs), count_if-sort_ms p xs)

  abbrev IsAtMost : ℕ → ℕ → Type 0
  IsAtMost a b = le (ms fl a) (ms fl b) ≡ true

  abbrev IsSorted : List ℕ → Type 0
  IsSorted [] = Unit
  IsSorted (x ∷ xs) = All (IsAtMost x) xs × IsSorted xs

  All-insert_ms : (P : ℕ → Type 0) (x : ℕ) (ys : List ℕ) → P x → All P ys → All P (insert_ms x ys)
  All-insert_ms P x [] p h = (p, tt)
  All-insert_ms P x (y ∷ ys) p h = elim (Bool-cases (le (ms fl x) (ms fl y))) [
    | inl e ↦ rw e (p, h)
    | inr e ↦ rw e (h.0, All-insert_ms P x ys p h.1)
  ]

  module _ (o : Orders fl) where
    IsAtMost-refl : (a : ℕ) → IsAtMost a a
    IsAtMost-refl a = elim (Bool-cases (le (ms fl a) (ms fl a))) [
      | inl e ↦ e
      | inr e ↦ o.total a a e
    ]

    All-below : (x y : ℕ) (zs : List ℕ) → IsAtMost x y → All (IsAtMost y) zs → All (IsAtMost x) zs
    All-below x y [] h a = tt
    All-below x y (z ∷ zs) h a = (o.transitive x y z h a.0, All-below x y zs h a.1)

    insert_ms-IsSorted : (x : ℕ) (ys : List ℕ) → IsSorted ys → IsSorted (insert_ms x ys)
    insert_ms-IsSorted x [] h = (tt, tt)
    insert_ms-IsSorted x (y ∷ ys) h = elim (Bool-cases (le (ms fl x) (ms fl y))) [
      | inl e ↦ rw e ((e, All-below x y ys e h.0), h)
      | inr e ↦
          rw e (All-insert_ms (IsAtMost y) x ys (o.total x y e) h.0, insert_ms-IsSorted x ys h.1)
    ]

    sort_ms-IsSorted : (xs : List ℕ) → IsSorted (sort_ms xs)
    sort_ms-IsSorted [] = tt
    sort_ms-IsSorted (x ∷ xs) = insert_ms-IsSorted x (sort_ms xs) (sort_ms-IsSorted xs)

    IsSorted-rank :
        (xs : List ℕ) (i s : ℕ)
        → IsSorted xs
        → get_elem? xs i ≡ some s
        → (i < count_if (λ a. le (ms fl a) (ms fl s)) xs)
          × (length xs ≤ i + count_if (λ a. le (ms fl s) (ms fl a)) xs)
    IsSorted-rank [] i s h e = absurd (cc)
    IsSorted-rank (x ∷ xs) zero s h e =
        let first : x ≡ s = cc in
        subst
          (λ t.
            (0 < count_if (λ a. le (ms fl a) (ms fl t)) (x ∷ xs))
            × (length (x ∷ xs) ≤ 0 + count_if (λ a. le (ms fl t) (ms fl a)) (x ∷ xs)))
          first
          (rw (IsAtMost-refl x)
            (omega arith, omega (arith, count_if-All (λ a. le (ms fl x) (ms fl a)) xs h.0)))
    IsSorted-rank (x ∷ xs) (suc i) s h e =
        let (below, above) = IsSorted-rank xs i s h.1 e in
        let first : IsAtMost x s = All-get_elem? (IsAtMost x) xs i s h.0 e in
        (rw first (omega (arith, below)), omega (arith, above))

    read-HasRank :
        (samples : List ℕ) (i : ℕ) (x : F64)
        → get_elem? (sort_floats fl (in_ms fl samples)) i ≡ some x
        → HasRank fl x i samples
    read-HasRank samples i x e =
        let sorted = sort_ms samples in
        let (s, at, same) = get_elem?-in_ms sorted i x (rw (sort_floats-ms samples) at e) in
        let (below, above) = IsSorted-rank sorted i s (sort_ms-IsSorted samples) at in
        (
          s,
          same,
          omega (
            arith,
            count_if-get_elem? (λ a. a == s) sorted i s at (ground arith),
            count_if-sort_ms (λ a. a == s) samples,
          ),
          omega (arith, below, count_if-sort_ms (λ a. le (ms fl a) (ms fl s)) samples),
          omega (
            arith,
            above,
            count_if-sort_ms (λ a. le (ms fl s) (ms fl a)) samples,
            length-sort_ms samples,
          ),
        )

-- If scaling by the fractions 0.50, 0.95 and 0.99 does not exceed the count, and `<=` orders the
-- samples in milliseconds: of at least one sample, `calculate_percentiles` returns the least and the
-- greatest, and as percentiles the samples that stand in their order at 0.50, 0.95 and 0.99 of the
-- last position, rounded as the code does.
pub calculate_percentiles-HasRank :
    (fl : Floats) (s : ℕ) (samples : List ℕ)
    → Scales fl
    → Orders fl
    → let all = s ∷ samples in
      let at =
        λ (percent : ℕ). fl.to_u64 (fl.mul (fl.of_u64 (length all - 1)) (fl.lit percent 100)) in
      (p : Percentiles fl.F64) × (calculate_percentiles fl all ≡ some p)
      × HasRank fl p.low 0 all
      × HasRank fl p.high (length all - 1) all
      × HasRank fl p.p50 (at 50) all
      × HasRank fl p.p95 (at 95) all
      × HasRank fl p.p99 (at 99) all
calculate_percentiles-HasRank fl s samples sc o =
    let all = s ∷ samples in
    let (p, e, r) = calculate_percentiles-Reads fl s samples sc in
    (
      p,
      e,
      read-HasRank fl o all _ p.low r.low,
      read-HasRank fl o all _ p.high r.high,
      read-HasRank fl o all _ p.p50 r.p50,
      read-HasRank fl o all _ p.p95 r.p95,
      read-HasRank fl o all _ p.p99 r.p99,
    )
