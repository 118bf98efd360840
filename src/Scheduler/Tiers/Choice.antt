-- ===== src/Scheduler/Tiers/Choice.antt =====
-- Which group of links `schedule_tiered_fill` uses: the links of one type, in the order of their
-- priorities, and the type by the load.
use Prim.Native.String.{String}
use text.Mathlib.Text.{◌==◌}
use chainlightning.Base.{
  ℕ, ◌+◌, ◌%◌, ◌^◌, ◌≤◌, ◌<◌, ◌≡◌, refl, ap, sym, ◌∙◌, subst, inl, inr, List, [], ◌∷◌, Bool, true,
  false, ◌&&◌, if◌then◌else◌, arith, Bool-cases, ltb, leb, leb→le, length, All,
}
use chainlightning.Floats.{Floats}
use chainlightning.Scheduler.State.{LinkState, LinkScheduler, LinkTierConfig}
use chainlightning.Scheduler.Tiers.{
  insert_tier, sort_tiers, capacity, tiers_of, load_at, total_capacity, total_load, is_nonempty,
  group_in_use, schedule_group, schedule_tiered_fill,
}
use chainlightning.Scheduler.Tiers.Share.{capacity_sum, Owns, schedule_group-Owns}

module _ {F : Type 0} where
  -- Any measure of tiers, added up.
  abbrev pub sum_of : (LinkTierConfig F → ℕ) → List (LinkTierConfig F) → ℕ
  sum_of f [] = 0
  sum_of f (t ∷ ts) = f t + sum_of f ts

  -- The same over the tiers of a type, of links that exist.
  abbrev pub sum_of_type :
      (LinkTierConfig F → ℕ) → (link_type : String) (n : ℕ) → List (LinkTierConfig F) → ℕ
  sum_of_type f link_type n [] = 0
  sum_of_type f link_type n (t ∷ ts) =
      (if t.link_type == link_type && ltb t.link_id n then f t else 0)
      + sum_of_type f link_type n ts

  abbrev pub InOrder : List (LinkTierConfig F) → Type 0
  InOrder [] = Unit
  InOrder (t ∷ ts) = All (λ (u : LinkTierConfig F). t.priority ≤ u.priority) ts × InOrder ts

  sum_of_type-insert_tier :
      (f : LinkTierConfig F → ℕ) (link_type : String) (n : ℕ) (t : LinkTierConfig F)
      (us : List (LinkTierConfig F))
      → sum_of_type f link_type n (insert_tier t us) ≡ sum_of_type f link_type n (t ∷ us)
  unfolding insert_tier
  sum_of_type-insert_tier f link_type n t [] = refl
  sum_of_type-insert_tier f link_type n t (u ∷ us) = elim (Bool-cases (leb t.priority u.priority)) [
    | inl e ↦ rw e refl
    | inr e ↦ rw e (omega (arith, sum_of_type-insert_tier f link_type n t us))
  ]

  sum_of_type-sort_tiers :
      (f : LinkTierConfig F → ℕ) (link_type : String) (n : ℕ) (ts : List (LinkTierConfig F))
      → sum_of_type f link_type n (sort_tiers ts) ≡ sum_of_type f link_type n ts
  unfolding sort_tiers
  sum_of_type-sort_tiers f link_type n [] = refl
  sum_of_type-sort_tiers f link_type n (t ∷ ts) = omega (
    arith,
    sum_of_type-insert_tier f link_type n t (sort_tiers ts),
    sum_of_type-sort_tiers f link_type n ts,
  )

  sum_of-tiers_of :
      (f : LinkTierConfig F → ℕ) (link_type : String) (n : ℕ) (ts : List (LinkTierConfig F))
      → sum_of f (tiers_of link_type n ts) ≡ sum_of_type f link_type n ts
  unfolding tiers_of
  sum_of-tiers_of f link_type n [] = refl
  sum_of-tiers_of f link_type n (t ∷ ts) =
      elim (Bool-cases (t.link_type == link_type && ltb t.link_id n)) [
        | inl e ↦ rw e (omega (arith, sum_of-tiers_of f link_type n ts))
        | inr e ↦ rw e (omega (arith, sum_of-tiers_of f link_type n ts))
      ]

  -- The tiers of a type, sorted, are those of the configuration.
  sum_of-group :
      (f : LinkTierConfig F → ℕ) (link_type : String) (n : ℕ) (ts : List (LinkTierConfig F))
      → sum_of f (tiers_of link_type n (sort_tiers ts)) ≡ sum_of_type f link_type n ts
  sum_of-group f link_type n ts =
      sum_of-tiers_of f link_type n (sort_tiers ts) ∙ sum_of_type-sort_tiers f link_type n ts

  abbrev IsFrom : ℕ → List (LinkTierConfig F) → Type 0
  IsFrom p ts = All (λ (u : LinkTierConfig F). p ≤ u.priority) ts

  IsFrom-trans : (p q : ℕ) (ts : List (LinkTierConfig F)) → p ≤ q → IsFrom q ts → IsFrom p ts
  IsFrom-trans p q [] h k = tt
  IsFrom-trans p q (t ∷ ts) h k = (omega (arith, k.0), IsFrom-trans p q ts h k.1)

  IsFrom-insert_tier :
      (p : ℕ) (t : LinkTierConfig F) (us : List (LinkTierConfig F))
      → p ≤ t.priority
      → IsFrom p us
      → IsFrom p (insert_tier t us)
  unfolding insert_tier
  IsFrom-insert_tier p t [] h k = (h, tt)
  IsFrom-insert_tier p t (u ∷ us) h k = elim (Bool-cases (leb t.priority u.priority)) [
    | inl e ↦ rw e (h, k)
    | inr e ↦ rw e (k.0, IsFrom-insert_tier p t us h k.1)
  ]

  insert_tier-InOrder :
      (t : LinkTierConfig F) (us : List (LinkTierConfig F))
      → InOrder us
      → InOrder (insert_tier t us)
  unfolding insert_tier
  insert_tier-InOrder t [] h = (tt, tt)
  insert_tier-InOrder t (u ∷ us) h = elim (Bool-cases (leb t.priority u.priority)) [
    | inl e ↦
        let below : t.priority ≤ u.priority = leb→le _ _ e in
        rw e ((below, IsFrom-trans t.priority u.priority us below h.0), h)
    | inr e ↦
        rw e
          (IsFrom-insert_tier u.priority t us (ground (arith, e)) h.0, insert_tier-InOrder t us h.1)
  ]

  sort_tiers-InOrder : (ts : List (LinkTierConfig F)) → InOrder (sort_tiers ts)
  unfolding sort_tiers
  sort_tiers-InOrder [] = tt
  sort_tiers-InOrder (t ∷ ts) = insert_tier-InOrder t (sort_tiers ts) (sort_tiers-InOrder ts)

  IsFrom-tiers_of :
      (p : ℕ) (link_type : String) (n : ℕ) (ts : List (LinkTierConfig F))
      → IsFrom p ts
      → IsFrom p (tiers_of link_type n ts)
  unfolding tiers_of
  IsFrom-tiers_of p link_type n [] h = tt
  IsFrom-tiers_of p link_type n (t ∷ ts) h =
      elim (Bool-cases (t.link_type == link_type && ltb t.link_id n)) [
        | inl e ↦ rw e (h.0, IsFrom-tiers_of p link_type n ts h.1)
        | inr e ↦ rw e (IsFrom-tiers_of p link_type n ts h.1)
      ]

  tiers_of-InOrder :
      (link_type : String) (n : ℕ) (ts : List (LinkTierConfig F))
      → InOrder ts
      → InOrder (tiers_of link_type n ts)
  unfolding tiers_of
  tiers_of-InOrder link_type n [] h = tt
  tiers_of-InOrder link_type n (t ∷ ts) h =
      elim (Bool-cases (t.link_type == link_type && ltb t.link_id n)) [
        | inl e ↦
            rw e
              (IsFrom-tiers_of t.priority link_type n ts h.0, tiers_of-InOrder link_type n ts h.1)
        | inr e ↦ rw e (tiers_of-InOrder link_type n ts h.1)
      ]

  capacity_sum-sum_of :
      (is_upload : Bool) (ts : List (LinkTierConfig F))
      → capacity_sum is_upload ts ≡ sum_of (capacity is_upload) ts
  capacity_sum-sum_of is_upload [] = refl
  capacity_sum-sum_of is_upload (t ∷ ts) = omega (arith, capacity_sum-sum_of is_upload ts)

  total_capacity-sum_of :
      (is_upload : Bool) (ts : List (LinkTierConfig F))
      → total_capacity is_upload ts ≡ sum_of (capacity is_upload) ts % 2 ^ 64
  unfolding total_capacity
  total_capacity-sum_of is_upload [] = refl
  total_capacity-sum_of is_upload (t ∷ ts) = omega (arith, total_capacity-sum_of is_upload ts)

  total_load-sum :
      (links : List LinkState) (ts : List (LinkTierConfig F))
      → total_load links ts ≡ sum_of (λ t. load_at links t.link_id) ts % 2 ^ 64
  unfolding total_load
  total_load-sum links [] = refl
  total_load-sum links (t ∷ ts) = omega (arith, total_load-sum links ts)

  is_nonempty-sum : (ts : List (LinkTierConfig F)) → is_nonempty ts ≡ ltb 0 (sum_of (λ t. 1) ts)
  is_nonempty-sum [] = refl
  is_nonempty-sum (t ∷ ts) = ground arith

  of_either :
      (b : Bool) (n : ℕ) (ts : List (LinkTierConfig F))
      → (if b then tiers_of "adsl" n ts else tiers_of "starlink" n ts)
        ≡ tiers_of (if b then "adsl" else "starlink") n ts
  of_either true n ts = refl
  of_either false n ts = refl

module _ (fl : Floats) (s : LinkScheduler fl.F64) where
  open fl use {F64, lit, of_u64, to_u64, mul}

  -- A measure of the configured tiers of a type, added up.
  abbrev pub sum_in_type : (LinkTierConfig F64 → ℕ) → (link_type : String) → ℕ
  sum_in_type f link_type = sum_of_type f link_type (length s.links) s.config.link_tiers

  -- Whether there are ADSL links and they carry less than 90 % of their capacity.
  abbrev pub adsl_has_room : Bool
  adsl_has_room =
      ltb (sum_in_type (λ t. load_at s.links t.link_id) "adsl" % 2 ^ 64)
        (to_u64 (mul (of_u64 (sum_in_type (capacity s.is_upload) "adsl" % 2 ^ 64)) (lit 90 100)))
      && ltb 0 (sum_in_type (λ t. 1) "adsl")

  abbrev pub type_in_use : String
  type_in_use = if adsl_has_room then "adsl" else "starlink"

  group_in_use-type :
      group_in_use fl s ≡ tiers_of type_in_use (length s.links) (sort_tiers s.config.link_tiers)
  unfolding group_in_use
  group_in_use-type =
      let n = length s.links in
      let tiers = s.config.link_tiers in
      let adsl = tiers_of "adsl" n (sort_tiers tiers) in
      let load : total_load s.links adsl
          ≡ sum_in_type (λ t. load_at s.links t.link_id) "adsl" % 2 ^ 64 =
        total_load-sum s.links adsl
        ∙ ap (λ m. m % 2 ^ 64) (sum_of-group (λ t. load_at s.links t.link_id) "adsl" n tiers) in
      let room : total_capacity s.is_upload adsl
          ≡ sum_in_type (capacity s.is_upload) "adsl" % 2 ^ 64 =
        total_capacity-sum_of s.is_upload adsl
        ∙ ap (λ m. m % 2 ^ 64) (sum_of-group (capacity s.is_upload) "adsl" n tiers) in
      let some_links : is_nonempty adsl ≡ ltb 0 (sum_in_type (λ t. 1) "adsl") =
        is_nonempty-sum adsl ∙ ap (λ m. ltb 0 m) (sum_of-group (λ t. 1) "adsl" n tiers) in
      rw (load, room, some_links) (of_either adsl_has_room n (sort_tiers tiers))

-- The type in use is "adsl" if there are ADSL links and they carry less than 90 % of their capacity,
-- else "starlink". Where the configured links of that type have a capacity, which fits 64 bits
-- together, the chunk goes to the link in whose share of it the cursor lies, modulo that capacity: the
-- shares are those of exactly these links, as often as each is configured, by rising priority number.
pub tiered_fill_share :
    (fl : Floats) (s : LinkScheduler fl.F64) (chunk_size : ℕ)
    → let total = sum_in_type fl s (capacity s.is_upload) (type_in_use fl s) in
      0 < total
      → total < 2 ^ 64
      → (group : List (LinkTierConfig fl.F64)) × InOrder group
        × ((f : LinkTierConfig fl.F64 → ℕ) → sum_of f group ≡ sum_in_type fl s f (type_in_use fl s))
        × Owns s.is_upload group (s.cursor % total) (schedule_tiered_fill fl s chunk_size).0.link_id
unfolding schedule_tiered_fill
tiered_fill_share fl s chunk_size some_capacity small =
    let n = length s.links in
    let sorted = sort_tiers s.config.link_tiers in
    let group = tiers_of (type_in_use fl s) n sorted in
    let same : capacity_sum s.is_upload group
        ≡ sum_in_type fl s (capacity s.is_upload) (type_in_use fl s) =
      capacity_sum-sum_of s.is_upload group
      ∙ sum_of-group (capacity s.is_upload) (type_in_use fl s) n s.config.link_tiers in
    let owned =
      schedule_group-Owns s chunk_size sorted group (omega (arith, same, some_capacity))
        (omega (arith, same, small)) in
    (
      group,
      tiers_of-InOrder (type_in_use fl s) n sorted (sort_tiers-InOrder s.config.link_tiers),
      λ f. sum_of-group f (type_in_use fl s) n s.config.link_tiers,
      subst
          (λ g.
            Owns s.is_upload group
              (s.cursor % sum_in_type fl s (capacity s.is_upload) (type_in_use fl s))
              (schedule_group s chunk_size sorted g).0.link_id)
          (sym (group_in_use-type fl s))
          (subst
            (λ m.
              Owns s.is_upload group (s.cursor % m)
                (schedule_group s chunk_size sorted group).0.link_id)
            same owned),
    )
