-- ===== src/Scheduler/Tiers/Share.antt =====
-- Each link of the group takes the bytes of its share of the capacity.
use chainlightning.Base.{
  ℕ, ◌+◌, ◌-◌, ◌%◌, ◌^◌, ◌≤◌, ◌<◌, ◌≡◌, refl, ap, sym, ◌∙◌, inl, inr, List, [], ◌∷◌, ◌++◌, some,
  Bool, true, false, arith, Bool-cases, if◌then◌else◌, subst, ltb, lt→ltb, add64,
}
use chainlightning.Scheduler.State.{LinkScheduler, LinkTierConfig}
use chainlightning.Scheduler.Tiers.{
  capacity, total_capacity, tier_loop, pick_of_group, schedule_group,
}

module _ {F : Type 0} where
  -- The capacity of links together, without a bound.
  abbrev pub capacity_sum : (is_upload : Bool) → List (LinkTierConfig F) → ℕ
  capacity_sum is_upload [] = 0
  capacity_sum is_upload (t ∷ ts) = capacity is_upload t + capacity_sum is_upload ts

  -- The link `i` owns the position: its share of the capacity lies there, behind those of the links
  -- before it.
  pub record Owns (is_upload : Bool) (group : List (LinkTierConfig F)) (pos i : ℕ) : Type 0 where
    before : List (LinkTierConfig F)
    tier : LinkTierConfig F
    after : List (LinkTierConfig F)
    splits : group ≡ before ++ tier ∷ after
    from : capacity_sum is_upload before ≤ pos
    to : pos < capacity_sum is_upload before + capacity is_upload tier
    same : tier.link_id ≡ i

  total_capacity-sum :
      (is_upload : Bool) (ts : List (LinkTierConfig F))
      → capacity_sum is_upload ts < 2 ^ 64
      → total_capacity is_upload ts ≡ capacity_sum is_upload ts
  unfolding total_capacity
  total_capacity-sum is_upload [] h = refl
  total_capacity-sum is_upload (t ∷ ts) h =
      rw (total_capacity-sum is_upload ts (omega arith)) (omega arith)

  skipped :
      (is_upload : Bool) (pos next : ℕ) (t : LinkTierConfig F) (ts : List (LinkTierConfig F))
      → ltb pos next ≡ false
      → (if ltb pos next then some t.link_id else tier_loop is_upload pos next ts)
        ≡ tier_loop is_upload pos next ts
  skipped is_upload pos next t ts e = rw e refl

  tier_loop-Owns :
      (is_upload : Bool) (pos passed : ℕ) (ts : List (LinkTierConfig F))
      → passed ≤ pos
      → pos < passed + capacity_sum is_upload ts
      → passed + capacity_sum is_upload ts < 2 ^ 64
      → (i : ℕ) × (tier_loop is_upload pos passed ts ≡ some i) × Owns is_upload ts (pos - passed) i
  unfolding tier_loop
  tier_loop-Owns is_upload pos passed [] low high small = absurd (omega arith)
  tier_loop-Owns is_upload pos passed (t ∷ ts) low high small =
      let next : add64 passed (capacity is_upload t) ≡ passed + capacity is_upload t =
        omega arith in
      elim (Bool-cases (ltb pos (passed + capacity is_upload t))) [
        | inl e ↦ (
          t.link_id,
          rw (next, e) refl,
          record {
            before = [];
            tier = t;
            after = ts;
            splits = refl;
            from = omega arith;
            to = ground (arith, e);
            same = refl;
          },
        )
        | inr e ↦
            let beyond : passed + capacity is_upload t ≤ pos = ground (arith, e) in
            let (i, found, o) =
              tier_loop-Owns is_upload pos (passed + capacity is_upload t) ts beyond (omega arith)
                (omega arith) in
            (
              i,
              skipped is_upload pos _ t ts (ap (λ m. ltb pos m) next ∙ e)
                  ∙ ap (λ m. tier_loop is_upload pos m ts) next
                  ∙ found,
              record {
                before = t ∷ o.before;
                tier = o.tier;
                after = o.after;
                splits = ap (λ us. t ∷ us) o.splits;
                from = omega (arith, o.from);
                to = omega (arith, o.to);
                same = o.same;
              },
            )
      ]

  pick_of_group_lem :
      (s : LinkScheduler F) (chunk_size : ℕ) (first : LinkTierConfig F)
      (rest : List (LinkTierConfig F)) (total i : ℕ)
      → total_capacity s.is_upload (first ∷ rest) ≡ total
      → ltb 0 total ≡ true
      → tier_loop s.is_upload (s.cursor % total) 0 (first ∷ rest) ≡ some i
      → (pick_of_group s chunk_size first rest).0 ≡ i
  unfolding pick_of_group
  pick_of_group_lem s chunk_size first rest total i e f g = ground (arith, e, f, g)

  pub schedule_group-Owns :
      (s : LinkScheduler F) (chunk_size : ℕ) (tiers group : List (LinkTierConfig F))
      → 0 < capacity_sum s.is_upload group
      → capacity_sum s.is_upload group < 2 ^ 64
      → Owns s.is_upload group
          (s.cursor % capacity_sum s.is_upload group)
          (schedule_group s chunk_size tiers group).0.link_id
  unfolding schedule_group
  schedule_group-Owns s chunk_size tiers [] some_capacity small = absurd (omega arith)
  schedule_group-Owns s chunk_size tiers (first ∷ rest) some_capacity small =
      let group = first ∷ rest in
      let total = capacity_sum s.is_upload group in
      let (i, found, o) =
        tier_loop-Owns s.is_upload (s.cursor % total) 0 group (omega arith) (omega arith)
          (omega arith) in
      subst (Owns s.is_upload group (s.cursor % total))
        (sym (
          pick_of_group_lem s chunk_size first rest total i
            (total_capacity-sum s.is_upload group small) (lt→ltb 0 total some_capacity) found))
        (subst (λ n. Owns s.is_upload group n i) (omega arith) o)
