-- ===== src/Config/Params/RoundTrip.antt =====
-- A parameter that is set is read back, and no other one changes.
use Prim.Native.String.{String}
use text.Mathlib.Text.{◌==◌}
use text.Mathlib.TextEquality.{eq_iff}
use chainlightning.Base.{
  ℕ, ◌≡◌, refl, sym, ap, ◌∙◌, subst, inl, inr, Option, some, false, if◌then◌else◌, arith,
  Bool-cases, Option-cases,
}
use chainlightning.Floats.{Floats}
use chainlightning.Config.State.{Config, ok, validate}
use chainlightning.Config.Params.{
  ParameterValue, float, uint, usize, bool, string, get_parameter, assign, set_parameter,
}

module _ {F : Type 0} where
  -- `d` has `value` at `path`, and is like `c` at the other paths.
  abbrev pub HoldsAt : Config F → Config F → String → ParameterValue F → Type 0
  HoldsAt c d path value =
      (get_parameter d path ≡ some value)
      × ((q : String) → (q == path) ≡ false → get_parameter d q ≡ get_parameter c q)

  assign_case :
      (c x : Config F) (rest : Option (Config F)) (d : Config F) (path tested : String)
      (value : ParameterValue F)
      → HoldsAt c x tested value
      → (rest ≡ some d → HoldsAt c d path value)
      → (if path == tested then some x else rest) ≡ some d
      → HoldsAt c d path value
  assign_case c x rest d path tested value here later e = elim (Bool-cases (path == tested)) [
    | inl p ↦
        let same : x ≡ d = ground (arith, e, p) in
        let at : path ≡ tested = (eq_iff path tested).0 p in
        subst (λ (y : Config F). HoldsAt c y path value) same
          (subst (λ (s : String). HoldsAt c x s value) (sym at) here)
    | inr n ↦ later (rw n at e)
  ]

  module _ (c : Config F) where
    single :
        (v : F)
        → HoldsAt c
            (record c {
              flow_classifier = record (c.flow_classifier) { single_link_threshold = v };
            })
            "flow_classifier.single_link_threshold"
            (float v)
    unfolding get_parameter
    single v = (refl, λ q h. rw h refl)

    multi :
        (v : F)
        → HoldsAt c
            (record c { flow_classifier = record (c.flow_classifier) { multi_link_threshold = v } })
            "flow_classifier.multi_link_threshold"
            (float v)
    unfolding get_parameter
    multi v = (refl, λ q h. rw h refl)

    monitor :
        (v : ℕ)
        → HoldsAt c
            (record c { flow_classifier = record (c.flow_classifier) { monitor_duration_ms = v } })
            "flow_classifier.monitor_duration_ms"
            (uint v)
    unfolding get_parameter
    monitor v = (refl, λ q h. rw h refl)

    smallest :
        (v : ℕ)
        → HoldsAt c
            (record c { chunk_aggregator = record (c.chunk_aggregator) { min_chunk_size = v } })
            "chunk_aggregator.min_chunk_size"
            (usize v)
    unfolding get_parameter
    smallest v = (refl, λ q h. rw h refl)

    largest :
        (v : ℕ)
        → HoldsAt c
            (record c { chunk_aggregator = record (c.chunk_aggregator) { max_chunk_size = v } })
            "chunk_aggregator.max_chunk_size"
            (usize v)
    unfolding get_parameter
    largest v = (refl, λ q h. rw h refl)

    bdp :
        (v : F)
        → HoldsAt c
            (record c { chunk_aggregator = record (c.chunk_aggregator) { bdp_multiplier = v } })
            "chunk_aggregator.bdp_multiplier"
            (float v)
    unfolding get_parameter
    bdp v = (refl, λ q h. rw h refl)

    reorder :
        (v : ℕ)
        → HoldsAt c
            (record c { receiver = record (c.receiver) { reorder_timeout_ms = v } })
            "receiver.reorder_timeout_ms"
            (uint v)
    unfolding get_parameter
    reorder v = (refl, λ q h. rw h refl)

    interval :
        (v : ℕ)
        → HoldsAt c
            (record c { link_scheduler = record (c.link_scheduler) { sync_interval_ms = v } })
            "link_scheduler.sync_interval_ms"
            (uint v)
    unfolding get_parameter
    interval v = (refl, λ q h. rw h refl)

    announced :
        (v : String)
        → HoldsAt c
            (record c { announcer = record (c.announcer) { enabled = v } })
            "announcer.enabled"
            (string v)
    unfolding get_parameter
    announced v = (refl, λ q h. rw h refl)

  assign-HoldsAt :
      (c d : Config F) (path : String) (value : ParameterValue F)
      → assign c path value ≡ some d
      → HoldsAt c d path value
  unfolding assign
  assign-HoldsAt c d path (float v) =
      assign_case c _ _ d path "flow_classifier.single_link_threshold" (float v) (single c v) (
        assign_case c _ _ d path "flow_classifier.multi_link_threshold" (float v) (multi c v) (
          assign_case c _ _ d path "chunk_aggregator.bdp_multiplier" (float v) (bdp c v) (λ e. cc)))
  assign-HoldsAt c d path (uint v) =
      assign_case c _ _ d path "flow_classifier.monitor_duration_ms" (uint v) (monitor c v) (
        assign_case c _ _ d path "receiver.reorder_timeout_ms" (uint v) (reorder c v) (
          assign_case c _ _ d path "link_scheduler.sync_interval_ms" (uint v) (interval c v)
            (λ e. cc)))
  assign-HoldsAt c d path (usize v) =
      assign_case c _ _ d path "chunk_aggregator.min_chunk_size" (usize v) (smallest c v) (
        assign_case c _ _ d path "chunk_aggregator.max_chunk_size" (usize v) (largest c v)
          (λ e. cc))
  assign-HoldsAt c d path (bool v) = λ e. cc
  assign-HoldsAt c d path (string v) =
      assign_case c _ _ d path "announcer.enabled" (string v) (announced c v) (λ e. cc)

module _ (fl : Floats) where
  open fl use {F64}

  -- Where `set_parameter` succeeds, the configuration passes `validate`, and `get_parameter` reads
  -- the new value at the path and what it read before at every other path.
  pub get_parameter-set_parameter :
      (c d : Config F64) (path : String) (value : ParameterValue F64) (q : String)
      → set_parameter fl c path value ≡ (ok tt, d)
      → (validate fl d ≡ ok tt)
        × (get_parameter d q ≡ (if q == path then some value else get_parameter c q))
  unfolding set_parameter
  get_parameter-set_parameter c d path value q e = elim (Option-cases (assign c path value)) [
    | inl n ↦ let bad = rw (n, set_parameter) at e in absurd (cc)
    | inr (x, p) ↦
        let set = rw (p, set_parameter) at e in
        let same : x ≡ d = ap (λ r. r.1) set in
        let (got, others) = assign-HoldsAt c d path value (p ∙ ap some same) in
        (
          subst (λ y. validate fl y ≡ ok tt) same (ap (λ r. r.0) set),
          elim (Bool-cases (q == path)) [
            | inl h ↦ rw (h, (eq_iff q path).0 h, got) refl
            | inr h ↦ rw (h, others q h) refl
          ],
        )
  ]
