-- ===== src/Classifier/Sustained.antt =====
-- A flow changes its mode only after a sustained load.
use mathlib.Core.List.{append_assoc}
use chainlightning.Base.{
  ℕ, ◌≤◌, ◌≡◌, refl, ap, ◌∙◌, inl, inr, ◌⊎◌, List, [], ◌∷◌, ◌++◌, Option, none, some, true, ◌&&◌,
  leb, max, get_or, append-nil, Bool-cases, All, leb→le, subst, arith,
}
use chainlightning.Clock.{from_millis, elapsed}
use chainlightning.Floats.{Floats}
use chainlightning.Classifier.{
  FlowClassifierConfig, FlowMode, single_link, multi_link, FlowState, FlowClassifier, new_flow,
  or_now, record_bytes, estimated_bandwidth, decide, observe,
}

All-snoc {ℓ κ} :
    {A : Type ℓ} (P : A → Type κ) (xs : List A) (x : A) → All P xs → P x → All P (xs ++ x ∷ [])
All-snoc P [] x h p = (p, tt)
All-snoc P (y ∷ ys) x h p = (h.0, All-snoc P ys x h.1 p)

module _ (fl : Floats) where
  open fl use {F64, of_u64, div, lt}

  module _ (c : FlowClassifierConfig F64) where
    -- The ratio calls for the other mode: it is above `single_link_threshold` in the single-link mode,
    -- below it in the multi-link mode.
    abbrev pub CallsAway : FlowMode → F64 × ℕ → Type 0
    CallsAway (single_link link_id) (ratio, now) = lt c.single_link_threshold ratio ≡ true
    CallsAway multi_link (ratio, now) = lt ratio c.single_link_threshold ≡ true

    -- The log ends with ratios that call away from the mode, the first of them at the time `t`.
    pub record Sustained (mode : FlowMode) (t : ℕ) (log : List (F64 × ℕ)) : Type 0 where
      before : List (F64 × ℕ)
      ratio : F64
      during : List (F64 × ℕ)
      splits : log ≡ before ++ (ratio, t) ∷ during
      all : All (CallsAway mode) ((ratio, t) ∷ during)

    abbrev Since : FlowMode → Option ℕ → List (F64 × ℕ) → Type 0
    Since mode none log = Unit {0}
    Since mode (some t) log = Sustained mode t log

    extended :
        (mode : FlowMode) (at : Option ℕ) (log : List (F64 × ℕ)) (ratio : F64) (now : ℕ)
        → Since mode at log
        → CallsAway mode (ratio, now)
        → Sustained mode (or_now at now) (log ++ (ratio, now) ∷ [])
    extended mode none log ratio now h p = record {
      before = log;
      ratio = ratio;
      during = [];
      splits = refl;
      all = (p, tt);
    }
    extended mode (some t) log ratio now h p = record {
      before = h.before;
      ratio = h.ratio;
      during = h.during ++ (ratio, now) ∷ [];
      splits = ap (λ xs. xs ++ (ratio, now) ∷ []) h.splits ∙ append_assoc h.before _ _;
      all = All-snoc (CallsAway mode) ((h.ratio, t) ∷ h.during) (ratio, now) h.all p;
    }

    -- The mode stays, or the load lasted for the monitored time.
    abbrev pub Lasted : FlowMode → FlowMode → (now : ℕ) → List (F64 × ℕ) → Type 0
    Lasted old new now log =
        (new ≡ old)
        ⊎ ((t : ℕ) × (from_millis c.monitor_duration_ms ≤ elapsed now t) × Sustained old t log)

    abbrev Decided : (old new : FlowMode) → Option ℕ → (now : ℕ) → List (F64 × ℕ) → Type 0
    Decided old new at now log = Since new at log × Lasted old new now log

    stays-Decided :
        (old new : FlowMode) (at : Option ℕ) (now : ℕ) (log : List (F64 × ℕ))
        → new ≡ old
        → Since old at log
        → Decided old new at now log
    stays-Decided old new at now log e h = rw e (h, inl refl)

    switches-Decided :
        (old new : FlowMode) (t now : ℕ) (log : List (F64 × ℕ))
        → leb (from_millis c.monitor_duration_ms) (elapsed now t) ≡ true
        → Sustained old t log
        → Decided old new none now log
    switches-Decided old new t now log late h = (tt, inr (t, leb→le _ _ late, h))

    decide-Decided :
        (ratio : F64) (fastest_link now : ℕ) (mode : FlowMode) (flow : FlowState)
        (log : List (F64 × ℕ))
        → flow.mode ≡ mode
        → Since mode flow.exceeded_threshold_at log
        → let g = decide fl c ratio fastest_link now mode flow in
          Decided mode g.mode g.exceeded_threshold_at now (log ++ (ratio, now) ∷ [])
    unfolding decide
    decide-Decided ratio fastest_link now (single_link link_id) flow log e h =
        let at = or_now flow.exceeded_threshold_at now in
        elim (Bool-cases (lt c.single_link_threshold ratio)) [
          | inl p ↦
              let longer =
                extended (single_link link_id) flow.exceeded_threshold_at log ratio now h p in
              elim (Bool-cases (
                lt c.multi_link_threshold ratio
                && leb (from_millis c.monitor_duration_ms) (elapsed now at))) [
                  | inl q ↦ rw (p, q) (switches-Decided _ _ at now _ (ground (arith, q)) longer)
                  | inr q ↦ rw (p, q) (stays-Decided _ _ (some at) now _ e longer)
                ]
          | inr p ↦ rw p (stays-Decided _ _ none now _ e tt)
        ]
    decide-Decided ratio fastest_link now multi_link flow log e h =
        let at = or_now flow.exceeded_threshold_at now in
        elim (Bool-cases (lt ratio c.single_link_threshold)) [
          | inl p ↦
              let longer = extended multi_link flow.exceeded_threshold_at log ratio now h p in
              elim (Bool-cases (leb (from_millis c.monitor_duration_ms) (elapsed now at))) [
                | inl q ↦ rw (p, q) (switches-Decided _ _ at now _ q longer)
                | inr q ↦ rw (p, q) (stays-Decided _ _ (some at) now _ e longer)
              ]
          | inr p ↦ rw p (stays-Decided _ _ none now _ e tt)
        ]

  module _ (k : FlowClassifier F64) where
    -- The ratio on which the decision for a packet rests.
    abbrev pub load : (bytes now : ℕ) → FlowState → F64
    load bytes now flow =
        div
          (of_u64 (
            estimated_bandwidth fl (from_millis k.config.flow_window_ms) now
              (record_bytes bytes now flow)))
          (of_u64 (max (get_or k.link_bandwidths k.fastest_link 1) 1))

    -- The flow after packets of the sizes and at the times of the list, and the ratios.
    unfoldable pub observes : List (ℕ × ℕ) → FlowState → FlowState
    observes [] flow = flow
    observes ((bytes, now) ∷ ps) flow = observes ps (observe fl k bytes now flow)

    unfoldable pub loads : List (ℕ × ℕ) → FlowState → List (F64 × ℕ)
    loads [] flow = []
    loads ((bytes, now) ∷ ps) flow =
        (load bytes now flow, now) ∷ loads ps (observe fl k bytes now flow)

    observe-Decided :
        (bytes now : ℕ) (flow : FlowState) (log : List (F64 × ℕ))
        → Since k.config flow.mode flow.exceeded_threshold_at log
        → let g = observe fl k bytes now flow in
          Decided k.config flow.mode g.mode g.exceeded_threshold_at now
            (log ++ (load bytes now flow, now) ∷ [])
    unfolding observe record_bytes
    observe-Decided bytes now flow log h =
        decide-Decided k.config (load bytes now flow) k.fastest_link now flow.mode
          (record_bytes bytes now flow) log refl h

    observes-Since :
        (ps : List (ℕ × ℕ)) (flow : FlowState) (log : List (F64 × ℕ))
        → Since k.config flow.mode flow.exceeded_threshold_at log
        → let g = observes ps flow in
          Since k.config g.mode g.exceeded_threshold_at (log ++ loads ps flow)
    unfolding observes loads
    observes-Since [] flow log h = rw (append-nil log) h
    observes-Since ((bytes, now) ∷ ps) flow log h =
        let g = observe fl k bytes now flow in
        subst (Since k.config (observes ps g).mode (observes ps g).exceeded_threshold_at)
          (append_assoc log ((load bytes now flow, now) ∷ []) (loads ps g))
          (observes-Since ps g (log ++ (load bytes now flow, now) ∷ [])
            (observe-Decided bytes now flow log h).0)

    -- After any packets of a new flow, the next one leaves the mode as it is, or the ratio was above
    -- `single_link_threshold` in the single-link mode, and below it in the multi-link mode, at each
    -- packet from one on that came at least `monitor_duration_ms` ago.
    pub switch_needs_load :
        (flow_id start : ℕ) (ps : List (ℕ × ℕ)) (bytes now : ℕ)
        → let first = new_flow flow_id k.fastest_link start in
          let flow = observes ps first in
          Lasted k.config flow.mode
            (observe fl k bytes now flow).mode
            now
            (loads ps first ++ (load bytes now flow, now) ∷ [])
    switch_needs_load flow_id start ps bytes now =
        let first = new_flow flow_id k.fastest_link start in
        (observe-Decided bytes now (observes ps first) (loads ps first)
          (observes-Since ps first [] tt)).1
