-- ===== src/Classifier/Modes.antt =====
-- When a flow changes its mode.
use chainlightning.Base.{ℕ, ◌≡◌, refl, ◌∙◌, inl, inr, List, [], ◌∷◌, false, Bool-cases, All}
use chainlightning.Floats.{Floats}
use chainlightning.Classifier.{FlowClassifierConfig, single_link, FlowState, decide}

module _ (fl : Floats) (c : FlowClassifierConfig fl.F64) where
  open fl use {F64, lt}

  -- The flow after decisions at the ratios and times of the list.
  unfoldable pub decisions : ℕ → List (F64 × ℕ) → FlowState → FlowState
  decisions fastest_link [] flow = flow
  decisions fastest_link ((ratio, now) ∷ os) flow =
      decisions fastest_link os (decide fl c ratio fastest_link now flow.mode flow)

  stays_single :
      (fastest_link now link_id : ℕ) (ratio : F64) (flow : FlowState)
      → lt c.multi_link_threshold ratio ≡ false
      → (decide fl c ratio fastest_link now (single_link link_id) flow).mode ≡ flow.mode
  unfolding decide
  stays_single fastest_link now link_id ratio flow low =
      elim (Bool-cases (lt c.single_link_threshold ratio)) [
        | inl e ↦ rw (e, low) refl
        | inr e ↦ rw e refl
      ]

  -- A flow in the single-link mode keeps its link as long as its ratio never passes
  -- `multi_link_threshold`, however often and whenever packets arrive.
  pub single_link_stable :
      (fastest_link link_id : ℕ) (os : List (F64 × ℕ)) (flow : FlowState)
      → flow.mode ≡ single_link link_id
      → All (λ o. lt c.multi_link_threshold o.0 ≡ false) os
      → (decisions fastest_link os flow).mode ≡ single_link link_id
  unfolding decisions
  single_link_stable fastest_link link_id [] flow e low = e
  single_link_stable fastest_link link_id ((ratio, now) ∷ os) flow e (first, others) =
      let same = stays_single fastest_link now link_id ratio flow first in
      single_link_stable fastest_link link_id os (decide fl c ratio fastest_link now flow.mode flow)
        (simp e (same ∙ e)) others
