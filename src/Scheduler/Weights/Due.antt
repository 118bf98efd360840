-- ===== src/Scheduler/Weights/Due.antt =====
-- What a measurement does to the weights once the adjustment interval is over.
use chainlightning.Base.{
  ℕ, zero, suc, ◌≤◌, ◌≡◌, refl, ap, ◌∙◌, inl, inr, List, [], ◌∷◌, Bool, arith, Bool-cases, ltb,
  le→ltb, map, modify,
}
use chainlightning.Clock.{elapsed}
use chainlightning.Floats.{Floats}
use chainlightning.Scheduler.State.{
  LinkState, LinkScheduler, bandwidth_to_weight, update_rtt, record_delivered,
}
use chainlightning.Scheduler.Weights.{
  adjust, maybe_adjust_weights, set_rate_controlled_weights, put_weights, measure_link, update_link,
  weights, target_weights, recalculate_total_weight,
}

abbrev configured : List LinkState → List ℕ
configured = map λ l. bandwidth_to_weight l.configured_bandwidth_bps

adjusted : (ls : List LinkState) → map (λ l. l.weight) (map adjust ls) ≡ configured ls
adjusted [] = refl
adjusted (l ∷ ls) = ap (◌∷◌ (bandwidth_to_weight l.configured_bandwidth_bps)) (adjusted ls)

configured-modify :
    (f : LinkState → LinkState)
    → ((l : LinkState) → (f l).configured_bandwidth_bps ≡ l.configured_bandwidth_bps)
    → (ls : List LinkState) (k : ℕ) → configured (modify f ls k) ≡ configured ls
configured-modify f keeps [] k = refl
configured-modify f keeps (l ∷ ls) zero = rw (keeps l) refl
configured-modify f keeps (l ∷ ls) (suc k) =
    ap (◌∷◌ (bandwidth_to_weight l.configured_bandwidth_bps)) (configured-modify f keeps ls k)

configured-put_weights :
    (put : ℕ → LinkState → LinkState)
    → ((w : ℕ) (l : LinkState) → (put w l).configured_bandwidth_bps ≡ l.configured_bandwidth_bps)
    → (ls : List LinkState) (ws : List ℕ) → configured (put_weights put ls ws) ≡ configured ls
unfolding put_weights
configured-put_weights put keeps [] ws = refl
configured-put_weights put keeps (l ∷ ls) [] = refl
configured-put_weights put keeps (l ∷ ls) (w ∷ ws) =
    rw (keeps w l, configured-put_weights put keeps ls ws)

module _ (fl : Floats) (measured rtt_us now : ℕ) (l : LinkState) where
  update_rtt-configured :
      (update_rtt fl rtt_us l).configured_bandwidth_bps ≡ l.configured_bandwidth_bps
  unfolding update_rtt
  update_rtt-configured = ground arith

  measure_link-configured :
      (measure_link fl measured rtt_us now l).configured_bandwidth_bps ≡ l.configured_bandwidth_bps
  unfolding measure_link record_delivered
  measure_link-configured = elim (Bool-cases (ltb 0 measured)) [
    | inl e ↦ rw e update_rtt-configured
    | inr e ↦ rw e update_rtt-configured
  ]

-- Once the adjustment interval is over, the next measurement of any link sets every weight back to
-- the configured one, whatever weights the rate controller has set before.
pub update_link_resets :
    (fl : Floats) (s : LinkScheduler fl.F64) (ws : List ℕ) (link_id measured rtt_us now : ℕ)
    (healthy : Bool)
    → s.adjustment_interval ≤ elapsed now s.last_adjustment
    → weights
        (update_link fl link_id measured rtt_us healthy now (set_rate_controlled_weights ws s))
      ≡ target_weights s
unfolding update_link maybe_adjust_weights set_rate_controlled_weights weights target_weights
    recalculate_total_weight
update_link_resets fl s ws link_id measured rtt_us now healthy due =
    rw (le→ltb (elapsed now s.last_adjustment) s.adjustment_interval due) (
      adjusted _
      ∙ configured-modify (measure_link fl measured rtt_us now)
          (measure_link-configured fl measured rtt_us now) _ link_id
      ∙ configured-put_weights _ (λ w l. refl) s.links ws)
