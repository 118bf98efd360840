-- ===== src/Scheduler/Weights.antt =====
-- The operations that change weights and measurements.
pub mod Due
use chainlightning.Base.{ℕ, List, [], ◌∷◌, Bool, ltb, ◌==◌, if◌then◌else◌, map, modify}
use chainlightning.Clock.{elapsed}
use chainlightning.Floats.{Floats}
use chainlightning.Scheduler.State.{
  LinkHealth, normal, degraded, LinkState, LinkScheduler, bandwidth_to_weight, record_delivered,
  ewma, update_rtt, total_of, effective_bandwidth,
}

-- The bodies of the loops of `maybe_adjust_weights` and `force_recalculate`.
abbrev pub adjust : LinkState → LinkState
adjust l = record l { weight = bandwidth_to_weight l.configured_bandwidth_bps; health = normal }

abbrev pub reset : LinkState → LinkState
reset l = record l {
  weight = bandwidth_to_weight l.configured_bandwidth_bps;
  measured_bandwidth_bps = 0;
}

-- The loop over the new weights; links beyond them stay, and weights beyond the links are ignored.
unfoldable pub put_weights : (ℕ → LinkState → LinkState) → List LinkState → List ℕ → List LinkState
put_weights put [] ws = []
put_weights put (l ∷ ls) [] = l ∷ ls
put_weights put (l ∷ ls) (w ∷ ws) = put w l ∷ put_weights put ls ws

module _ {F : Type 0} where
  unfoldable pub recalculate_total_weight : LinkScheduler F → LinkScheduler F
  unfolding total_of
  recalculate_total_weight s = record s { total_weight = total_of s.links }

  -- Weights follow the configuration, not the measurements.
  unfoldable pub maybe_adjust_weights : ℕ → LinkScheduler F → LinkScheduler F
  unfolding recalculate_total_weight
  maybe_adjust_weights now s =
      if ltb (elapsed now s.last_adjustment) s.adjustment_interval
      then s
      else recalculate_total_weight (record s { last_adjustment = now; links = map adjust s.links })

  unfoldable pub ack_bytes : ℕ → ℕ → LinkScheduler F → LinkScheduler F
  ack_bytes link_id bytes s = record s { links = modify (record_delivered bytes) s.links link_id }

  unfoldable pub set_weights : List ℕ → LinkScheduler F → LinkScheduler F
  unfolding put_weights recalculate_total_weight
  set_weights weights s =
      recalculate_total_weight
        (record s { links = put_weights (λ w l. record l { weight = w }) s.links weights })

  unfoldable pub set_rate_controlled_weights : List ℕ → LinkScheduler F → LinkScheduler F
  unfolding put_weights recalculate_total_weight
  set_rate_controlled_weights weights s = recalculate_total_weight (record s {
    links =
        put_weights (λ w l. record l { weight = w; health = if ltb 0 w then normal else degraded })
          s.links weights;
  })

  unfoldable pub force_recalculate : LinkScheduler F → LinkScheduler F
  unfolding recalculate_total_weight
  force_recalculate s = recalculate_total_weight (record s { links = map reset s.links })

  unfoldable pub weights : LinkScheduler F → List ℕ
  weights s = map (λ l. l.weight) s.links

  unfoldable pub target_weights : LinkScheduler F → List ℕ
  target_weights s = map (λ l. bandwidth_to_weight l.configured_bandwidth_bps) s.links

  unfoldable pub health_states : LinkScheduler F → List LinkHealth
  health_states s = map (λ l. l.health) s.links

  unfoldable pub health : LinkScheduler F → List Bool
  health s = map (λ l. ltb 0 l.weight) s.links

  unfoldable pub effective_capacities : LinkScheduler F → List ℕ
  effective_capacities s = map effective_bandwidth s.links

module _ (fl : Floats) where
  open fl use {F64, lit}

  -- One link's part of `update_link`.
  unfoldable pub measure_link : ℕ → ℕ → ℕ → LinkState → LinkState
  unfolding update_rtt record_delivered ewma
  measure_link measured rtt_us now l =
      let r = update_rtt fl rtt_us l in
      let m =
        if ltb 0 measured
        then record_delivered measured (record r {
          measured_bandwidth_bps =
              if r.measured_bandwidth_bps == 0
              then measured
              else ewma fl (lit 3 10) measured r.measured_bandwidth_bps;
        })
        else r in
      record m { last_update = now }

  unfoldable pub update_link : ℕ → ℕ → ℕ → Bool → ℕ → LinkScheduler F64 → LinkScheduler F64
  unfolding measure_link maybe_adjust_weights
  update_link link_id measured rtt_us healthy now s =
      maybe_adjust_weights now
        (record s { links = modify (measure_link measured rtt_us now) s.links link_id })
