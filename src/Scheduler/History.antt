-- ===== src/Scheduler/History.antt =====
-- The scheduler over any sequence of requests.
pub mod Consistent
pub mod Choice
use native.Mathlib.Nat.{add-suc, add-zero}
use chainlightning.Base.{
  ℕ, zero, suc, ◌+◌, ◌≤◌, ◌<◌, ◌≡◌, refl, sym, ap, ◌∙◌, inl, inr, List, [], ◌∷◌, Bool, true, false,
  arith, Bool-cases, ltb, map, length, modify, length-map, subst,
}
use chainlightning.Clock.{elapsed}
use chainlightning.Floats.{Floats}
use chainlightning.Scheduler.State.{
  LinkState, LinkScheduler, LinkSchedulerConfig, new, new_links, new_link, record_sent,
  record_delivered, update_rtt, sum_weights, total_of,
}
use chainlightning.Scheduler.Weights.{
  adjust, reset, put_weights, maybe_adjust_weights, recalculate_total_weight, ack_bytes,
  set_weights, set_rate_controlled_weights, force_recalculate, measure_link, update_link,
}
use chainlightning.Scheduler.Select.{schedule, indexes}
use chainlightning.Scheduler.Select.Delay.{IsChoice, InUse, schedule-IsChoice}

pub data Request : Type 0 where
  schedules : (chunk_size : ℕ) (multi_link : Bool) → Request
  measures : (link_id measured rtt_us : ℕ) (healthy : Bool) (now : ℕ) → Request
  acks : (link_id bytes : ℕ) → Request
  sets : List ℕ → Request
  rates : List ℕ → Request
  resets : Request

module _ (fl : Floats) where
  open fl use {F64}

  unfoldable pub step : LinkScheduler F64 → Request → LinkScheduler F64
  step s (schedules chunk_size multi_link) = (schedule s chunk_size multi_link).1
  step s (measures link_id measured rtt_us healthy now) =
      update_link fl link_id measured rtt_us healthy now s
  step s (acks link_id bytes) = ack_bytes link_id bytes s
  step s (sets ws) = set_weights ws s
  step s (rates ws) = set_rate_controlled_weights ws s
  step s resets = force_recalculate s

  unfoldable pub run : LinkScheduler F64 → List Request → LinkScheduler F64
  unfolding step
  run s [] = s
  run s (r ∷ rs) = run (step s r) rs
