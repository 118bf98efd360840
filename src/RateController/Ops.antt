-- ===== src/RateController/Ops.antt =====
-- `RateController`: the operations over all links.
pub mod History
pub mod Silence
use chainlightning.Base.{
  ◌>>=◌, ℕ, ◌+◌, ◌*◌, ◌<◌, List, [], ◌∷◌, Option, none, some, Bool, true, false, not, ◌&&◌, ◌||◌,
  ltb, ◌==◌, if◌then◌else◌, map, length, get_elem?, modify, mul64,
}
use chainlightning.Clock.{from_millis, elapsed}
use chainlightning.Floats.{Floats}
use chainlightning.Wire.Probe.{PathState, running, lossy, down, probing, ProbePacket}
use chainlightning.RateController.State.{
  RateControlConfig, RateState, new_state, traffic_load, weight, build_probe, count_tx, count_rx,
}
use chainlightning.RateController.Probe.{update_state}

pub record RateController (F : Type 0) : Type 0 where
  pub states : List (RateState F)
  pub config : RateControlConfig F

unfoldable pub filter_count : {A : Type 0} → (A → Bool) → List A → ℕ
filter_count p [] = 0
filter_count p (x ∷ xs) = let rest = filter_count p xs in if p x then 1 + rest else rest

unfoldable pub is_down : PathState → Bool
is_down running = false
is_down lossy = false
is_down down = true
is_down probing = false

module _ {F : Type 0} where
  unfoldable pub enabled : RateController F → Bool
  enabled r = r.config.enabled

  unfoldable pub weights : RateController F → List ℕ
  unfolding weight
  weights r = map weight r.states

  unfoldable pub record_tx : (link_id bytes : ℕ) → RateController F → RateController F
  unfolding count_tx
  record_tx link_id bytes r = record r { states = modify (count_tx bytes) r.states link_id }

  unfoldable pub record_rx : (link_id bytes : ℕ) → RateController F → RateController F
  unfolding count_rx
  record_rx link_id bytes r = record r { states = modify (count_rx bytes) r.states link_id }

  unfoldable pub build_probes : ℕ → RateController F → List ProbePacket × RateController F
  unfolding build_probe
  build_probes now r = (
    map (λ s. (build_probe now s).0) r.states,
    record r { states = map (λ s. (build_probe now s).1) r.states },
  )

  -- The body of the loop of `check_timeouts`.
  unfoldable pub expire : RateControlConfig F → ℕ → RateState F → RateState F
  unfolding is_down
  expire c now s =
      if not (is_down s.state)
        && ltb (from_millis c.down_timeout_ms) (elapsed now s.last_probe_recv)
      then record s {
        state = down;
        recovery_count = 0;
        entered_down_confidence = s.probe_confidence;
      }
      else s

  unfoldable pub check_timeouts : ℕ → RateController F → RateController F
  unfolding expire
  check_timeouts now r = record r { states = map (expire r.config now) r.states }

  unfoldable pub num_links : RateController F → ℕ
  num_links r = length r.states

  unfoldable pub rate : RateController F → ℕ → ℕ
  rate r link_id = elim (get_elem? r.states link_id) [ none ↦ 0 | some s ↦ s.tx_rate ]

  unfoldable pub link_state : RateController F → ℕ → PathState
  link_state r link_id = elim (get_elem? r.states link_id) [ none ↦ down | some s ↦ s.state ]

  unfoldable pub rtt_us : RateController F → ℕ → ℕ
  rtt_us r link_id = elim (get_elem? r.states link_id) [ none ↦ 0 | some s ↦ s.srtt_us ]

  unfoldable pub loss : RateController F → ℕ → ℕ
  loss r link_id = elim (get_elem? r.states link_id) [ none ↦ 255 | some s ↦ s.loss ]

module _ (fl : Floats) where
  open fl use {F64, lit, sub, mul, div, lt, le}

  unfoldable pub new_states : ℕ → List ℕ → F64 → ℕ → List (RateState F64)
  unfolding new_state
  new_states i [] fraction now = []
  new_states i (rate ∷ rates) fraction now =
      new_state fl i rate fraction now ∷ new_states (i + 1) rates fraction now

  -- `RateController::new` at the time `now`.
  unfoldable pub new : RateControlConfig F64 → List ℕ → ℕ → RateController F64
  unfolding new_states
  new config max_rates now = record {
    states = new_states 0 max_rates config.min_rate_fraction now;
    config = config;
  }

  unfoldable pub calculate_probe_confidence : RateController F64 → ℕ → F64
  unfolding traffic_load
  calculate_probe_confidence r link_id =
      let c = r.config in
      if not c.tapa_enabled then lit 1 1 else elim (get_elem? r.states link_id) [
        | none ↦ lit 1 1
        | some s ↦
            let load = traffic_load fl (mul64 c.probe_interval_ms 1000) s in
            let t =
              div (sub load c.tapa_idle_threshold)
                (sub c.tapa_heavy_threshold c.tapa_idle_threshold) in
            if le load c.tapa_idle_threshold
            then lit 1 1
            else if le c.tapa_heavy_threshold load
            then c.tapa_min_confidence
            else sub (lit 1 1) (mul t (sub (lit 1 1) c.tapa_min_confidence))
      ]

  unfoldable pub all_links_phantom_loss : RateController F64 → Bool
  unfolding filter_count
  all_links_phantom_loss r =
      let c = r.config in
      let link_count = length r.states in
      let high_loss_count = filter_count (λ s. ltb c.loss_threshold s.loss) r.states in
      let heavy_traffic_count = filter_count (λ s. lt s.probe_confidence (lit 3 10)) r.states in
      if not c.tapa_enabled || not c.tapa_cross_link_check
      then false
      else if ltb link_count 2
      then false
      else ltb (link_count * 4) (high_loss_count * 5)
        && ltb (link_count * 4) (heavy_traffic_count * 5)

  -- `process_probe` once the link is looked up. A probe for a link that there is not changes nothing.
  unfoldable pub process_found :
      ProbePacket
      → F64
      → Bool
      → (now_us now : ℕ) → RateController F64
      → Option (RateState F64)
      → Option (RateController F64)
  unfolding update_state
  process_found probe confidence suppress now_us now r none = some r
  process_found probe confidence suppress now_us now r (some s) = do
    t ← update_state fl r.config probe confidence suppress now_us now s
    some (record r { states = modify (λ _. t) r.states probe.link_id })

  -- `none` is a panic.
  unfoldable pub process_probe :
      ProbePacket → (now_us now : ℕ) → RateController F64 → Option (RateController F64)
  unfolding calculate_probe_confidence all_links_phantom_loss process_found
  process_probe probe now_us now r =
      process_found probe (calculate_probe_confidence r probe.link_id) (all_links_phantom_loss r)
        now_us now r (get_elem? r.states probe.link_id)
