-- ===== src/RateController/Tests.antt =====
-- The rate controller on two links of 10 and 2 Mbps.
use chainlightning.Base.{
  get_elem?, ℕ, ◌≡◌, ◌<◌, ◌≤◌, none, refl, List, [], ◌∷◌, some, true, false, arith,
}
use chainlightning.Floats.{millionths}
use chainlightning.Wire.Probe.{running, down, ProbePacket}
use chainlightning.RateController.State.{RateControlConfig, RateState, new_state, weight}
use chainlightning.RateController.Probe.{update_state, apply_rate_change}
use chainlightning.RateController.Probe.Bounds.{InBounds}
use chainlightning.RateController.Probe.Moves.{update_state_lem, Move}
use chainlightning.RateController.Probe.Recovery.{recovery_lem, Recovers, Arrival}
use chainlightning.RateController.Ops.{RateController, new, check_timeouts}
use chainlightning.RateController.Ops.Silence.{check_timeouts_lem, apply_rate_change_panics}
use chainlightning.RateController.Ops.History.{
  Event, sends, builds, probes, checks, run, IsSound, rate_controller_total,
}

-- The defaults of common/src/config.rs.
abbrev default_config : RateControlConfig ℕ
default_config = record {
  enabled = true;
  probe_interval_ms = 200;
  min_rate_fraction = 100_000;
  max_rate_change_fraction = 100_000;
  congestion_threshold = 125_000;
  congestion_reduction = 875_000;
  growth_factor = 100_000;
  loss_min_packets = 1_000;
  loss_threshold = 5;
  loss_down_threshold = 200;
  down_timeout_ms = 5_000;
  probe_recovery_count = 3;
  rtt_ewma_alpha = 125_000;
  rtt_var_alpha = 250_000;
  tapa_enabled = true;
  tapa_idle_threshold = 200_000;
  tapa_heavy_threshold = 700_000;
  tapa_min_confidence = 100_000;
  tapa_loss_threshold_multiplier = 4;
  tapa_accelerated_recovery = true;
  tapa_recovery_decay = 750_000;
  tapa_cross_link_check = true;
}

abbrev quiet_probe : ProbePacket
quiet_probe = record {
  link_id = 1;
  seq = 1;
  timestamp_us = 1_000_000;
  echo_timestamp_us = 900_000;
  tx_bytes = 0;
  tx_packets = 0;
  rx_bytes = 20_000;
  rx_packets = 20;
  loss_ratio = 0;
  path_state = running;
}

abbrev calls : List Event
calls =
    sends 1 30_000
    ∷ builds 1_000_000
    ∷ sends 1 1_400
    ∷ probes quiet_probe 1_100_000 2_000_000_000
    ∷ checks 9_000_000_000
    ∷ probes quiet_probe 9_200_000 9_500_000_000
    ∷ []

rate_controller_total_example :
    (t : RateController ℕ) × (run millionths
        (new millionths default_config (1_250_000 ∷ 250_000 ∷ []) 0)
        calls
      ≡ some t)
    × IsSound 2 t
rate_controller_total_example =
    rate_controller_total millionths default_config (1_250_000 ∷ 250_000 ∷ []) 0 calls
      (ground arith)

-- A link of 2 Mbps that was lost.
abbrev lost_link : RateState ℕ
unfolding new_state
lost_link = record (new_state millionths 1 250_000 100_000 0) { state = down }

lost_link-InBounds : InBounds lost_link
unfolding new_state
lost_link-InBounds = record { floor = omega arith; ceiling = omega arith; room = omega arith }

update_state_lem_example :
    (t : RateState ℕ) × (update_state millionths default_config quiet_probe 1_000_000 false
        1_100_000 7 lost_link
      ≡ some t)
    × InBounds t
    × Move down t.state
unfolding new_state
update_state_lem_example =
    update_state_lem millionths default_config lost_link quiet_probe 1_000_000 false 1_100_000 7
      lost_link-InBounds

abbrev arrival : ℕ → Arrival ℕ
arrival now = record {
  probe = quiet_probe;
  confidence = 900_000;
  suppress = false;
  now_us = 1_100_000;
  now = now;
}

recovery_lem_example :
    Recovers millionths default_config (arrival 1 ∷ arrival 2 ∷ arrival 3 ∷ []) lost_link
unfolding new_state
recovery_lem_example =
    recovery_lem millionths default_config (arrival 1 ∷ arrival 2 ∷ arrival 3 ∷ []) lost_link
      lost_link-InBounds (omega arith) refl refl

abbrev quiet_controller : RateController ℕ
unfolding new
quiet_controller = new millionths default_config (250_000 ∷ []) 0

check_timeouts_lem_example :
    (t : RateState ℕ) × (get_elem? (check_timeouts 6_000_000_000 quiet_controller).states 0
      ≡ some t)
    × (5_000_000_000 < 6_000_000_000 → (t.state ≡ down) × (weight t ≡ 0))
    × (6_000_000_000 ≤ 5_000_000_000 → t ≡ new_state millionths 0 250_000 100_000 0)
unfolding new new_state
check_timeouts_lem_example =
    check_timeouts_lem 6_000_000_000 0 quiet_controller (new_state millionths 0 250_000 100_000 0)
      refl

apply_rate_change_panics_example :
    apply_rate_change millionths default_config 9_000 (new_state millionths 0 10_000 100_000 0)
    ≡ none
apply_rate_change_panics_example =
    apply_rate_change_panics millionths default_config 0 10_000 0 9_000 (omega arith)
