-- ===== src/RateController/State.antt =====
-- `RateState`, its configuration, and the operations on one link but for the handling of probes.
use chainlightning.Base.{
  ℕ, ◌/◌, ◌%◌, ◌^◌, ◌||◌, Bool, ◌==◌, if◌then◌else◌, max, add64, sub64, mul64, add32,
}
use chainlightning.Floats.{Floats}
use chainlightning.Wire.Probe.{PathState, running, lossy, down, probing, ProbePacket}

-- `RateControlConfig` of common/src/config.rs.
pub record RateControlConfig (F : Type 0) : Type 0 where
  pub enabled : Bool
  pub probe_interval_ms : ℕ
  pub min_rate_fraction : F
  pub max_rate_change_fraction : F
  pub congestion_threshold : F
  pub congestion_reduction : F
  pub growth_factor : F
  pub loss_min_packets : ℕ
  pub loss_threshold : ℕ
  pub loss_down_threshold : ℕ
  pub down_timeout_ms : ℕ
  pub probe_recovery_count : ℕ
  pub rtt_ewma_alpha : F
  pub rtt_var_alpha : F
  pub tapa_enabled : Bool
  pub tapa_idle_threshold : F
  pub tapa_heavy_threshold : F
  pub tapa_min_confidence : F
  pub tapa_loss_threshold_multiplier : ℕ
  pub tapa_accelerated_recovery : Bool
  pub tapa_recovery_decay : F
  pub tapa_cross_link_check : Bool

pub record RateState (F : Type 0) : Type 0 where
  pub link_id : ℕ
  pub tx_rate : ℕ
  pub tx_max_rate : ℕ
  pub tx_min_rate : ℕ
  pub loss : ℕ
  pub send_loss : ℕ
  pub recv_loss : ℕ
  pub send_tx_acc : ℕ
  pub send_rx_acc : ℕ
  pub recv_tx_acc : ℕ
  pub recv_rx_acc : ℕ
  pub srtt_us : ℕ
  pub rtt_var_us : ℕ
  pub state : PathState
  pub total_tx_bytes : ℕ
  pub total_tx_packets : ℕ
  pub total_rx_bytes : ℕ
  pub total_rx_packets : ℕ
  pub last_probe_tx_bytes : ℕ
  pub last_probe_tx_packets : ℕ
  pub last_probe_rx_bytes : ℕ
  pub last_probe_rx_packets : ℕ
  pub last_loss_tx_packets : ℕ
  pub last_loss_rx_packets : ℕ
  pub probe_seq : ℕ
  pub last_remote_timestamp_us : ℕ
  pub last_probe_sent_us : ℕ
  pub last_probe_recv : ℕ
  pub recovery_count : ℕ
  pub probe_confidence : F
  pub prev_probe_confidence : F
  pub entered_down_confidence : F

module _ (fl : Floats) where
  open fl use {F64, lit, of_u64, to_u64, mul, div}

  -- `RateState::new` at the time `now`.
  unfoldable pub new_state : (link_id max_rate : ℕ) → F64 → (now : ℕ) → RateState F64
  new_state link_id max_rate min_rate_fraction now = record {
    link_id = link_id;
    tx_rate = max_rate;
    tx_max_rate = max_rate;
    tx_min_rate = max (to_u64 (mul (of_u64 max_rate) min_rate_fraction)) 12_500;
    loss = 0;
    send_loss = 0;
    recv_loss = 0;
    send_tx_acc = 0;
    send_rx_acc = 0;
    recv_tx_acc = 0;
    recv_rx_acc = 0;
    srtt_us = 0;
    rtt_var_us = 0;
    state = running;
    total_tx_bytes = 0;
    total_tx_packets = 0;
    total_rx_bytes = 0;
    total_rx_packets = 0;
    last_probe_tx_bytes = 0;
    last_probe_tx_packets = 0;
    last_probe_rx_bytes = 0;
    last_probe_rx_packets = 0;
    last_loss_tx_packets = 0;
    last_loss_rx_packets = 0;
    probe_seq = 0;
    last_remote_timestamp_us = 0;
    last_probe_sent_us = 0;
    last_probe_recv = now;
    recovery_count = 0;
    probe_confidence = lit 1 1;
    prev_probe_confidence = lit 1 1;
    entered_down_confidence = lit 1 1;
  }

  -- The traffic since the last probe as a fraction of the capacity.
  unfoldable pub traffic_load : ℕ → RateState F64 → F64
  traffic_load probe_interval_us s =
      if (probe_interval_us == 0) || (s.tx_max_rate == 0)
      then lit 0 1
      else let tx_delta = sub64 s.total_tx_bytes s.last_probe_tx_bytes in
        let rx_delta = sub64 s.total_rx_bytes s.last_probe_rx_bytes in
        let rate = mul64 (max tx_delta rx_delta) 1_000_000 / max probe_interval_us 1 in
        div (of_u64 rate) (of_u64 s.tx_max_rate)

abbrev weight_of : PathState → ℕ → ℕ
weight_of running rate = max (rate / 125_000) 1 % 2 ^ 32
weight_of lossy rate = max (rate / 125_000) 1 % 2 ^ 32
weight_of down rate = 0
weight_of probing rate = 0

module _ {F : Type 0} where
  unfoldable pub weight : RateState F → ℕ
  weight s = weight_of s.state s.tx_rate

  -- `RateState::build_probe`, where `now_micros()` is `now`.
  unfoldable pub build_probe : ℕ → RateState F → ProbePacket × RateState F
  build_probe now s =
      let seq = add32 s.probe_seq 1 in
      (
        record {
          link_id = s.link_id % 2 ^ 8;
          seq = seq;
          timestamp_us = now;
          echo_timestamp_us = s.last_remote_timestamp_us;
          tx_bytes = sub64 s.total_tx_bytes s.last_probe_tx_bytes;
          tx_packets = sub64 s.total_tx_packets s.last_probe_tx_packets % 2 ^ 32;
          rx_bytes = sub64 s.total_rx_bytes s.last_probe_rx_bytes;
          rx_packets = sub64 s.total_rx_packets s.last_probe_rx_packets % 2 ^ 32;
          loss_ratio = s.loss;
          path_state = s.state;
        },
        record s {
          probe_seq = seq;
          last_probe_sent_us = now;
          last_probe_tx_bytes = s.total_tx_bytes;
          last_probe_tx_packets = s.total_tx_packets;
          last_probe_rx_bytes = s.total_rx_bytes;
          last_probe_rx_packets = s.total_rx_packets;
        },
      )

  -- The bodies of `record_tx` and `record_rx`.
  unfoldable pub count_tx : ℕ → RateState F → RateState F
  count_tx bytes s = record s {
    total_tx_bytes = add64 s.total_tx_bytes bytes;
    total_tx_packets = add64 s.total_tx_packets 1;
  }

  unfoldable pub count_rx : ℕ → RateState F → RateState F
  count_rx bytes s = record s {
    total_rx_bytes = add64 s.total_rx_bytes bytes;
    total_rx_packets = add64 s.total_rx_packets 1;
  }
