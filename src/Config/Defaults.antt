-- ===== src/Config/Defaults.antt =====
-- `Config::default` and `RateControlConfig::default`.
use chainlightning.Base.{ℕ, [], ◌∷◌, true, false}
use chainlightning.Floats.{Floats}
use chainlightning.Config.State.{Config}
use chainlightning.RateController.State.{RateControlConfig}
use chainlightning.Scheduler.State.{LinkTierConfig}

module _ (fl : Floats) where
  open fl use {F64, lit}

  unfoldable pub default_rate_control : RateControlConfig F64
  default_rate_control = record {
    enabled = true;
    probe_interval_ms = 200;
    min_rate_fraction = lit 10 100;
    max_rate_change_fraction = lit 10 100;
    congestion_threshold = lit 125 1000;
    congestion_reduction = lit 875 1000;
    growth_factor = lit 10 100;
    loss_min_packets = 1000;
    loss_threshold = 5;
    loss_down_threshold = 200;
    down_timeout_ms = 5000;
    probe_recovery_count = 3;
    rtt_ewma_alpha = lit 125 1000;
    rtt_var_alpha = lit 25 100;
    tapa_enabled = true;
    tapa_idle_threshold = lit 20 100;
    tapa_heavy_threshold = lit 70 100;
    tapa_min_confidence = lit 10 100;
    tapa_loss_threshold_multiplier = 4;
    tapa_accelerated_recovery = true;
    tapa_recovery_decay = lit 75 100;
    tapa_cross_link_check = true;
  }

  -- A tier of `link_tiers`.
  abbrev pub adsl : (link_id priority : ℕ) → LinkTierConfig F64
  adsl link_id priority = record {
    link_id = link_id;
    priority = priority;
    capacity_down_bps = 7_812_500;
    capacity_up_bps = 1_587_500;
    utilization_threshold = lit 90 100;
    realtime_eligible = true;
    link_type = "adsl";
  }

  abbrev pub starlink : (link_id priority : ℕ) → LinkTierConfig F64
  starlink link_id priority = record {
    link_id = link_id;
    priority = priority;
    capacity_down_bps = 27_500_000;
    capacity_up_bps = 2_500_000;
    utilization_threshold = lit 95 100;
    realtime_eligible = false;
    link_type = "starlink";
  }

  unfoldable pub default_config : Config F64
  unfolding default_rate_control
  default_config = record {
    flow_classifier = record {
      single_link_threshold = lit 66 100;
      multi_link_threshold = lit 90 100;
      monitor_duration_ms = 2000;
      flow_window_ms = 1000;
      flow_expiry_ms = 30000;
    };
    chunk_aggregator = record {
      min_chunk_size = 1400;
      max_chunk_size = 65536;
      bdp_multiplier = lit 1 1;
      aggregation_timeout_ms = 5;
    };
    link_scheduler = record {
      sync_interval_ms = 50;
      max_send_delay_ms = 100;
      enable_sync = true;
      strategy = "tiered_fill";
      link_tiers = adsl 2 1 ∷ adsl 0 2 ∷ adsl 4 3 ∷ starlink 1 4 ∷ starlink 3 5 ∷ [];
      flow_affinity = true;
      flow_affinity_timeout_secs = 30;
    };
    announcer = record { enabled = "auto"; lookahead_count = 10; safety_margin_us = 100 };
    receiver = record {
      reorder_timeout_ms = 50;
      max_buffer_chunks = 1000;
      immediate_forward = true;
    };
    stats = record { ewma_alpha = lit 2 10; probe_interval_ms = 1000; bandwidth_window_ms = 1000 };
    testing = record {
      ab_testing_enabled = true;
      metrics_interval_ms = 1000;
      log_metrics = true;
      metrics_log_path = "./metrics.jsonl";
    };
    logging = record {
      debug_enabled = false;
      log_scheduler = false;
      log_flows = false;
      log_chunks = false;
      log_stats = true;
      log_rtt = false;
      log_file_path = "./chainlightning.log";
      log_rotation_mb = 100;
    };
    realtime = record {
      realtime_udp_ports =
          5060 ∷ 5061 ∷ 3478 ∷ 3479 ∷ 16384 ∷ 16385 ∷ 16386 ∷ 16387 ∷ 27015 ∷ 27016 ∷ 27017 ∷ 27018
          ∷ [];
      realtime_tcp_ports = 22 ∷ 23 ∷ [];
      max_realtime_packet_size = 1400;
      force_adsl_only = true;
    };
    rate_control = default_rate_control;
  }
