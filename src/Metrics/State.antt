-- ===== src/Metrics/State.antt =====
-- The data of the metrics: `LinkMetrics`, `Metrics`, `RawCounters` and `MetricsCollector`. A lock that
-- guards a value is left out: each operation takes it once, or once after the other.
use chainlightning.Base.{ℕ, List, [], Bool, replicate}
use chainlightning.Links.{num_links}

pub record LinkMetrics (F : Type 0) : Type 0 where
  pub link_id : ℕ
  pub throughput_down : F
  pub throughput_up : F
  pub rtt_avg_ms : F
  pub rtt_min_ms : F
  pub rtt_max_ms : F
  pub jitter_ms : F
  pub packets_sent : ℕ
  pub packets_acked : ℕ
  pub loss_ratio : F
  pub is_active : Bool
  pub bandwidth_estimate : F

pub record Metrics (F : Type 0) : Type 0 where
  pub timestamp : ℕ
  pub throughput_down : F
  pub throughput_up : F
  pub throughput_down_mbps : F
  pub throughput_up_mbps : F
  pub bytes_sent : ℕ
  pub bytes_received : ℕ
  pub latency_avg_ms : F
  pub latency_min_ms : F
  pub latency_max_ms : F
  pub latency_p50_ms : F
  pub latency_p95_ms : F
  pub latency_p99_ms : F
  pub latency_p50_us : ℕ
  pub latency_p99_us : ℕ
  pub packets_sent : ℕ
  pub packets_received : ℕ
  pub packets_lost : ℕ
  pub loss_ratio : F
  pub chunks_sent : ℕ
  pub chunks_received : ℕ
  pub chunks_reordered : ℕ
  pub reorder_ratio : F
  pub gaps_detected : ℕ
  pub gap_ratio : F
  pub cpu_usage_percent : F
  pub memory_usage_bytes : ℕ
  pub links : List (LinkMetrics F)
  pub active_flows : ℕ
  pub single_link_flows : ℕ
  pub multi_link_flows : ℕ

pub record RawCounters : Type 0 where
  pub bytes_down : ℕ
  pub bytes_up : ℕ
  pub packets_sent : ℕ
  pub packets_received : ℕ
  pub packets_lost : ℕ
  pub chunks_sent : ℕ
  pub chunks_received : ℕ
  pub chunks_reordered : ℕ
  pub gaps_detected : ℕ
  pub latency_samples : List ℕ
  pub link_bytes_down : List ℕ
  pub link_bytes_up : List ℕ
  pub link_packets_sent : List ℕ
  pub link_packets_acked : List ℕ
  pub link_rtt_samples : List (List ℕ)
  pub active_flows : ℕ
  pub single_link_flows : ℕ
  pub multi_link_flows : ℕ
  pub window_start : ℕ

-- `RawCounters::new` at the time `now`.
unfoldable pub new_counters : (now : ℕ) → RawCounters
new_counters now = record {
  bytes_down = 0;
  bytes_up = 0;
  packets_sent = 0;
  packets_received = 0;
  packets_lost = 0;
  chunks_sent = 0;
  chunks_received = 0;
  chunks_reordered = 0;
  gaps_detected = 0;
  latency_samples = [];
  link_bytes_down = replicate num_links 0;
  link_bytes_up = replicate num_links 0;
  link_packets_sent = replicate num_links 0;
  link_packets_acked = replicate num_links 0;
  link_rtt_samples = replicate num_links [];
  active_flows = 0;
  single_link_flows = 0;
  multi_link_flows = 0;
  window_start = now;
}

pub record MetricsCollector (F : Type 0) : Type 0 where
  pub counters : RawCounters
  pub history : List (Metrics F)
  pub max_history : ℕ

module _ {F : Type 0} where
  unfoldable pub with_history : (max_history now : ℕ) → MetricsCollector F
  unfolding new_counters
  with_history max_history now = record {
    counters = new_counters now;
    history = [];
    max_history = max_history;
  }

  unfoldable pub new_collector : (now : ℕ) → MetricsCollector F
  unfolding with_history
  new_collector now = with_history 1000 now
