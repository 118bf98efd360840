-- ===== src/Metrics/Summary.antt =====
-- The defaults, and `MetricsCollector::summarize`.
use chainlightning.Base.{ℕ, zero, suc, ◌+◌, List, [], ◌∷◌, true, map, length}
use chainlightning.Floats.{Floats}
use chainlightning.Links.{num_links}
use chainlightning.Metrics.State.{LinkMetrics, Metrics, MetricsCollector}
use chainlightning.Metrics.Snapshot.{sum_from, float_max}

pub record MetricsSummary (F : Type 0) : Type 0 where
  pub sample_count : ℕ
  pub avg_throughput_down_mbps : F
  pub avg_throughput_up_mbps : F
  pub max_throughput_down_mbps : F
  pub max_throughput_up_mbps : F
  pub avg_latency_ms : F
  pub max_latency_ms : F
  pub avg_loss_ratio : F
  pub avg_reorder_ratio : F
  pub avg_cpu_percent : F

module _ (fl : Floats) where
  open fl use {F64, lit, of_u64, mul, div}

  unfoldable pub default_link : LinkMetrics F64
  default_link =
      let zero_float = lit 0 1 in
      record {
        link_id = 0;
        throughput_down = zero_float;
        throughput_up = zero_float;
        rtt_avg_ms = zero_float;
        rtt_min_ms = zero_float;
        rtt_max_ms = zero_float;
        jitter_ms = zero_float;
        packets_sent = 0;
        packets_acked = 0;
        loss_ratio = zero_float;
        is_active = true;
        bandwidth_estimate = zero_float;
      }

  -- The default rows of `k` links, from link `i` on.
  unfoldable pub default_links : (k i : ℕ) → List (LinkMetrics F64)
  unfolding default_link
  default_links zero i = []
  default_links (suc k) i = record default_link { link_id = i } ∷ default_links k (i + 1)

  -- `Metrics::default` at the time `timestamp`.
  unfoldable pub default_metrics : (timestamp : ℕ) → Metrics F64
  unfolding default_links
  default_metrics timestamp =
      let zero_float = lit 0 1 in
      record {
        timestamp = timestamp;
        throughput_down = zero_float;
        throughput_up = zero_float;
        throughput_down_mbps = zero_float;
        throughput_up_mbps = zero_float;
        bytes_sent = 0;
        bytes_received = 0;
        latency_avg_ms = zero_float;
        latency_min_ms = zero_float;
        latency_max_ms = zero_float;
        latency_p50_ms = zero_float;
        latency_p95_ms = zero_float;
        latency_p99_ms = zero_float;
        latency_p50_us = 0;
        latency_p99_us = 0;
        packets_sent = 0;
        packets_received = 0;
        packets_lost = 0;
        loss_ratio = zero_float;
        chunks_sent = 0;
        chunks_received = 0;
        chunks_reordered = 0;
        reorder_ratio = zero_float;
        gaps_detected = 0;
        gap_ratio = zero_float;
        cpu_usage_percent = zero_float;
        memory_usage_bytes = 0;
        links = default_links num_links 0;
        active_flows = 0;
        single_link_flows = 0;
        multi_link_flows = 0;
      }

  unfoldable pub default_summary : MetricsSummary F64
  default_summary =
      let zero_float = lit 0 1 in
      record {
        sample_count = 0;
        avg_throughput_down_mbps = zero_float;
        avg_throughput_up_mbps = zero_float;
        max_throughput_down_mbps = zero_float;
        max_throughput_up_mbps = zero_float;
        avg_latency_ms = zero_float;
        max_latency_ms = zero_float;
        avg_loss_ratio = zero_float;
        avg_reorder_ratio = zero_float;
        avg_cpu_percent = zero_float;
      }

  -- `iter().map(f).sum::<f64>() / n`.
  abbrev pub average : (Metrics F64 → F64) → List (Metrics F64) → F64
  average f history = div (sum_from fl (lit 0 1) (map f history)) (of_u64 (length history))

  -- `fold(acc, f64::max)`.
  abbrev pub greatest : F64 → List F64 → F64
  greatest acc [] = acc
  greatest acc (x ∷ xs) = greatest (float_max fl acc x) xs

  abbrev pub to_mbps : F64 → F64
  to_mbps x = div (mul x (lit 8 1)) (lit 1_000_000 1)

  unfoldable pub summary_of : List (Metrics F64) → MetricsSummary F64
  unfolding default_summary
  summary_of [] = default_summary
  summary_of (m ∷ ms) =
      let history = m ∷ ms in
      record {
        sample_count = length history;
        avg_throughput_down_mbps = to_mbps (average (λ x. x.throughput_down) history);
        avg_throughput_up_mbps = to_mbps (average (λ x. x.throughput_up) history);
        max_throughput_down_mbps =
            to_mbps (greatest (lit 0 1) (map (λ (x : Metrics F64). x.throughput_down) history));
        max_throughput_up_mbps =
            to_mbps (greatest (lit 0 1) (map (λ (x : Metrics F64). x.throughput_up) history));
        avg_latency_ms = average (λ x. x.latency_avg_ms) history;
        max_latency_ms = greatest (lit 0 1) (map (λ (x : Metrics F64). x.latency_max_ms) history);
        avg_loss_ratio = average (λ x. x.loss_ratio) history;
        avg_reorder_ratio = average (λ x. x.reorder_ratio) history;
        avg_cpu_percent = average (λ x. x.cpu_usage_percent) history;
      }

  unfoldable pub summarize : MetricsCollector F64 → MetricsSummary F64
  unfolding summary_of
  summarize m = summary_of m.history
