-- ===== src/Metrics/Snapshot.antt =====
-- `calculate_percentiles`, `calculate_jitter`, `MetricsCollector::snapshot` and the history. An index
-- out of bounds panics, and gives `none`.
pub mod Ranks
pub mod Order
use chainlightning.Base.{
  ℕ, suc, zero, ◌+◌, ◌-◌, ◌/◌, ◌^◌, List, [], ◌∷◌, ◌++◌, Option, none, some, Bool, ltb, leb, ◌==◌,
  if◌then◌else◌, max, length, get_elem?, get_or, drop, map, sub64, ◌>>=◌,
}
use chainlightning.Clock.{elapsed}
use chainlightning.Floats.{Floats}
use chainlightning.Links.{num_links}
use chainlightning.Metrics.State.{LinkMetrics, Metrics, RawCounters, new_counters, MetricsCollector}

-- The six numbers that `calculate_percentiles` returns.
pub record Percentiles (F : Type 0) : Type 0 where
  pub avg : F
  pub low : F
  pub high : F
  pub p50 : F
  pub p95 : F
  pub p99 : F

module _ (fl : Floats) where
  open fl use {F64, lit, of_u64, to_u64, add, sub, mul, div, as_secs, lt, le}

  -- `iter().sum::<f64>()`.
  abbrev pub sum_from : F64 → List F64 → F64
  sum_from acc [] = acc
  sum_from acc (x ∷ xs) = sum_from (add acc x) xs

  -- `f64::max` on numbers.
  abbrev pub float_max : F64 → F64 → F64
  float_max x y = if lt x y then y else x

  -- The stable `sort_by`, by insertion. `partial_cmp` has an order for all of them, and its `unwrap`
  -- does not panic, since an integer divided by 1000.0 is never NaN.
  unfoldable pub insert_sorted : F64 → List F64 → List F64
  insert_sorted x [] = x ∷ []
  insert_sorted x (y ∷ ys) = if le x y then x ∷ y ∷ ys else y ∷ insert_sorted x ys

  unfoldable pub sort_floats : List F64 → List F64
  unfolding insert_sorted
  sort_floats [] = []
  sort_floats (x ∷ xs) = insert_sorted x (sort_floats xs)

  -- ((n - 1) as f64 * fraction) as usize.
  abbrev pub rank : ℕ → F64 → ℕ
  rank n fraction = to_u64 (mul (of_u64 (n - 1)) fraction)

  abbrev pub in_ms : List ℕ → List F64
  in_ms samples = map (λ s. div (of_u64 s) (lit 1000 1)) samples

  -- What is read from the sorted samples.
  unfoldable pub read_percentiles : List F64 → Option (Percentiles F64)
  read_percentiles sorted =
      let n = length sorted in
      do
        low ← get_elem? sorted 0
        high ← get_elem? sorted (n - 1)
        p50 ← get_elem? sorted (rank n (lit 50 100))
        p95 ← get_elem? sorted (rank n (lit 95 100))
        p99 ← get_elem? sorted (rank n (lit 99 100))
        some (record {
          avg = div (sum_from (lit 0 1) sorted) (of_u64 n);
          low = low;
          high = high;
          p50 = p50;
          p95 = p95;
          p99 = p99;
        })

  unfoldable pub calculate_percentiles : List ℕ → Option (Percentiles F64)
  calculate_percentiles [] =
      let none_yet = lit 0 1 in
      some (record {
        avg = none_yet;
        low = none_yet;
        high = none_yet;
        p50 = none_yet;
        p95 = none_yet;
        p99 = none_yet;
      })
  calculate_percentiles (s ∷ samples) = read_percentiles (sort_floats (in_ms (s ∷ samples)))

  -- `(a as i64 - b as i64).abs() as f64`: the difference wraps, and so does `abs` at the least `i64`.
  unfoldable pub abs_diff : ℕ → ℕ → F64
  abs_diff a b =
      let d = sub64 a b in
      if d == 2 ^ 63
      then sub (lit 0 1) (of_u64 (2 ^ 63))
      else of_u64 (if ltb d (2 ^ 63) then d else 2 ^ 64 - d)

  unfoldable pub diffs : List ℕ → List F64
  unfolding abs_diff
  diffs [] = []
  diffs (a ∷ []) = []
  diffs (a ∷ b ∷ samples) = abs_diff b a ∷ diffs (b ∷ samples)

  unfoldable pub calculate_jitter : List ℕ → F64
  unfolding diffs
  calculate_jitter samples =
      if ltb (length samples) 2
      then lit 0 1
      else (let ds = diffs samples in
          div (div (sum_from (lit 0 1) ds) (of_u64 (length ds))) (lit 1000 1))

  -- The row of link `i`.
  unfoldable pub link_metrics : RawCounters → (elapsed_secs : F64) → ℕ → Option (LinkMetrics F64)
  link_metrics c elapsed_secs i = do
    samples ← get_elem? c.link_rtt_samples i
    rtt ← calculate_percentiles samples
    packets_sent ← get_elem? c.link_packets_sent i
    packets_acked ← get_elem? c.link_packets_acked i
    bytes_down ← get_elem? c.link_bytes_down i
    bytes_up ← get_elem? c.link_bytes_up i
    let loss = sub (lit 1 1) (div (of_u64 packets_acked) (of_u64 (max packets_sent 1)))
    some (record {
      link_id = i;
      throughput_down = div (of_u64 bytes_down) elapsed_secs;
      throughput_up = div (of_u64 bytes_up) elapsed_secs;
      rtt_avg_ms = rtt.avg;
      rtt_min_ms = rtt.low;
      rtt_max_ms = rtt.high;
      jitter_ms = if ltb 1 (length samples) then calculate_jitter samples else lit 0 1;
      packets_sent = packets_sent;
      packets_acked = packets_acked;
      loss_ratio = float_max loss (lit 0 1);
      is_active = ltb 0 packets_sent;
      bandwidth_estimate = div (of_u64 bytes_up) elapsed_secs;
    })

  -- The rows of `k` links, from link `i` on.
  unfoldable pub link_rows : RawCounters → F64 → (k i : ℕ) → Option (List (LinkMetrics F64))
  link_rows c elapsed_secs zero i = some []
  link_rows c elapsed_secs (suc k) i = do
    row ← link_metrics c elapsed_secs i
    rows ← link_rows c elapsed_secs k (i + 1)
    some (row ∷ rows)

  -- The metrics of the counters. `memory` is what the system reports.
  unfoldable pub metrics_of : RawCounters → (elapsed_ns timestamp memory : ℕ) → Option (Metrics F64)
  metrics_of c elapsed_ns timestamp memory =
      let elapsed_secs = float_max (as_secs elapsed_ns) (lit 1 1000) in
      let down = div (of_u64 c.bytes_down) elapsed_secs in
      let up = div (of_u64 c.bytes_up) elapsed_secs in
      let total_chunks = of_u64 (max c.chunks_received 1) in
      let n = length c.latency_samples in
      do
        latency ← calculate_percentiles c.latency_samples
        rows ← link_rows c elapsed_secs num_links 0
        some (record {
          timestamp = timestamp;
          throughput_down = down;
          throughput_up = up;
          throughput_down_mbps = div (mul down (lit 8 1)) (lit 1_000_000 1);
          throughput_up_mbps = div (mul up (lit 8 1)) (lit 1_000_000 1);
          bytes_sent = c.bytes_up;
          bytes_received = c.bytes_down;
          latency_avg_ms = latency.avg;
          latency_min_ms = latency.low;
          latency_max_ms = latency.high;
          latency_p50_ms = latency.p50;
          latency_p95_ms = latency.p95;
          latency_p99_ms = latency.p99;
          latency_p50_us = get_or c.latency_samples (n / 2) 0;
          latency_p99_us = get_or c.latency_samples (to_u64 (mul (of_u64 n) (lit 99 100))) 0;
          packets_sent = c.packets_sent;
          packets_received = c.packets_received;
          packets_lost = c.packets_lost;
          loss_ratio = div (of_u64 c.packets_lost) (of_u64 (max c.packets_sent 1));
          chunks_sent = c.chunks_sent;
          chunks_received = c.chunks_received;
          chunks_reordered = c.chunks_reordered;
          reorder_ratio = div (of_u64 c.chunks_reordered) total_chunks;
          gaps_detected = c.gaps_detected;
          gap_ratio = div (of_u64 c.gaps_detected) total_chunks;
          cpu_usage_percent = lit 0 1;
          memory_usage_bytes = memory;
          links = rows;
          active_flows = c.active_flows;
          single_link_flows = c.single_link_flows;
          multi_link_flows = c.multi_link_flows;
        })

  abbrev pub push_history :
      (max_history : ℕ) → List (Metrics F64) → Metrics F64 → List (Metrics F64)
  push_history max_history history metrics =
      (if leb max_history (length history) then drop 1 history else history) ++ metrics ∷ []

  -- The counters start again, also the flow counts; the window starts at `now`.
  unfoldable pub snapshot :
      MetricsCollector F64
      → (now timestamp memory : ℕ) → Option (Metrics F64 × MetricsCollector F64)
  snapshot m now timestamp memory = do
    metrics ← metrics_of m.counters (elapsed now m.counters.window_start) timestamp memory
    some (
      metrics,
      record m {
        counters = new_counters now;
        history = push_history m.max_history m.history metrics;
      },
    )

  unfoldable pub clear_history : MetricsCollector F64 → MetricsCollector F64
  clear_history m = record m { history = [] }
