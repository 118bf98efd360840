-- ===== src/Metrics/Snapshot/Ranks.antt =====
-- The ranks of the percentiles stay within the samples, so a snapshot does not panic.
use chainlightning.Base.{
  ℕ, zero, suc, ◌+◌, ◌-◌, ◌≤◌, ◌<◌, ◌≡◌, refl, ap, ◌∙◌, inl, inr, List, [], ◌∷◌, some, Bool-cases,
  arith, length, get_elem?, length-map, get_elem?-some,
}
use chainlightning.Floats.{Floats}
use chainlightning.Links.{num_links}
use chainlightning.Metrics.State.{LinkMetrics, Metrics, RawCounters}
use chainlightning.Metrics.Counters.Shape.{IsShaped}
use chainlightning.Metrics.Snapshot.{
  Percentiles, insert_sorted, sort_floats, in_ms, rank, read_percentiles, sum_from, float_max,
  calculate_percentiles, link_metrics, link_rows, metrics_of,
}

-- Scaling a count by one of the three fractions and truncating does not exceed the count.
pub record Scales (fl : Floats) : Type 0 where
  pub half : (n : ℕ) → fl.to_u64 (fl.mul (fl.of_u64 n) (fl.lit 50 100)) ≤ n
  pub most : (n : ℕ) → fl.to_u64 (fl.mul (fl.of_u64 n) (fl.lit 95 100)) ≤ n
  pub nearly_all : (n : ℕ) → fl.to_u64 (fl.mul (fl.of_u64 n) (fl.lit 99 100)) ≤ n

module _ (fl : Floats) where
  open fl use {F64, lit, le}

  length-insert_sorted :
      (x : F64) (xs : List F64) → length (insert_sorted fl x xs) ≡ suc (length xs)
  unfolding insert_sorted
  length-insert_sorted x [] = refl
  length-insert_sorted x (z ∷ zs) = elim (Bool-cases (le x z)) [
    | inl small ↦ rw small refl
    | inr large ↦ rw large (ap suc (length-insert_sorted x zs))
  ]

  length-sort_floats : (xs : List F64) → length (sort_floats fl xs) ≡ length xs
  unfolding sort_floats
  length-sort_floats [] = refl
  length-sort_floats (x ∷ xs) =
      length-insert_sorted x (sort_floats fl xs) ∙ ap suc (length-sort_floats xs)

  pub length-sorted :
      (samples : List ℕ) → length (sort_floats fl (in_ms fl samples)) ≡ length samples
  length-sorted samples = length-sort_floats (in_ms fl samples) ∙ length-map _ samples

  read_percentiles-some :
      (sorted : List F64) (n : ℕ) (low high p50 p95 p99 : F64)
      → length sorted ≡ n
      → get_elem? sorted 0 ≡ some low
      → get_elem? sorted (n - 1) ≡ some high
      → get_elem? sorted (rank fl n (lit 50 100)) ≡ some p50
      → get_elem? sorted (rank fl n (lit 95 100)) ≡ some p95
      → get_elem? sorted (rank fl n (lit 99 100)) ≡ some p99
      → read_percentiles fl sorted
        ≡ some (record {
          avg = fl.div (sum_from fl (lit 0 1) sorted) (fl.of_u64 n);
          low = low;
          high = high;
          p50 = p50;
          p95 = p95;
          p99 = p99;
        })
  unfolding read_percentiles
  read_percentiles-some sorted n low high p50 p95 p99 m a b c d e = rw (m, a, b, c, d, e) refl

  -- What is read from the sorted samples, and where.
  pub record Reads (samples : List ℕ) (p : Percentiles F64) : Type 0 where
    pub low : get_elem? (sort_floats fl (in_ms fl samples)) 0 ≡ some p.low
    pub high : get_elem? (sort_floats fl (in_ms fl samples)) (length samples - 1) ≡ some p.high
    pub p50 :
        get_elem? (sort_floats fl (in_ms fl samples)) (rank fl (length samples) (lit 50 100))
        ≡ some p.p50
    pub p95 :
        get_elem? (sort_floats fl (in_ms fl samples)) (rank fl (length samples) (lit 95 100))
        ≡ some p.p95
    pub p99 :
        get_elem? (sort_floats fl (in_ms fl samples)) (rank fl (length samples) (lit 99 100))
        ≡ some p.p99

  pub calculate_percentiles-Reads :
      (s : ℕ) (samples : List ℕ)
      → Scales fl
      → (p : Percentiles F64) × (calculate_percentiles fl (s ∷ samples) ≡ some p)
        × Reads (s ∷ samples) p
  unfolding calculate_percentiles
  calculate_percentiles-Reads s samples sc =
      let all = s ∷ samples in
      let sorted = sort_floats fl (in_ms fl all) in
      let n : length sorted ≡ length all = length-sorted all in
      let (low, low_at) = get_elem?-some sorted 0 (omega arith) in
      let (high, high_at) = get_elem?-some sorted (length all - 1) (omega arith) in
      let (p50, p50_at) =
        get_elem?-some sorted (rank fl (length all) (lit 50 100))
          (omega (arith, sc.half (length all - 1))) in
      let (p95, p95_at) =
        get_elem?-some sorted (rank fl (length all) (lit 95 100))
          (omega (arith, sc.most (length all - 1))) in
      let (p99, p99_at) =
        get_elem?-some sorted (rank fl (length all) (lit 99 100))
          (omega (arith, sc.nearly_all (length all - 1))) in
      (
        _,
        read_percentiles-some sorted (length all) low high p50 p95 p99 n low_at high_at p50_at
            p95_at p99_at,
        record { low = low_at; high = high_at; p50 = p50_at; p95 = p95_at; p99 = p99_at },
      )

  calculate_percentiles_total :
      (samples : List ℕ)
      → Scales fl
      → (p : Percentiles F64) × (calculate_percentiles fl samples ≡ some p)
  unfolding calculate_percentiles
  calculate_percentiles_total [] sc = (_, refl)
  calculate_percentiles_total (s ∷ samples) sc =
      let (p, e, m) = calculate_percentiles-Reads s samples sc in (p, e)

  link_metrics_total :
      (c : RawCounters) (secs : F64) (i : ℕ)
      → Scales fl
      → IsShaped c
      → i < num_links
      → (row : LinkMetrics F64) × (link_metrics fl c secs i ≡ some row)
  unfolding link_metrics
  link_metrics_total c secs i sc h lt =
      let (samples, e0) = get_elem?-some c.link_rtt_samples i (omega arith) in
      let (p, e1) = calculate_percentiles_total samples sc in
      let (sent, e2) = get_elem?-some c.link_packets_sent i (omega arith) in
      let (acked, e3) = get_elem?-some c.link_packets_acked i (omega arith) in
      let (down, e4) = get_elem?-some c.link_bytes_down i (omega arith) in
      let (up, e5) = get_elem?-some c.link_bytes_up i (omega arith) in
      rw (e0, e1, e2, e3, e4, e5) (_, refl)

  link_rows_total :
      (c : RawCounters) (secs : F64) (k i : ℕ)
      → Scales fl
      → IsShaped c
      → k + i ≤ num_links
      → (rows : List (LinkMetrics F64)) × (link_rows fl c secs k i ≡ some rows)
  unfolding link_rows
  link_rows_total c secs zero i sc h le = ([], refl)
  link_rows_total c secs (suc k) i sc h le =
      let (row, e0) = link_metrics_total c secs i sc h (omega arith) in
      let (rows, e1) = link_rows_total c secs k (i + 1) sc h (omega arith) in
      (row ∷ rows, simp (e0, e1))

  pub metrics_of_total :
      (c : RawCounters) (elapsed_ns timestamp memory : ℕ)
      → Scales fl
      → IsShaped c
      → (metrics : Metrics F64) × (metrics_of fl c elapsed_ns timestamp memory ≡ some metrics)
  unfolding metrics_of
  metrics_of_total c elapsed_ns timestamp memory sc h =
      let secs = float_max fl (fl.as_secs elapsed_ns) (lit 1 1000) in
      let (p, e0) = calculate_percentiles_total c.latency_samples sc in
      let (rows, e1) = link_rows_total c secs num_links 0 sc h (omega arith) in
      rw (e0, e1) (_, refl)
