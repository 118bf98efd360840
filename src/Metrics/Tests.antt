-- ===== src/Metrics/Tests.antt =====
-- The metrics on a short history.
use chainlightning.Base.{ℕ, ◌%◌, ◌^◌, ◌≡◌, List, [], ◌∷◌, some, arith, max}
use chainlightning.Floats.{millionths}
use chainlightning.Metrics.Counters.{packet_tx, chunk_tx, packet_sent, latency, link_rtt}
use chainlightning.Metrics.Counters.Shape.{IsShaped}
use chainlightning.Metrics.Snapshot.{Percentiles, calculate_percentiles}
use chainlightning.Metrics.Snapshot.Ranks.{Scales}
use chainlightning.Metrics.Snapshot.Order.{Orders, HasRank, calculate_percentiles-HasRank}
use chainlightning.Metrics.Trace.{Event, records, snapshots, clears, Trace, run}
use chainlightning.Base.Latest.{latest}
use chainlightning.Metrics.Trace.History.{start, collector_refines}
use chainlightning.Metrics.Trace.Conserve.{Count, held, total_counted, collector_conserves}

millionths-Scales : Scales millionths
millionths-Scales = record {
  half = λ n. omega arith;
  most = λ n. omega arith;
  nearly_all = λ n. omega arith;
}

abbrev short_history : List (Event millionths)
short_history =
    records (packet_tx 100)
    ∷ records (latency 40)
    ∷ records (link_rtt 3 20)
    ∷ snapshots 1_000_000 5 4096
    ∷ records (packet_sent 7)
    ∷ clears
    ∷ records (chunk_tx 50)
    ∷ snapshots 2_000_000 6 4096
    ∷ snapshots 3_000_000 7 4096
    ∷ snapshots 4_000_000 8 4096
    ∷ records (chunk_tx 60)
    ∷ []

collector_refines_example :
    (t : Trace millionths) × (run millionths (start millionths 2 0) short_history ≡ some t)
    × (t.collector.history ≡ latest (max 2 1) t.kept)
    × IsShaped t.collector.counters
collector_refines_example = collector_refines millionths 2 0 short_history millionths-Scales

collector_conserves_example :
    (t : Trace millionths) × (run millionths (start millionths 2 0) short_history ≡ some t)
    × ((k : Count)
        → held millionths k t % 2 ^ 64 ≡ total_counted millionths k short_history % 2 ^ 64)
collector_conserves_example = collector_conserves millionths 2 0 short_history millionths-Scales

millionths-Orders : Orders millionths
millionths-Orders = record {
  total = λ a b h. ground (arith, h);
  transitive = λ a b c h k. ground (arith, h, k);
}

calculate_percentiles-HasRank_example :
    let all : List ℕ = 30 ∷ 10 ∷ 20 ∷ [] in
    (p : Percentiles ℕ) × (calculate_percentiles millionths all ≡ some p)
    × HasRank millionths p.low 0 all
    × HasRank millionths p.high 2 all
    × HasRank millionths p.p50 1 all
    × HasRank millionths p.p95 1 all
    × HasRank millionths p.p99 1 all
calculate_percentiles-HasRank_example =
    calculate_percentiles-HasRank millionths 30 (10 ∷ 20 ∷ []) millionths-Scales millionths-Orders
