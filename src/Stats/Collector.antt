-- ===== src/Stats/Collector.antt =====
-- `StatsCollector` over all links.
pub mod Separate
use chainlightning.Base.{ℕ, zero, suc, ◌+◌, List, [], ◌∷◌, Bool, if◌then◌else◌, map, modify, add64}
use chainlightning.Clock.{from_millis, from_secs}
use chainlightning.Floats.{Floats}
use chainlightning.Links.{num_links}
use chainlightning.Stats.Link.{
  LinkStats, link_record_tx, link_record_rx, link_record_ack, new_link_stats, link_record_rtt,
  update_bandwidth, update_health,
}

pub record StatsCollector (F : Type 0) : Type 0 where
  pub links : List (LinkStats F)
  pub ewma_alpha : F
  pub bandwidth_window : ℕ
  pub health_timeout : ℕ

module _ {F : Type 0} where
  abbrev on_link : (LinkStats F → LinkStats F) → ℕ → StatsCollector F → StatsCollector F
  on_link f link_id c = record c { links = modify f c.links link_id }

  unfoldable pub record_tx : (link_id bytes now : ℕ) → StatsCollector F → StatsCollector F
  record_tx link_id bytes now c = on_link (link_record_tx bytes now) link_id c

  unfoldable pub record_rx : (link_id bytes now : ℕ) → StatsCollector F → StatsCollector F
  record_rx link_id bytes now c = on_link (link_record_rx bytes now) link_id c

  unfoldable pub record_ack : (link_id bytes : ℕ) → StatsCollector F → StatsCollector F
  record_ack link_id bytes c = on_link (link_record_ack bytes) link_id c

  unfoldable pub bandwidths : StatsCollector F → List ℕ
  bandwidths c = map (λ (l : LinkStats F). l.bandwidth_bps) c.links

  unfoldable pub rtts : StatsCollector F → List ℕ
  rtts c = map (λ (l : LinkStats F). l.smoothed_rtt_us) c.links

  unfoldable pub health : StatsCollector F → List Bool
  health c = map (λ (l : LinkStats F). l.healthy) c.links

  abbrev sum_healthy : List (LinkStats F) → ℕ
  sum_healthy [] = 0
  sum_healthy (l ∷ ls) =
      let rest = sum_healthy ls in if l.healthy then add64 l.bandwidth_bps rest else rest

  unfoldable pub total_bandwidth : StatsCollector F → ℕ
  total_bandwidth c = sum_healthy c.links

module _ (fl : Floats) where
  open fl use {F64, lit}

  -- `(i..i + k).map(LinkStats::new)`.
  abbrev pub new_links : (now k i : ℕ) → List (LinkStats F64)
  new_links now zero i = []
  new_links now (suc k) i = new_link_stats fl now i ∷ new_links now k (i + 1)

  unfoldable pub new :
      (num_links : ℕ) (ewma_alpha : F64) (bandwidth_window_ms now : ℕ) → StatsCollector F64
  new num_links ewma_alpha bandwidth_window_ms now = record {
    links = new_links now num_links 0;
    ewma_alpha = ewma_alpha;
    bandwidth_window = from_millis bandwidth_window_ms;
    health_timeout = from_secs 5;
  }

  unfoldable pub default_collector : (now : ℕ) → StatsCollector F64
  unfolding new
  default_collector now = new num_links (lit 2 10) 1000 now

  unfoldable pub record_rtt : (link_id rtt_us : ℕ) → StatsCollector F64 → StatsCollector F64
  record_rtt link_id rtt_us c = on_link (link_record_rtt fl rtt_us c.ewma_alpha) link_id c

  unfoldable pub tick : (now : ℕ) → StatsCollector F64 → StatsCollector F64
  tick now c = record c {
    links =
        map (λ (l : LinkStats F64). update_health fl (update_bandwidth fl c.bandwidth_window now l))
          c.links;
  }

  pub data Event : Type 0 where
    tx : (link_id bytes now : ℕ) → Event
    rx : (link_id bytes now : ℕ) → Event
    rtt : (link_id rtt_us : ℕ) → Event
    ack : (link_id bytes : ℕ) → Event
    ticks : (now : ℕ) → Event

  unfoldable pub step : StatsCollector F64 → Event → StatsCollector F64
  step c (tx link_id bytes now) = record_tx link_id bytes now c
  step c (rx link_id bytes now) = record_rx link_id bytes now c
  step c (rtt link_id rtt_us) = record_rtt link_id rtt_us c
  step c (ack link_id bytes) = record_ack link_id bytes c
  step c (ticks now) = tick now c

  unfoldable pub run : StatsCollector F64 → List Event → StatsCollector F64
  unfolding step
  run c [] = c
  run c (e ∷ es) = run (step c e) es
