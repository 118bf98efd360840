-- ===== src/Config/State.antt =====
-- `Config` with its parts, `ConfigError` and `Config::validate`.
use Prim.Native.String.{String}
use chainlightning.Base.{ℕ, ◌≡◌, refl, ◌⊎◌, inl, inr, List, Bool, ◌||◌, ltb, if◌then◌else◌}
use chainlightning.Floats.{Floats}
use chainlightning.Aggregator.Ops.{ChunkAggregatorConfig}
use chainlightning.Classifier.{FlowClassifierConfig}
use chainlightning.RateController.State.{RateControlConfig}
use chainlightning.Receiver.Buffer.{ReceiverConfig}
use chainlightning.Scheduler.State.{LinkSchedulerConfig}

pub record AnnouncerConfig : Type 0 where
  pub enabled : String
  pub lookahead_count : ℕ
  pub safety_margin_us : ℕ

pub record StatsConfig (F : Type 0) : Type 0 where
  pub ewma_alpha : F
  pub probe_interval_ms : ℕ
  pub bandwidth_window_ms : ℕ

pub record TestingConfig : Type 0 where
  pub ab_testing_enabled : Bool
  pub metrics_interval_ms : ℕ
  pub log_metrics : Bool
  pub metrics_log_path : String

pub record LoggingConfig : Type 0 where
  pub debug_enabled : Bool
  pub log_scheduler : Bool
  pub log_flows : Bool
  pub log_chunks : Bool
  pub log_stats : Bool
  pub log_rtt : Bool
  pub log_file_path : String
  pub log_rotation_mb : ℕ

pub record RealtimeConfig : Type 0 where
  pub realtime_udp_ports : List ℕ
  pub realtime_tcp_ports : List ℕ
  pub max_realtime_packet_size : ℕ
  pub force_adsl_only : Bool

pub record Config (F : Type 0) : Type 0 where
  pub flow_classifier : FlowClassifierConfig F
  pub chunk_aggregator : ChunkAggregatorConfig F
  pub link_scheduler : LinkSchedulerConfig F
  pub announcer : AnnouncerConfig
  pub receiver : ReceiverConfig
  pub stats : StatsConfig F
  pub testing : TestingConfig
  pub logging : LoggingConfig
  pub realtime : RealtimeConfig
  pub rate_control : RateControlConfig F

pub data ConfigError : Type 0 where
  io_error parse_error validation_error : String → ConfigError

-- `Result<A, ConfigError>`.
pub data Result {ℓ} (A : Type ℓ) : Type ℓ where
  ok : A → Result A
  err : ConfigError → Result A

pub Result-cases {ℓ} :
    {A : Type ℓ} (r : Result A) → ((e : ConfigError) × (r ≡ err e)) ⊎ ((a : A) × (r ≡ ok a))
Result-cases (ok a) = inr (a, refl)
Result-cases (err e) = inl (e, refl)

infixl 5 ◌>>=◌
-- The `?` operator.
abbrev pub ◌>>=◌ {ℓ κ} : {A : Type ℓ} {B : Type κ} → Result A → (A → Result B) → Result B
ok a >>= f = f a
err e >>= f = err e

module _ (fl : Floats) where
  open fl use {F64, lit, lt, le}

  unfoldable pub validate : Config F64 → Result (Unit {0})
  validate c =
      let single = c.flow_classifier.single_link_threshold in
      if le single (lit 0 1) || le (lit 1 1) single
      then err (validation_error "single_link_threshold must be between 0 and 1")
      else if le c.flow_classifier.multi_link_threshold single
      then err (validation_error "multi_link_threshold must be greater than single_link_threshold")
      else if ltb c.chunk_aggregator.max_chunk_size c.chunk_aggregator.min_chunk_size
      then err (validation_error "min_chunk_size must be <= max_chunk_size")
      else if le c.stats.ewma_alpha (lit 0 1) || le (lit 1 1) c.stats.ewma_alpha
      then err (validation_error "ewma_alpha must be between 0 and 1")
      else ok tt
