-- ===== src/Classifier.antt =====
-- core/src/flow_classifier.rs: which flows use one link and which use all. `HashMap` is a function.
-- The clock's zero lies further back than any duration that is subtracted from the time.
pub mod Modes
pub mod Sustained
mod Tests
use chainlightning.Base.{
  ℕ, ◌+◌, ◌-◌, List, [], ◌∷◌, ◌++◌, Option, none, some, Bool, ◌&&◌, ltb, leb, ◌==◌, if◌then◌else◌,
  max, length, get_or, add64,
}
use chainlightning.Clock.{from_millis, from_secs, elapsed}
use chainlightning.Floats.{Floats}
use chainlightning.Wire.Flow.{from_packet}
use chainlightning.Scheduler.State.{max_index, first_of}
use chainlightning.Scheduler.Select.{or_zero}

-- `FlowClassifierConfig` of common/src/config.rs.
pub record FlowClassifierConfig (F : Type 0) : Type 0 where
  pub single_link_threshold : F
  pub multi_link_threshold : F
  pub monitor_duration_ms : ℕ
  pub flow_window_ms : ℕ
  pub flow_expiry_ms : ℕ

pub data FlowMode : Type 0 where
  single_link : (link_id : ℕ) → FlowMode
  multi_link : FlowMode

pub record FlowState : Type 0 where
  pub flow_id : ℕ
  pub mode : FlowMode
  pub bytes_seen : ℕ
  pub packets_seen : ℕ
  pub first_seen : ℕ
  pub last_seen : ℕ
  pub bandwidth_samples : List (ℕ × ℕ)
  pub time_above_threshold : ℕ
  pub exceeded_threshold_at : Option ℕ

-- `FlowState::new` at the time `now`.
abbrev pub new_flow : (flow_id fastest_link now : ℕ) → FlowState
new_flow flow_id fastest_link now = record {
  flow_id = flow_id;
  mode = single_link fastest_link;
  bytes_seen = 0;
  packets_seen = 0;
  first_seen = now;
  last_seen = now;
  bandwidth_samples = [];
  time_above_threshold = 0;
  exceeded_threshold_at = none;
}

-- The samples after `cutoff`, and their bytes.
unfoldable pub recent : ℕ → List (ℕ × ℕ) → List (ℕ × ℕ)
recent cutoff [] = []
recent cutoff ((t, bytes) ∷ samples) =
    let rest = recent cutoff samples in if ltb cutoff t then (t, bytes) ∷ rest else rest

unfoldable pub sum_bytes : List (ℕ × ℕ) → ℕ
sum_bytes [] = 0
sum_bytes ((t, bytes) ∷ samples) = add64 bytes (sum_bytes samples)

unfoldable pub record_bytes : (bytes now : ℕ) → FlowState → FlowState
unfolding recent
record_bytes bytes now flow = record flow {
  bytes_seen = add64 flow.bytes_seen bytes;
  packets_seen = add64 flow.packets_seen 1;
  last_seen = now;
  bandwidth_samples = recent (now - from_secs 5) (flow.bandwidth_samples ++ (now, bytes) ∷ []);
}

abbrev pub or_now : Option ℕ → ℕ → ℕ
or_now none now = now
or_now (some t) now = t

unfoldable pub sum_all : List ℕ → ℕ
sum_all [] = 0
sum_all (bw ∷ bws) = add64 bw (sum_all bws)

unfoldable pub fastest : List ℕ → ℕ
unfolding max_index
fastest bandwidths = or_zero (first_of (max_index 0 bandwidths none))

abbrev pub keep_recent : (now expiry : ℕ) → Option FlowState → Option FlowState
keep_recent now expiry none = none
keep_recent now expiry (some flow) =
    if ltb (elapsed now flow.last_seen) expiry then some flow else none

pub record FlowClassifier (F : Type 0) : Type 0 where
  pub flows : ℕ → Option FlowState
  pub config : FlowClassifierConfig F
  pub link_bandwidths : List ℕ
  pub fastest_link : ℕ
  pub total_bandwidth : ℕ

module _ {F : Type 0} where
  unfoldable pub new : FlowClassifierConfig F → List ℕ → FlowClassifier F
  unfolding fastest sum_all
  new config link_bandwidths = record {
    flows = λ _. none;
    config = config;
    link_bandwidths = link_bandwidths;
    fastest_link = fastest link_bandwidths;
    total_bandwidth = sum_all link_bandwidths;
  }

  unfoldable pub update_bandwidths : List ℕ → FlowClassifier F → FlowClassifier F
  unfolding fastest sum_all
  update_bandwidths bandwidths k = record k {
    link_bandwidths = bandwidths;
    fastest_link = fastest bandwidths;
    total_bandwidth = sum_all bandwidths;
  }

  unfoldable pub expire_flows : ℕ → FlowClassifier F → FlowClassifier F
  expire_flows now k = record k {
    flows = λ id. keep_recent now (from_millis k.config.flow_expiry_ms) (k.flows id);
  }

module _ (fl : Floats) where
  open fl use {F64, lit, of_u64, to_u64, div, lt}

  unfoldable pub estimated_bandwidth : (window now : ℕ) → FlowState → ℕ
  unfolding recent sum_bytes
  estimated_bandwidth window now flow =
      let cutoff = if leb window now then now - window else now in
      let secs = fl.as_secs (elapsed now cutoff) in
      if lt (lit 0 1) secs
      then to_u64 (div (of_u64 (sum_bytes (recent cutoff flow.bandwidth_samples))) secs)
      else 0

  -- The decision, by the mode before.
  unfoldable pub decide :
      FlowClassifierConfig F64 → F64 → (fastest_link now : ℕ) → FlowMode → FlowState → FlowState
  decide c ratio fastest_link now (single_link link_id) flow =
      let at = or_now flow.exceeded_threshold_at now in
      if lt c.single_link_threshold ratio
      then (if lt c.multi_link_threshold ratio
            && leb (from_millis c.monitor_duration_ms) (elapsed now at)
          then record flow { mode = multi_link; exceeded_threshold_at = none }
          else record flow { exceeded_threshold_at = some at })
      else record flow { exceeded_threshold_at = none }
  decide c ratio fastest_link now multi_link flow =
      let at = or_now flow.exceeded_threshold_at now in
      if lt ratio c.single_link_threshold
      then (if leb (from_millis c.monitor_duration_ms) (elapsed now at)
          then record flow { mode = single_link fastest_link; exceeded_threshold_at = none }
          else record flow { exceeded_threshold_at = some at })
      else record flow { exceeded_threshold_at = none }

  abbrev pub or_new : Option FlowState → FlowState → FlowState
  or_new none fresh = fresh
  or_new (some flow) fresh = flow

  -- What a packet does to its flow.
  unfoldable pub observe : FlowClassifier F64 → (bytes now : ℕ) → FlowState → FlowState
  unfolding record_bytes estimated_bandwidth decide
  observe k bytes now flow =
      let fastest_bw = get_or k.link_bandwidths k.fastest_link 1 in
      let seen = record_bytes bytes now flow in
      let flow_bw = estimated_bandwidth (from_millis k.config.flow_window_ms) now seen in
      decide k.config (div (of_u64 flow_bw) (of_u64 (max fastest_bw 1))) k.fastest_link now
        seen.mode seen

  unfoldable pub classify_flow :
      ℕ → (bytes now : ℕ) → FlowClassifier F64 → FlowMode × FlowClassifier F64
  unfolding observe
  classify_flow flow_id bytes now k =
      let flow =
        observe k bytes now (or_new (k.flows flow_id) (new_flow flow_id k.fastest_link now)) in
      (flow.mode, record k { flows = λ id. if id == flow_id then some flow else k.flows id })

  abbrev pub classify_found :
      Option ℕ → (bytes now : ℕ) → FlowClassifier F64 → FlowMode × FlowClassifier F64
  unfolding classify_flow
  classify_found none bytes now k = (multi_link, k)
  classify_found (some flow_id) bytes now k = classify_flow flow_id bytes now k

  unfoldable pub classify : List ℕ → ℕ → FlowClassifier F64 → FlowMode × FlowClassifier F64
  unfolding from_packet
  classify packet now k = classify_found (from_packet packet) (length packet) now k
