-- ===== src/Scheduler/State.antt =====
-- `LinkState`, `LinkScheduler` and the configuration that they read.
use Prim.Native.String.{String}
use chainlightning.Base.{
  ℕ, ◌+◌, ◌*◌, ◌/◌, ◌%◌, ◌^◌, List, [], ◌∷◌, Option, none, some, Bool, ltb, leb, ◌==◌,
  if◌then◌else◌, max, add64, add32,
}
use chainlightning.Clock.{from_secs}
use chainlightning.Floats.{Floats}

pub data LinkHealth : Type 0 where
  normal degraded : LinkHealth

-- `delay` in nanoseconds.
pub record ScheduleDecision : Type 0 where
  pub link_id : ℕ
  pub delay : ℕ
  pub participating_links : List ℕ

pub record LinkState : Type 0 where
  pub id : ℕ
  pub configured_bandwidth_bps : ℕ
  pub measured_bandwidth_bps : ℕ
  pub weight : ℕ
  pub bytes_sent : ℕ
  pub bytes_delivered : ℕ
  pub rtt_us : ℕ
  pub health : LinkHealth
  pub last_update : ℕ
  pub window_start : ℕ

-- `LinkTierConfig` of common/src/config.rs.
pub record LinkTierConfig (F : Type 0) : Type 0 where
  pub link_id : ℕ
  pub priority : ℕ
  pub capacity_down_bps : ℕ
  pub capacity_up_bps : ℕ
  pub utilization_threshold : F
  pub realtime_eligible : Bool
  pub link_type : String

-- `LinkSchedulerConfig` of common/src/config.rs.
pub record LinkSchedulerConfig (F : Type 0) : Type 0 where
  pub sync_interval_ms : ℕ
  pub max_send_delay_ms : ℕ
  pub enable_sync : Bool
  pub strategy : String
  pub link_tiers : List (LinkTierConfig F)
  pub flow_affinity : Bool
  pub flow_affinity_timeout_secs : ℕ

pub record LinkScheduler (F : Type 0) : Type 0 where
  pub config : LinkSchedulerConfig F
  pub links : List LinkState
  pub cursor : ℕ
  pub total_weight : ℕ
  pub measurement_window : ℕ
  pub adjustment_interval : ℕ
  pub last_adjustment : ℕ
  pub preferred_link : Option ℕ
  pub last_link_change : ℕ
  pub is_upload : Bool

-- 1 Mbps, 125000 bytes a second, is one unit; `as u32` keeps 32 bits.
unfoldable pub bandwidth_to_weight : ℕ → ℕ
bandwidth_to_weight bps = max (bps / 125_000) 1 % 2 ^ 32

unfoldable pub new_link : ℕ → ℕ → ℕ → LinkState
new_link id configured_bandwidth_bps now = record {
  id = id;
  configured_bandwidth_bps = configured_bandwidth_bps;
  measured_bandwidth_bps = configured_bandwidth_bps;
  weight = bandwidth_to_weight configured_bandwidth_bps;
  bytes_sent = 0;
  bytes_delivered = 0;
  rtt_us = 0;
  health = normal;
  last_update = now;
  window_start = now;
}

unfoldable pub effective_bandwidth : LinkState → ℕ
effective_bandwidth l =
    if ltb 0 l.measured_bandwidth_bps then l.measured_bandwidth_bps else l.configured_bandwidth_bps

unfoldable pub record_sent : ℕ → LinkState → LinkState
record_sent bytes l = record l { bytes_sent = add64 l.bytes_sent bytes }

unfoldable pub record_delivered : ℕ → LinkState → LinkState
record_delivered bytes l = record l { bytes_delivered = add64 l.bytes_delivered bytes }

-- Nanoseconds: `Duration::from_micros(rtt_us / 2)`.
unfoldable pub one_way_latency : LinkState → ℕ
one_way_latency l = l.rtt_us / 2 * 1000

module _ (fl : Floats) where
  open fl use {F64, lit, of_u64, to_u64, add, sub, mul}

  -- (alpha * new as f64 + (1.0 - alpha) * old as f64) as u64.
  unfoldable pub ewma : F64 → ℕ → ℕ → ℕ
  ewma alpha new old =
      to_u64 (add (mul alpha (of_u64 new)) (mul (sub (lit 1 1) alpha) (of_u64 old)))

  unfoldable pub update_rtt : ℕ → LinkState → LinkState
  unfolding ewma
  update_rtt rtt_us l =
      if rtt_us == 0
      then l
      else if l.rtt_us == 0
      then record l { rtt_us = rtt_us }
      else record l { rtt_us = ewma (lit 125 1000) rtt_us l.rtt_us }

-- The sum of the weights in 32 bits, and at least 1.
unfoldable pub sum_weights : List LinkState → ℕ
sum_weights [] = 0
sum_weights (l ∷ ls) = add32 l.weight (sum_weights ls)

unfoldable pub total_of : List LinkState → ℕ
unfolding sum_weights
total_of ls = max (sum_weights ls) 1

-- `max_by_key` keeps the last of the greatest elements.
unfoldable pub max_index : ℕ → List ℕ → Option (ℕ × ℕ) → Option (ℕ × ℕ)
max_index i [] best = best
max_index i (bw ∷ bws) none = max_index (i + 1) bws (some (i, bw))
max_index i (bw ∷ bws) (some (j, top)) =
    max_index (i + 1) bws (if leb top bw then some (i, bw) else some (j, top))

abbrev pub first_of : Option (ℕ × ℕ) → Option ℕ
first_of none = none
first_of (some (i, _)) = some i

unfoldable pub new_links : ℕ → List ℕ → ℕ → List LinkState
unfolding new_link
new_links i [] now = []
new_links i (bw ∷ bws) now = new_link i bw now ∷ new_links (i + 1) bws now

module _ {F : Type 0} where
  -- `LinkScheduler::new` at the time `now`.
  unfoldable pub new : LinkSchedulerConfig F → List ℕ → Bool → ℕ → LinkScheduler F
  unfolding new_links total_of max_index
  new config configured_bandwidths is_upload now =
      let links = new_links 0 configured_bandwidths now in
      record {
        config = config;
        links = links;
        cursor = 0;
        total_weight = total_of links;
        measurement_window = from_secs 2;
        adjustment_interval = from_secs 1;
        last_adjustment = now;
        preferred_link = first_of (max_index 0 configured_bandwidths none);
        last_link_change = now;
        is_upload = is_upload;
      }
