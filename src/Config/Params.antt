-- ===== src/Config/Params.antt =====
-- The parameters that an A/B test reads and writes by their path.
pub mod RoundTrip
use Prim.Native.String.{String, ◌++◌}
use text.Mathlib.Text.{◌==◌}
use chainlightning.Base.{ℕ, Option, none, some, Bool, if◌then◌else◌}
use chainlightning.Floats.{Floats}
use chainlightning.Config.State.{Config, Result, ok, err, validation_error, validate}

pub data ParameterValue (F : Type 0) : Type 0 where
  float : F → ParameterValue F
  uint : ℕ → ParameterValue F
  usize : ℕ → ParameterValue F
  bool : Bool → ParameterValue F
  string : String → ParameterValue F

module _ {F : Type 0} where
  unfoldable pub get_parameter : Config F → String → Option (ParameterValue F)
  get_parameter c path =
      if path == "flow_classifier.single_link_threshold"
      then some (float c.flow_classifier.single_link_threshold)
      else if path == "flow_classifier.multi_link_threshold"
      then some (float c.flow_classifier.multi_link_threshold)
      else if path == "flow_classifier.monitor_duration_ms"
      then some (uint c.flow_classifier.monitor_duration_ms)
      else if path == "chunk_aggregator.min_chunk_size"
      then some (usize c.chunk_aggregator.min_chunk_size)
      else if path == "chunk_aggregator.max_chunk_size"
      then some (usize c.chunk_aggregator.max_chunk_size)
      else if path == "chunk_aggregator.bdp_multiplier"
      then some (float c.chunk_aggregator.bdp_multiplier)
      else if path == "receiver.reorder_timeout_ms"
      then some (uint c.receiver.reorder_timeout_ms)
      else if path == "link_scheduler.sync_interval_ms"
      then some (uint c.link_scheduler.sync_interval_ms)
      else if path == "announcer.enabled"
      then some (string c.announcer.enabled)
      else none

  -- The `match` on the path and the value: the configuration with the value put in.
  unfoldable pub assign : Config F → String → ParameterValue F → Option (Config F)
  assign c path (float v) =
      if path == "flow_classifier.single_link_threshold"
      then some
          (record c { flow_classifier = record (c.flow_classifier) { single_link_threshold = v } })
      else if path == "flow_classifier.multi_link_threshold"
      then some
          (record c { flow_classifier = record (c.flow_classifier) { multi_link_threshold = v } })
      else if path == "chunk_aggregator.bdp_multiplier"
      then some (record c { chunk_aggregator = record (c.chunk_aggregator) { bdp_multiplier = v } })
      else none
  assign c path (uint v) =
      if path == "flow_classifier.monitor_duration_ms"
      then some
          (record c { flow_classifier = record (c.flow_classifier) { monitor_duration_ms = v } })
      else if path == "receiver.reorder_timeout_ms"
      then some (record c { receiver = record (c.receiver) { reorder_timeout_ms = v } })
      else if path == "link_scheduler.sync_interval_ms"
      then some (record c { link_scheduler = record (c.link_scheduler) { sync_interval_ms = v } })
      else none
  assign c path (usize v) =
      if path == "chunk_aggregator.min_chunk_size"
      then some (record c { chunk_aggregator = record (c.chunk_aggregator) { min_chunk_size = v } })
      else if path == "chunk_aggregator.max_chunk_size"
      then some (record c { chunk_aggregator = record (c.chunk_aggregator) { max_chunk_size = v } })
      else none
  assign c path (bool v) = none
  assign c path (string v) =
      if path == "announcer.enabled"
      then some (record c { announcer = record (c.announcer) { enabled = v } })
      else none

module _ (fl : Floats) where
  open fl use {F64}

  -- The result, and the configuration behind `&mut self`, which keeps an assigned value also where
  -- `validate` then refuses it.
  unfoldable pub set_parameter :
      Config F64 → String → ParameterValue F64 → Result (Unit {0}) × Config F64
  unfolding assign validate
  set_parameter c path value = elim (assign c path value) [
    | none ↦ (err (validation_error ("Unknown parameter or type mismatch: " ++ path)), c)
    | some d ↦ (validate fl d, d)
  ]
