-- ===== src/Metrics/Trace.antt =====
-- Histories of a collector: what is counted, the snapshots, and the clearing of the history.
pub mod History
pub mod Conserve
use chainlightning.Base.{ℕ, List, [], ◌∷◌, ◌++◌, Option, some, ◌>>=◌}
use chainlightning.Floats.{Floats}
use chainlightning.Metrics.State.{Metrics, MetricsCollector}
use chainlightning.Metrics.Counters.{Recording, record_one}
use chainlightning.Metrics.Snapshot.{snapshot, clear_history}

module _ (fl : Floats) where
  open fl use {F64}

  -- What happens to a collector.
  pub data Event : Type 0 where
    records : Recording → Event
    snapshots : (now timestamp memory : ℕ) → Event
    clears : Event

  -- A collector, all snapshots taken of it, and those taken since the history was cleared.
  pub record Trace : Type 0 where
    pub collector : MetricsCollector F64
    pub taken : List (Metrics F64)
    pub kept : List (Metrics F64)

  unfoldable pub step : Trace → Event → Option Trace
  step t (records r) = some (record t {
    collector = record (t.collector) { counters = record_one r t.collector.counters };
  })
  step t (snapshots now timestamp memory) = do
    (metrics, m) ← snapshot fl t.collector now timestamp memory
    some (record { collector = m; taken = t.taken ++ metrics ∷ []; kept = t.kept ++ metrics ∷ [] })
  step t clears = some (record t { collector = clear_history fl t.collector; kept = [] })

  unfoldable pub run : Trace → List Event → Option Trace
  run t [] = some t
  run t (e ∷ es) = step t e >>= λ u. run u es
