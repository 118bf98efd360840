-- ===== src/Metrics/Trace/History.antt =====
-- The bounded history of a collector against the unbounded list of its snapshots.
use chainlightning.Base.Latest.{
  latest, latest_snoc_long, latest_snoc_short, drop_one_empty, drop-nil,
}
use chainlightning.Base.{
  ℕ, ◌-◌, ◌≡◌, refl, ap, ◌∙◌, sym, List, [], ◌∷◌, ◌++◌, some, Bool-cases, inl, inr, arith, max, leb,
  leb→le, length, length-drop,
}
use chainlightning.Clock.{elapsed}
use chainlightning.Floats.{Floats}
use chainlightning.Metrics.State.{with_history, Metrics, new_counters}
use chainlightning.Metrics.Counters.Shape.{IsShaped, new_counters-IsShaped, record_one-IsShaped}
use chainlightning.Metrics.Snapshot.{snapshot, push_history, clear_history}
use chainlightning.Metrics.Snapshot.Ranks.{Scales, metrics_of_total}
use chainlightning.Metrics.Trace.{Event, records, snapshots, clears, Trace, step, run}

module _ (fl : Floats) where
  open fl use {F64}

  push_history-latest :
      (n : ℕ) (log : List (Metrics F64)) (x : Metrics F64)
      → push_history fl n (latest (max n 1) log) x ≡ latest (max n 1) (log ++ x ∷ [])
  push_history-latest n log x =
      let m = max n 1 in
      let kept = latest m log in
      let size : length kept ≡ length log - (length log - m) = length-drop (length log - m) log in
      elim (Bool-cases (leb n (length kept))) [
        | inl full ↦ rw full (elim (Bool-cases (leb m (length log))) [
          | inl long ↦ sym (latest_snoc_long m log x (leb→le m (length log) long) (ground arith))
          | inr short ↦
              let empty : length kept ≡ 0 = ground (arith, leb→le n (length kept) full) in
              ap (λ ys. ys ++ x ∷ []) (drop_one_empty kept empty)
              ∙ sym (latest_snoc_short m log x (ground arith))
        ])
        | inr room ↦ rw room (sym (latest_snoc_short m log x (ground arith)))
      ]

  -- The history is what is left of the snapshots taken since it was cleared.
  pub record Refines (max_history : ℕ) (t : Trace fl) : Type 0 where
    pub bounded : t.collector.history ≡ latest (max max_history 1) t.kept
    pub same_max : t.collector.max_history ≡ max_history
    pub shaped : IsShaped t.collector.counters

  step-Refines :
      (n : ℕ) (t : Trace fl) (e : Event fl)
      → Scales fl
      → Refines n t
      → (u : Trace fl) × (step fl t e ≡ some u) × Refines n u
  unfolding step snapshot clear_history
  step-Refines n t (records r) sc h = (
    _,
    refl,
    record {
      bounded = h.bounded;
      same_max = h.same_max;
      shaped = record_one-IsShaped r t.collector.counters h.shaped;
    },
  )
  step-Refines n t (snapshots now timestamp memory) sc h =
      let (metrics, e) =
        metrics_of_total fl t.collector.counters (elapsed now t.collector.counters.window_start)
          timestamp memory sc h.shaped in
      let u : Trace fl = record {
        collector = record (t.collector) {
          counters = new_counters now;
          history = push_history fl t.collector.max_history t.collector.history metrics;
        };
        taken = t.taken ++ metrics ∷ [];
        kept = t.kept ++ metrics ∷ [];
      } in
      (
        u,
        rw (e, snapshot) refl,
        record {
          bounded =
              ap (λ k. push_history fl k t.collector.history metrics) h.same_max
              ∙ ap (λ hs. push_history fl n hs metrics) h.bounded
              ∙ push_history-latest n t.kept metrics;
          same_max = h.same_max;
          shaped = new_counters-IsShaped now;
        },
      )
  step-Refines n t clears sc h = (
    _,
    refl,
    record { bounded = sym (drop-nil (0 - max n 1)); same_max = h.same_max; shaped = h.shaped },
  )

  run-Refines :
      (n : ℕ) (t : Trace fl) (es : List (Event fl))
      → Scales fl
      → Refines n t
      → (u : Trace fl) × (run fl t es ≡ some u) × Refines n u
  unfolding run
  run-Refines n t [] sc h = (t, refl, h)
  run-Refines n t (e ∷ es) sc h =
      let (u, one, k) = step-Refines n t e sc h in
      let (v, more, l) = run-Refines n u es sc k in (v, rw one more, l)

  -- A new collector with nothing taken of it.
  abbrev pub start : (max_history now : ℕ) → Trace fl
  start max_history now = record { collector = with_history max_history now; taken = []; kept = [] }

  -- If scaling by the fractions 0.50, 0.95 and 0.99 does not exceed the count, then no history of
  -- what is counted, snapshots and clearings makes a new collector panic; its history holds the
  -- last `max_history` snapshots taken since the last clearing, in their order, or the last one
  -- where `max_history` is 0; and each array of the counters has an entry for each link.
  pub collector_refines :
      (max_history now : ℕ) (es : List (Event fl))
      → Scales fl
      → (t : Trace fl) × (run fl (start max_history now) es ≡ some t)
        × (t.collector.history ≡ latest (max max_history 1) t.kept)
        × IsShaped t.collector.counters
  unfolding with_history
  collector_refines max_history now es sc =
      let (t, e, h) = run-Refines max_history (start max_history now) es sc (record {
        bounded = sym (drop-nil (0 - max max_history 1));
        same_max = refl;
        shaped = new_counters-IsShaped now;
      }) in
      (t, e, h.bounded, h.shaped)
