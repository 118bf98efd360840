-- ===== src/Metrics/Trace/Conserve.antt =====
-- Nothing that is counted is lost, or counted twice, between the snapshots.
use chainlightning.Base.{
  ℕ, ◌+◌, ◌%◌, ◌^◌, ◌≡◌, refl, ◌∙◌, subst, List, [], ◌∷◌, ◌++◌, some, inl, inr, arith, Option-cases,
}
use chainlightning.Clock.{elapsed}
use chainlightning.Floats.{Floats}
use chainlightning.Metrics.State.{Metrics, RawCounters, with_history, new_counters}
use chainlightning.Metrics.Counters.{
  Recording, packet_tx, packet_rx, chunk_tx, chunk_rx, received_bytes, sent_bytes, packet_sent,
  packet_received, packet_lost, chunk_sent, chunk_received, chunk_reordered, gap, record_one,
}
use chainlightning.Metrics.Snapshot.{snapshot, metrics_of, clear_history}
use chainlightning.Metrics.Trace.{Event, records, snapshots, clears, Trace, step, run}
use chainlightning.Metrics.Trace.History.{start, collector_refines}
use chainlightning.Metrics.Snapshot.Ranks.{Scales}

-- What is counted.
pub data Count : Type 0 where
  bytes_up : Count
  bytes_down : Count
  packets_sent : Count
  packets_received : Count
  packets_lost : Count
  chunks_sent : Count
  chunks_received : Count
  chunks_reordered : Count
  gaps_detected : Count

-- The count in the window that is open, and in a snapshot.
abbrev pub open_count : Count → RawCounters → ℕ
open_count bytes_up c = c.bytes_up
open_count bytes_down c = c.bytes_down
open_count packets_sent c = c.packets_sent
open_count packets_received c = c.packets_received
open_count packets_lost c = c.packets_lost
open_count chunks_sent c = c.chunks_sent
open_count chunks_received c = c.chunks_received
open_count chunks_reordered c = c.chunks_reordered
open_count gaps_detected c = c.gaps_detected

abbrev pub snapshot_count : {F : Type 0} → Count → Metrics F → ℕ
snapshot_count bytes_up m = m.bytes_sent
snapshot_count bytes_down m = m.bytes_received
snapshot_count packets_sent m = m.packets_sent
snapshot_count packets_received m = m.packets_received
snapshot_count packets_lost m = m.packets_lost
snapshot_count chunks_sent m = m.chunks_sent
snapshot_count chunks_received m = m.chunks_received
snapshot_count chunks_reordered m = m.chunks_reordered
snapshot_count gaps_detected m = m.gaps_detected

-- What one operation counts.
abbrev pub counted : Count → Recording → ℕ
counted bytes_up (packet_tx bytes) = bytes
counted bytes_up (chunk_tx bytes) = bytes
counted bytes_up (sent_bytes bytes) = bytes
counted bytes_down (packet_rx bytes) = bytes
counted bytes_down (chunk_rx bytes) = bytes
counted bytes_down (received_bytes bytes) = bytes
counted packets_sent (packet_tx bytes) = 1
counted packets_sent (packet_sent link_id) = 1
counted packets_received (packet_rx bytes) = 1
counted packets_received packet_received = 1
counted packets_lost packet_lost = 1
counted chunks_sent (chunk_tx bytes) = 1
counted chunks_sent chunk_sent = 1
counted chunks_received (chunk_rx bytes) = 1
counted chunks_received chunk_received = 1
counted chunks_reordered chunk_reordered = 1
counted gaps_detected gap = 1
counted _ _ = 0

some_eq {ℓ κ} : {A : Type ℓ} {x u : A} (P : A → Type κ) → some x ≡ some u → P x → P u
some_eq P e h = subst P (cc) h

module _ (fl : Floats) (k : Count) where
  open fl use {F64}

  abbrev pub total_counted : List (Event fl) → ℕ
  total_counted [] = 0
  total_counted (records r ∷ es) = counted k r + total_counted es
  total_counted (snapshots now timestamp memory ∷ es) = total_counted es
  total_counted (clears ∷ es) = total_counted es

  abbrev pub total_taken : List (Metrics F64) → ℕ
  total_taken [] = 0
  total_taken (m ∷ ms) = snapshot_count k m + total_taken ms

  total_counted-cons :
      (e : Event fl) (es : List (Event fl))
      → total_counted (e ∷ es) ≡ total_counted (e ∷ []) + total_counted es
  total_counted-cons (records r) es = omega arith
  total_counted-cons (snapshots now timestamp memory) es = omega arith
  total_counted-cons clears es = omega arith

  total_taken-snoc :
      (ms : List (Metrics F64)) (m : Metrics F64)
      → total_taken (ms ++ m ∷ []) ≡ total_taken ms + snapshot_count k m
  total_taken-snoc [] m = omega arith
  total_taken-snoc (x ∷ ms) m = omega (arith, total_taken-snoc ms m)

record_one-counted :
    (k : Count) (r : Recording) (c : RawCounters)
    → open_count k (record_one r c) % 2 ^ 64 ≡ (open_count k c + counted k r) % 2 ^ 64
unfolding record_one
record_one-counted bytes_up _ c = ground arith
record_one-counted bytes_down _ c = ground arith
record_one-counted packets_sent _ c = ground arith
record_one-counted packets_received _ c = ground arith
record_one-counted packets_lost _ c = ground arith
record_one-counted chunks_sent _ c = ground arith
record_one-counted chunks_received _ c = ground arith
record_one-counted chunks_reordered _ c = ground arith
record_one-counted gaps_detected _ c = ground arith

module _ (fl : Floats) where
  open fl use {F64}

  metrics_of-count :
      (k : Count) (c : RawCounters) (elapsed_ns timestamp memory : ℕ) (m : Metrics F64)
      → metrics_of fl c elapsed_ns timestamp memory ≡ some m
      → snapshot_count k m ≡ open_count k c
  unfolding metrics_of
  metrics_of-count bytes_up c elapsed_ns timestamp memory m e = ground arith
  metrics_of-count _ c elapsed_ns timestamp memory m e = ground arith

  new_counters-count : (k : Count) (now : ℕ) → open_count k (new_counters now) ≡ 0
  unfolding new_counters
  new_counters-count bytes_up now = refl
  new_counters-count _ now = refl

  -- What the snapshots and the open window of a trace hold.
  abbrev pub held : Count → Trace fl → ℕ
  held k t = total_taken fl k t.taken + open_count k t.collector.counters

  step-held :
      (k : Count) (t u : Trace fl) (e : Event fl)
      → step fl t e ≡ some u
      → held k u % 2 ^ 64 ≡ (held k t + total_counted fl k (e ∷ [])) % 2 ^ 64
  unfolding step snapshot clear_history
  step-held k t u (records r) e =
      some_eq (λ (v : Trace fl). held k v % 2 ^ 64 ≡ (held k t + (counted k r + 0)) % 2 ^ 64) e
        (omega (arith, record_one-counted k r t.collector.counters))
  step-held k t u (snapshots now timestamp memory) e =
      let c = t.collector.counters in
      let from = elapsed now c.window_start in
      elim (Option-cases (metrics_of fl c from timestamp memory)) [
        | inl p ↦ let stuck = rw (p, snapshot) at e in absurd (cc)
        | inr (m, p) ↦
            let q = rw (p, snapshot) at e in
            some_eq (λ (v : Trace fl). held k v % 2 ^ 64 ≡ (held k t + 0) % 2 ^ 64) q
              (omega (
                arith,
                metrics_of-count k c from timestamp memory m p,
                new_counters-count k now,
                total_taken-snoc fl k t.taken m,
              ))
      ]
  step-held k t u clears e =
      some_eq (λ (v : Trace fl). held k v % 2 ^ 64 ≡ (held k t + 0) % 2 ^ 64) e (omega arith)

  run-held :
      (k : Count) (t u : Trace fl) (es : List (Event fl))
      → run fl t es ≡ some u
      → held k u % 2 ^ 64 ≡ (held k t + total_counted fl k es) % 2 ^ 64
  unfolding run
  run-held k t u [] e =
      some_eq (λ (v : Trace fl). held k v % 2 ^ 64 ≡ (held k t + 0) % 2 ^ 64) e (omega arith)
  run-held k t u (x ∷ es) e = elim (Option-cases (step fl t x)) [
    | inl stuck ↦ let bad = rw stuck at e in absurd (cc)
    | inr (v, one) ↦ omega (
      arith,
      step-held k t v x one,
      run-held k v u es (rw one at e),
      total_counted-cons fl k x es,
    )
  ]

  -- If scaling by the fractions 0.50, 0.95 and 0.99 does not exceed the count: after any history of
  -- a new collector, for each of the nine counts, the sum over all snapshots taken and the open
  -- window is what was counted, modulo 2^64.
  pub collector_conserves :
      (max_history now : ℕ) (es : List (Event fl))
      → Scales fl
      → (t : Trace fl) × (run fl (start fl max_history now) es ≡ some t)
        × ((k : Count) → held k t % 2 ^ 64 ≡ total_counted fl k es % 2 ^ 64)
  unfolding with_history
  collector_conserves max_history now es sc =
      let (t, e, h, shaped) = collector_refines fl max_history now es sc in
      (
        t,
        e,
        λ k. run-held k (start fl max_history now) t es e ∙ omega (arith, new_counters-count k now),
      )
