-- ===== src/RateController/Probe/Recovery.antt =====
-- How long a link that is DOWN takes to carry traffic again.
use chainlightning.Base.{
  ℕ, suc, ◌+◌, ◌-◌, ◌^◌, ◌≤◌, ◌<◌, ◌≡◌, refl, ap, ◌∙◌, subst, inl, inr, ◌⊎◌, List, [], ◌∷◌, Option,
  some, Bool, ◌&&◌, arith, Bool-cases, leb, max, add32, length, take, ◌>>=◌,
}
use chainlightning.Floats.{Floats}
use chainlightning.Wire.Probe.{running, down, probing, ProbePacket}
use chainlightning.RateController.State.{RateControlConfig, RateState}
use chainlightning.RateController.Probe.{leave, update_state}
use chainlightning.RateController.Probe.Bounds.{InBounds}
use chainlightning.RateController.Probe.Moves.{update_state-leave}

-- A probe that arrives, with what the controller found out at that moment.
pub record Arrival (F : Type 0) : Type 0 where
  pub probe : ProbePacket
  pub confidence : F
  pub suppress : Bool
  pub now_us : ℕ
  pub now : ℕ

module _ (fl : Floats) (c : RateControlConfig fl.F64) where
  open fl use {F64, lit, lt}

  abbrev arrive : Arrival F64 → RateState F64 → Option (RateState F64)
  arrive a = update_state fl c a.probe a.confidence a.suppress a.now_us a.now

  -- The state of a link after some arrivals.
  unfoldable pub after : List (Arrival F64) → RateState F64 → Option (RateState F64)
  after [] s = some s
  after (a ∷ arrivals) s = arrive a s >>= λ t. after arrivals t

  -- One of the first arrivals, not the start, brings the link to RUNNING.
  abbrev pub Recovers : List (Arrival F64) → RateState F64 → Type 0
  Recovers arrivals s =
      (k : ℕ) × (k ≤ length arrivals)
      × (t : RateState F64) × (after (take k arrivals) s ≡ some t)
      × (t.state ≡ running)

  -- Another probe for a link that recovers.
  leave_probing :
      (confidence : F64) (suppress : Bool) (u : RateState F64)
      → u.state ≡ probing
      → u.recovery_count + 1 < 2 ^ 32
      → let t = leave fl c confidence suppress probing u in
        (t.state ≡ running)
        ⊎ ((u.recovery_count + 1 < c.probe_recovery_count)
            × (t.state ≡ probing)
            × (t.recovery_count ≡ u.recovery_count + 1))
  unfolding leave
  leave_probing confidence suppress u e fits =
      let next : add32 u.recovery_count 1 ≡ u.recovery_count + 1 = omega (arith, fits) in
      elim (Bool-cases (leb c.probe_recovery_count (add32 u.recovery_count 1))) [
        | inl d ↦ rw d (inl refl)
        | inr d ↦ rw d (inr (ground (arith, d, next), e, next))
      ]

  leave_down :
      (confidence : F64) (suppress : Bool) (u : RateState F64)
      → let t = leave fl c confidence suppress down u in
        (t.state ≡ probing)
        × (t.recovery_count + 1 ≤ max c.probe_recovery_count 2)
        × (c.probe_recovery_count ≤ t.recovery_count + (max c.probe_recovery_count 2 - 1))
  unfolding leave
  leave_down confidence suppress u =
      elim (Bool-cases (lt u.entered_down_confidence (lit 3 10) && c.tapa_enabled)) [
        | inl d ↦ rw d (refl, omega arith, omega arith)
        | inr d ↦ rw d (refl, omega arith, omega arith)
      ]

  reaches :
      (arrivals : List (Arrival F64)) (s : RateState F64)
      → InBounds s
      → c.probe_recovery_count < 2 ^ 32
      → s.state ≡ probing
      → s.recovery_count + 1 < 2 ^ 32
      → 0 < length arrivals
      → c.probe_recovery_count ≤ s.recovery_count + length arrivals
      → Recovers arrivals s
  unfolding after
  reaches [] s b fits e count some_left enough = absurd (omega (arith, some_left))
  reaches (a ∷ arrivals) s b fits e count some_left enough =
      let (u, done, p, within) =
        update_state-leave fl c s a.probe a.confidence a.suppress a.now_us a.now b in
      let t = leave fl c a.confidence a.suppress probing u in
      let step : arrive a s ≡ some t =
        done ∙ ap (λ q. some (leave fl c a.confidence a.suppress q u)) e in
      let bounds : InBounds t =
        subst (λ q. InBounds (leave fl c a.confidence a.suppress q u)) e within in
      elim (leave_probing a.confidence a.suppress u (p.kept_state ∙ e)
        (omega (arith, p.kept_count, count))) [
          | inl ran ↦ (1, omega arith, t, rw step refl, ran)
          | inr (more, state, counted) ↦
              let (k, short, v, runs, ran) =
                reaches arrivals t bounds fits state (omega (arith, counted, more, fits))
                  (omega (arith, more, enough, p.kept_count))
                  (omega (arith, counted, enough, p.kept_count)) in
              (suc k, omega (arith, short), v, rw step runs, ran)
        ]

  -- A link that is DOWN, whose rate is within its bounds and whose floor is at most half of its
  -- ceiling, runs again after at most `probe_recovery_count` probes, or two if that is less (the
  -- count is a number of 32 bits): whatever the probes say, whatever their confidence, one of that
  -- many takes it to RUNNING, and none panics.
  pub recovery_lem :
      (arrivals : List (Arrival F64)) (s : RateState F64)
      → InBounds s
      → c.probe_recovery_count < 2 ^ 32
      → s.state ≡ down
      → length arrivals ≡ max c.probe_recovery_count 2
      → Recovers arrivals s
  unfolding after
  recovery_lem [] s b fits e enough = absurd (omega (arith, enough))
  recovery_lem (a ∷ arrivals) s b fits e enough =
      let (u, done, p, within) =
        update_state-leave fl c s a.probe a.confidence a.suppress a.now_us a.now b in
      let t = leave fl c a.confidence a.suppress down u in
      let step : arrive a s ≡ some t =
        done ∙ ap (λ q. some (leave fl c a.confidence a.suppress q u)) e in
      let bounds : InBounds t =
        subst (λ q. InBounds (leave fl c a.confidence a.suppress q u)) e within in
      let (state, room, near) = leave_down a.confidence a.suppress u in
      let (k, short, v, runs, ran) =
        reaches arrivals t bounds fits state (omega (arith, room, fits)) (omega (arith, enough))
          (omega (arith, near, enough)) in
      (suc k, omega (arith, short), v, rw step runs, ran)
