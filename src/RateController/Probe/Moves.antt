-- ===== src/RateController/Probe/Moves.antt =====
-- The path state as a state machine: what a probe can do to it.
use chainlightning.Base.{
  ℕ, ◌≡◌, ap, ◌∙◌, inl, inr, some, Bool, true, false, ◌&&◌, arith, Bool-cases, ltb, leb,
  if◌then◌else◌, add32,
}
use chainlightning.Floats.{Floats}
use chainlightning.Wire.Probe.{PathState, running, lossy, down, probing, ProbePacket}
use chainlightning.RateController.State.{RateControlConfig, RateState}
use chainlightning.RateController.Probe.{leave, transition, update_state, thresholds, enter_down}
use chainlightning.RateController.Probe.Bounds.{InBounds}
use chainlightning.RateController.Probe.Parts.{Prepared, update_state-Prepared}

-- The moves that a probe can cause. A link that is DOWN always starts to recover.
pub data Move : PathState → PathState → Type 0 where
  stays_running : Move running running
  degrades : Move running lossy
  fails : Move running down
  stays_lossy : Move lossy lossy
  heals : Move lossy running
  fails_lossy : Move lossy down
  tries : Move down probing
  keeps_trying : Move probing probing
  recovers : Move probing running

module _ {F : Type 0} where
  InBounds-if :
      {t u : RateState F} (b : Bool) → InBounds t → InBounds u → InBounds (if b then t else u)
  InBounds-if true p q = p
  InBounds-if false p q = q

  Move-if :
      {p : PathState} (t u : RateState F) (b : Bool)
      → Move p t.state
      → Move p u.state
      → Move p (if b then t else u).state
  Move-if t u true x y = x
  Move-if t u false x y = y

  -- A change of state that leaves the rates alone.
  InBounds-state :
      (s : RateState F) (p : PathState) (n : ℕ) (x : F)
      → InBounds s
      → InBounds (record s { state = p; recovery_count = n; entered_down_confidence = x })
  InBounds-state s p n x b = record { floor = b.floor; ceiling = b.ceiling; room = b.room }

module _ (fl : Floats) (c : RateControlConfig fl.F64) (confidence : fl.F64) (suppress : Bool) where
  open fl use {F64, lit, lt, le}

  leave-InBounds :
      (p : PathState) (s : RateState F64)
      → InBounds s
      → InBounds (leave fl c confidence suppress p s)
  unfolding leave
  leave-InBounds running s b =
      let (loss_thresh, down_thresh) = thresholds c (lt confidence (lit 1 2)) in
      InBounds-if suppress b (
        InBounds-if (ltb down_thresh s.loss) (InBounds-state s down 0 confidence b) (
          InBounds-if (ltb loss_thresh s.loss)
            (InBounds-state s lossy s.recovery_count s.entered_down_confidence b) b))
  leave-InBounds lossy s b =
      let (loss_thresh, down_thresh) = thresholds c (lt confidence (lit 1 2)) in
      let healed = InBounds-state s running s.recovery_count s.entered_down_confidence b in
      InBounds-if suppress (InBounds-if (leb s.loss c.loss_threshold) healed b) (
        InBounds-if (ltb down_thresh s.loss) (InBounds-state s down 0 confidence b)
          (InBounds-if (leb s.loss loss_thresh) healed b))
  leave-InBounds down s b =
      InBounds-if (lt s.entered_down_confidence (lit 3 10) && c.tapa_enabled)
        (record { floor = b.room; ceiling = omega arith; room = b.room })
        (record { floor = omega arith; ceiling = omega (arith, b.floor, b.ceiling); room = b.room })
  leave-InBounds probing s b =
      elim (Bool-cases (leb c.probe_recovery_count (add32 s.recovery_count 1))) [
        | inl e ↦ rw e elim (Bool-cases (le (lit 3 10) s.entered_down_confidence)) [
          | inl d ↦ rw d (record {
            floor = omega arith;
            ceiling = omega (arith, b.floor, b.ceiling);
            room = b.room;
          })
          | inr d ↦
              rw d (InBounds-state s running (add32 s.recovery_count 1) s.entered_down_confidence b)
        ]
        | inr e ↦
            rw e (InBounds-state s s.state (add32 s.recovery_count 1) s.entered_down_confidence b)
      ]

  leave-Move :
      (p : PathState) (s : RateState F64)
      → s.state ≡ p
      → Move p (leave fl c confidence suppress p s).state
  unfolding leave
  leave-Move running s e =
      let (loss_thresh, down_thresh) = thresholds c (lt confidence (lit 1 2)) in
      let stay : Move running s.state = rw e stays_running in
      let worse : RateState F64 = record s { state = lossy } in
      Move-if s _ suppress stay (
        Move-if (enter_down fl confidence s) _ (ltb down_thresh s.loss) fails
          (Move-if worse s (ltb loss_thresh s.loss) degrades stay))
  leave-Move lossy s e =
      let (loss_thresh, down_thresh) = thresholds c (lt confidence (lit 1 2)) in
      let stay : Move lossy s.state = rw e stays_lossy in
      let better : RateState F64 = record s { state = running } in
      Move-if _ _ suppress (Move-if better s (leb s.loss c.loss_threshold) heals stay) (
        Move-if (enter_down fl confidence s) _ (ltb down_thresh s.loss) fails_lossy
          (Move-if better s (leb s.loss loss_thresh) heals stay))
  leave-Move down s e =
      elim (Bool-cases (lt s.entered_down_confidence (lit 3 10) && c.tapa_enabled)) [
        | inl d ↦ rw d tries
        | inr d ↦ rw d tries
      ]
  leave-Move probing s e =
      elim (Bool-cases (leb c.probe_recovery_count (add32 s.recovery_count 1))) [
        | inl d ↦ rw d recovers
        | inr d ↦ rw (d, e) keeps_trying
      ]

module _ (fl : Floats) (c : RateControlConfig fl.F64) (s : RateState fl.F64) where
  open fl use {F64}

  -- A probe takes the link through the transition of the state that it had.
  pub update_state-leave :
      (probe : ProbePacket) (confidence : F64) (suppress : Bool) (now_us now : ℕ)
      → InBounds s
      → (u : RateState F64) × (update_state fl c probe confidence suppress now_us now s
          ≡ some (leave fl c confidence suppress s.state u))
        × Prepared s u
        × InBounds (leave fl c confidence suppress s.state u)
  unfolding transition
  update_state-leave probe confidence suppress now_us now b =
      let (u, e, p) = update_state-Prepared fl c probe s b confidence suppress now_us now in
      (
        u,
        e ∙ ap (λ q. some (leave fl c confidence suppress q u)) p.kept_state,
        p,
        leave-InBounds fl c confidence suppress s.state u p.bounds,
      )

  -- A probe for a link whose rate is within its bounds, and whose floor is at most half of its
  -- ceiling, is handled without a panic, keeps both, and changes the path state by one of the moves.
  pub update_state_lem :
      (probe : ProbePacket) (confidence : F64) (suppress : Bool) (now_us now : ℕ)
      → InBounds s
      → (t : RateState F64) × (update_state fl c probe confidence suppress now_us now s ≡ some t)
        × InBounds t
        × Move s.state t.state
  update_state_lem probe confidence suppress now_us now b =
      let (u, e, p, within) = update_state-leave probe confidence suppress now_us now b in
      (
        leave fl c confidence suppress s.state u,
        e,
        within,
        leave-Move fl c confidence suppress s.state u p.kept_state,
      )
