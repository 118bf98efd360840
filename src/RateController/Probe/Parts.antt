-- ===== src/RateController/Probe/Parts.antt =====
-- The parts of the handling of a probe leave alone what is not theirs, and together they never panic.
use chainlightning.Base.{
  ℕ, ◌≡◌, refl, ◌∙◌, inl, inr, some, Bool, true, false, ◌&&◌, arith, Bool-cases, ltb, ◌==◌,
  if◌then◌else◌,
}
use chainlightning.Floats.{Floats}
use chainlightning.Wire.Probe.{ProbePacket}
use chainlightning.RateController.State.{RateControlConfig, RateState}
use chainlightning.RateController.Probe.{
  measure_rtt, detect_loss, accelerate, transition, update_state, note_probe,
}
use chainlightning.RateController.Probe.Bounds.{InBounds, detect_congestion-RateOnly}

-- What the parts of the handling besides the rate and the transition leave alone.
pub record Same {F : Type 0} (s t : RateState F) : Type 0 where
  pub same_state : t.state ≡ s.state
  pub same_count : t.recovery_count ≡ s.recovery_count
  pub same_rate : t.tx_rate ≡ s.tx_rate
  pub same_min : t.tx_min_rate ≡ s.tx_min_rate
  pub same_max : t.tx_max_rate ≡ s.tx_max_rate

module _ {F : Type 0} where
  -- A record whose fields agree on the nose.
  abbrev pub Same-refl : (s : RateState F) → Same s s
  Same-refl s = record {
    same_state = refl;
    same_count = refl;
    same_rate = refl;
    same_min = refl;
    same_max = refl;
  }

  Same-if : {s t u : RateState F} (b : Bool) → Same s t → Same s u → Same s (if b then t else u)
  Same-if true p q = p
  Same-if false p q = q

  Same-trans : {s t u : RateState F} → Same s t → Same t u → Same s u
  Same-trans p q = record {
    same_state = q.same_state ∙ p.same_state;
    same_count = q.same_count ∙ p.same_count;
    same_rate = q.same_rate ∙ p.same_rate;
    same_min = q.same_min ∙ p.same_min;
    same_max = q.same_max ∙ p.same_max;
  }

  InBounds-Same : {s t : RateState F} → Same s t → InBounds s → InBounds t
  InBounds-Same same b = record {
    floor = omega (arith, same.same_min, same.same_rate, b.floor);
    ceiling = omega (arith, same.same_max, same.same_rate, b.ceiling);
    room = omega (arith, same.same_max, same.same_min, b.room);
  }

module _ (fl : Floats) (c : RateControlConfig fl.F64) (probe : ProbePacket) where
  open fl use {F64}

  measure_rtt-Same : (now : ℕ) (s : RateState F64) → Same s (measure_rtt fl c probe now s)
  unfolding measure_rtt
  measure_rtt-Same now s =
      elim (Bool-cases (ltb 0 probe.echo_timestamp_us && ltb probe.echo_timestamp_us now)) [
        | inl e ↦ rw e elim (Bool-cases (s.srtt_us == 0)) [
          | inl d ↦ rw d record {
            same_state = refl;
            same_count = refl;
            same_rate = refl;
            same_min = refl;
            same_max = refl;
          }
          | inr d ↦ rw d record {
            same_state = refl;
            same_count = refl;
            same_rate = refl;
            same_min = refl;
            same_max = refl;
          }
        ]
        | inr e ↦ rw e (Same-refl s)
      ]

  detect_loss-Same :
      (confidence : F64) (s : RateState F64) → Same s (detect_loss fl c probe confidence s)
  unfolding detect_loss
  detect_loss-Same confidence s = record {
    same_state = refl;
    same_count = refl;
    same_rate = refl;
    same_min = refl;
    same_max = refl;
  }

  accelerate-Same : (s : RateState F64) → Same s (accelerate fl c s)
  unfolding accelerate
  accelerate-Same s =
      Same-if
        (c.tapa_enabled
          && c.tapa_accelerated_recovery
          && (fl.lt s.prev_probe_confidence (fl.lit 3 10)
              && fl.lt (fl.lit 7 10) s.probe_confidence))
        (record {
          same_state = refl;
          same_count = refl;
          same_rate = refl;
          same_min = refl;
          same_max = refl;
        })
        (Same-refl s)

-- The state of a link when its transition comes up: as before the probe, but for the rate, which is
-- within its bounds, the round-trip time and the losses.
pub record Prepared {F : Type 0} (s t : RateState F) : Type 0 where
  pub kept_state : t.state ≡ s.state
  pub kept_count : t.recovery_count ≡ s.recovery_count
  pub bounds : InBounds t

module _ (fl : Floats) (c : RateControlConfig fl.F64) (probe : ProbePacket) (s : RateState fl.F64)
    (b : InBounds s) where
  open fl use {F64}

  pub update_state-Prepared :
      (confidence : F64) (suppress : Bool) (now_us now : ℕ)
      → (t : RateState F64) × (update_state fl c probe confidence suppress now_us now s
          ≡ some (transition fl c confidence suppress t))
        × Prepared s t
  unfolding update_state
  update_state-Prepared confidence suppress now_us now =
      let noted : RateState F64 = note_probe fl probe confidence now s in
      let first : Same s noted = record {
        same_state = refl;
        same_count = refl;
        same_rate = refl;
        same_min = refl;
        same_max = refl;
      } in
      let timed = measure_rtt fl c probe now_us noted in
      let before = Same-trans first (measure_rtt-Same fl c probe now_us noted) in
      let rated = detect_congestion-RateOnly fl c timed (InBounds-Same before b) probe confidence in
      let u : RateState F64 = record timed { tx_rate = rated.r } in
      let within : InBounds u = record {
        floor = rated.low;
        ceiling = rated.high;
        room = (InBounds-Same before b).room;
      } in
      let lossy_u = detect_loss fl c probe confidence u in
      let t = accelerate fl c lossy_u in
      let after : Same u t =
        Same-trans (detect_loss-Same fl c probe confidence u)
          (accelerate-Same fl c probe lossy_u) in
      (
        t,
        rw rated.result refl,
        record {
          kept_state = after.same_state ∙ before.same_state;
          kept_count = after.same_count ∙ before.same_count;
          bounds = InBounds-Same after within;
        },
      )
