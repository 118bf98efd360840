-- ===== src/RateController/Probe/Bounds.antt =====
-- The rate stays between its bounds, and no part of the handling of a probe panics.
use chainlightning.Base.{
  ℕ, ◌/◌, ◌≤◌, ◌≡◌, refl, inl, inr, Option, none, some, arith, Bool-cases, ltb, ltb→le, max,
}
use chainlightning.Floats.{Floats}
use chainlightning.Wire.Probe.{ProbePacket}
use chainlightning.RateController.State.{RateControlConfig, RateState}
use chainlightning.RateController.Probe.{
  clamp, limited, apply_rate_change, detect_congestion, desired, change,
}

-- The rate is within its bounds, and half of the ceiling is not below the floor.
pub record InBounds {F : Type 0} (s : RateState F) : Type 0 where
  pub floor : s.tx_min_rate ≤ s.tx_rate
  pub ceiling : s.tx_rate ≤ s.tx_max_rate
  pub room : s.tx_min_rate ≤ s.tx_max_rate / 2

-- Only the rate changes, and stays within the bounds.
pub record RateOnly {F : Type 0} (s : RateState F) (o : Option (RateState F)) : Type 0 where
  pub r : ℕ
  pub result : o ≡ some (record s { tx_rate = r })
  pub low : s.tx_min_rate ≤ r
  pub high : r ≤ s.tx_max_rate

clamp_total :
    (x low high : ℕ) → low ≤ high → (r : ℕ) × (clamp x low high ≡ some r) × (low ≤ r) × (r ≤ high)
unfolding clamp
clamp_total x low high h = elim (Bool-cases (ltb x low)) [
  | inl e ↦ (low, ground (arith, e), omega arith, h)
  | inr e ↦ elim (Bool-cases (ltb high x)) [
    | inl d ↦ (high, ground (arith, e, d), h, omega arith)
    | inr d ↦
        (x, ground (arith, e, d), omega (arith, ltb→le x low e), omega (arith, ltb→le high x d))
  ]
]

module _ (fl : Floats) (c : RateControlConfig fl.F64) (s : RateState fl.F64) (b : InBounds s) where
  open fl use {F64, of_u64, to_u64, mul}

  apply_rate_change-RateOnly :
      (desired_rate : ℕ) → RateOnly s (apply_rate_change fl c desired_rate s)
  unfolding apply_rate_change
  apply_rate_change-RateOnly desired_rate =
      let max_change = max (to_u64 (mul (of_u64 s.tx_rate) c.max_rate_change_fraction)) 12_500 in
      let (r, e, low, high) =
        clamp_total (limited s.tx_rate desired_rate max_change) s.tx_min_rate s.tx_max_rate
          (omega (arith, b.floor, b.ceiling)) in
      record { r = r; result = rw e refl; low = low; high = high }

  change-RateOnly : (o : Option ℕ) → RateOnly s (change fl c o s)
  unfolding change
  change-RateOnly none = record { r = s.tx_rate; result = refl; low = b.floor; high = b.ceiling }
  change-RateOnly (some desired_rate) = apply_rate_change-RateOnly desired_rate

  pub detect_congestion-RateOnly :
      (probe : ProbePacket) (confidence : F64)
      → RateOnly s (detect_congestion fl c probe confidence s)
  unfolding detect_congestion
  detect_congestion-RateOnly probe confidence = change-RateOnly (desired fl c probe confidence s)
