-- ===== src/RateController/Ops/Silence.antt =====
-- Silent links, weights, and configured rates below the floor.
use chainlightning.Base.{
  ℕ, zero, suc, ◌≤◌, ◌<◌, ◌≡◌, refl, inl, inr, List, [], ◌∷◌, none, some, true, arith, Bool-cases,
  lt→ltb, le→ltb, max, map, get_elem?,
}
use chainlightning.Clock.{from_millis, elapsed}
use chainlightning.Floats.{Floats}
use chainlightning.Wire.Probe.{PathState, running, lossy, down, probing}
use chainlightning.RateController.State.{RateControlConfig, RateState, new_state, weight}
use chainlightning.RateController.Probe.{apply_rate_change, clamp}
use chainlightning.RateController.Ops.{RateController, check_timeouts, expire, is_down}

is_down-true : (p : PathState) → is_down p ≡ true → p ≡ down
unfolding is_down
is_down-true running e = cc
is_down-true lossy e = cc
is_down-true down e = refl
is_down-true probing e = cc

module _ {F : Type 0} where
  get_elem?-map :
      (f : RateState F → RateState F) (ss : List (RateState F)) (k : ℕ) (s : RateState F)
      → get_elem? ss k ≡ some s
      → get_elem? (map f ss) k ≡ some (f s)
  get_elem?-map f [] k s e = cc
  get_elem?-map f (x ∷ ss) zero s e = cc
  get_elem?-map f (x ∷ ss) (suc k) s e = get_elem?-map f ss k s e

  weight-down : (s : RateState F) → s.state ≡ down → weight s ≡ 0
  unfolding weight
  weight-down s e = rw e refl

  expire-silent :
      (c : RateControlConfig F) (now : ℕ) (s : RateState F)
      → from_millis c.down_timeout_ms < elapsed now s.last_probe_recv
      → (expire c now s).state ≡ down
  unfolding expire
  expire-silent c now s silent = elim (Bool-cases (is_down s.state)) [
    | inl e ↦ rw e (is_down-true s.state e)
    | inr e ↦
        rw (e, lt→ltb (from_millis c.down_timeout_ms) (elapsed now s.last_probe_recv) silent) refl
  ]

  expire-heard :
      (c : RateControlConfig F) (now : ℕ) (s : RateState F)
      → elapsed now s.last_probe_recv ≤ from_millis c.down_timeout_ms
      → expire c now s ≡ s
  unfolding expire
  expire-heard c now s heard = elim (Bool-cases (is_down s.state)) [
    | inl e ↦ rw e refl
    | inr e ↦
        rw (e, le→ltb (from_millis c.down_timeout_ms) (elapsed now s.last_probe_recv) heard) refl
  ]

  -- `check_timeouts` takes a link that was silent for longer than `down_timeout_ms` to DOWN, with
  -- weight 0, and leaves every other link as it is.
  pub check_timeouts_lem :
      (now k : ℕ) (r : RateController F) (s : RateState F)
      → get_elem? r.states k ≡ some s
      → (t : RateState F) × (get_elem? (check_timeouts now r).states k ≡ some t)
        × (from_millis r.config.down_timeout_ms < elapsed now s.last_probe_recv
            → (t.state ≡ down) × (weight t ≡ 0))
        × (elapsed now s.last_probe_recv ≤ from_millis r.config.down_timeout_ms → t ≡ s)
  unfolding check_timeouts
  check_timeouts_lem now k r s e = (
    expire r.config now s,
    get_elem?-map (expire r.config now) r.states k s e,
    λ silent.
        let is_silent = expire-silent r.config now s silent in
        (is_silent, weight-down (expire r.config now s) is_silent),
    expire-heard r.config now s,
  )

-- For a link in its first state whose configured rate is below 12500 bytes a second, any change of
-- the rate panics: the floor is above the ceiling.
pub apply_rate_change_panics :
    (fl : Floats) (c : RateControlConfig fl.F64) (link_id max_rate now desired_rate : ℕ)
    → max_rate < 12_500
    → apply_rate_change fl c desired_rate (new_state fl link_id max_rate c.min_rate_fraction now)
      ≡ none
unfolding apply_rate_change new_state clamp
apply_rate_change_panics fl c link_id max_rate now desired_rate low =
    let floor = max (fl.to_u64 (fl.mul (fl.of_u64 max_rate) c.min_rate_fraction)) 12_500 in
    rw (lt→ltb max_rate floor (omega (arith, low))) refl
