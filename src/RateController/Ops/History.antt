-- ===== src/RateController/Ops/History.antt =====
-- The rate controller over any sequence of calls.
use chainlightning.Base.{
  ℕ, zero, suc, ◌+◌, ◌/◌, ◌≤◌, ◌≡◌, refl, ap, ◌∙◌, inl, inr, List, [], ◌∷◌, Option, none, some,
  Bool, not, ◌&&◌, arith, Bool-cases, ltb, max, map, length, length-map, length-modify, get_elem?,
  modify, All, ◌>>=◌,
}
use chainlightning.Clock.{from_millis, elapsed}
use chainlightning.Floats.{Floats}
use chainlightning.Wire.Probe.{ProbePacket}
use chainlightning.RateController.State.{
  RateControlConfig, RateState, new_state, build_probe, count_tx, count_rx,
}
use chainlightning.RateController.Probe.Bounds.{InBounds}
use chainlightning.RateController.Probe.Moves.{update_state_lem}
use chainlightning.RateController.Ops.{
  RateController, record_tx, record_rx, build_probes, expire, check_timeouts, is_down, new_states,
  new, calculate_probe_confidence, all_links_phantom_loss, process_found, process_probe,
}

pub data Event : Type 0 where
  sends : (link_id bytes : ℕ) → Event
  receives : (link_id bytes : ℕ) → Event
  builds : (now : ℕ) → Event
  probes : (probe : ProbePacket) (now_us now : ℕ) → Event
  checks : (now : ℕ) → Event

module _ (fl : Floats) where
  open fl use {F64, of_u64, to_u64, mul}

  unfoldable pub step : RateController F64 → Event → Option (RateController F64)
  step r (sends link_id bytes) = some (record_tx link_id bytes r)
  step r (receives link_id bytes) = some (record_rx link_id bytes r)
  step r (builds now) = some (build_probes now r).1
  step r (probes probe now_us now) = process_probe fl probe now_us now r
  step r (checks now) = some (check_timeouts now r)

  unfoldable pub run : RateController F64 → List Event → Option (RateController F64)
  unfolding step
  run r [] = some r
  run r (e ∷ es) = step r e >>= λ t. run t es

  -- The floor of a new link is at most half of its ceiling.
  abbrev pub HasRoom : F64 → ℕ → Type 0
  HasRoom fraction rate = max (to_u64 (mul (of_u64 rate) fraction)) 12_500 ≤ rate / 2

module _ {F : Type 0} where
  All-modify :
      (f : RateState F → RateState F)
      → ((s : RateState F) → InBounds s → InBounds (f s))
      → (ss : List (RateState F)) (k : ℕ) → All InBounds ss
      → All InBounds (modify f ss k)
  All-modify f h [] k b = tt
  All-modify f h (s ∷ ss) zero (first, others) = (h s first, others)
  All-modify f h (s ∷ ss) (suc k) (first, others) = (first, All-modify f h ss k others)

  All-map :
      (f : RateState F → RateState F)
      → ((s : RateState F) → InBounds s → InBounds (f s))
      → (ss : List (RateState F)) → All InBounds ss
      → All InBounds (map f ss)
  All-map f h [] b = tt
  All-map f h (s ∷ ss) (first, others) = (h s first, All-map f h ss others)

  abbrev Found : Option (RateState F) → Type 0
  Found none = Unit
  Found (some s) = InBounds s

  All-get_elem? : (ss : List (RateState F)) (k : ℕ) → All InBounds ss → Found (get_elem? ss k)
  All-get_elem? [] k b = tt
  All-get_elem? (x ∷ ss) zero (first, others) = first
  All-get_elem? (x ∷ ss) (suc k) (first, others) = All-get_elem? ss k others

  count_tx-InBounds : (bytes : ℕ) (s : RateState F) → InBounds s → InBounds (count_tx bytes s)
  unfolding count_tx
  count_tx-InBounds bytes s b = record { floor = b.floor; ceiling = b.ceiling; room = b.room }

  count_rx-InBounds : (bytes : ℕ) (s : RateState F) → InBounds s → InBounds (count_rx bytes s)
  unfolding count_rx
  count_rx-InBounds bytes s b = record { floor = b.floor; ceiling = b.ceiling; room = b.room }

  build_probe-InBounds : (now : ℕ) (s : RateState F) → InBounds s → InBounds (build_probe now s).1
  unfolding build_probe
  build_probe-InBounds now s b = record { floor = b.floor; ceiling = b.ceiling; room = b.room }

  expire-InBounds :
      (c : RateControlConfig F) (now : ℕ) (s : RateState F) → InBounds s → InBounds (expire c now s)
  unfolding expire
  expire-InBounds c now s b =
      elim (Bool-cases (
        not (is_down s.state)
        && ltb (from_millis c.down_timeout_ms) (elapsed now s.last_probe_recv))) [
          | inl e ↦ rw e (record { floor = b.floor; ceiling = b.ceiling; room = b.room })
          | inr e ↦ rw e b
        ]

  -- As many links as there were, all within their bounds.
  pub record IsSound (n : ℕ) (r : RateController F) : Type 0 where
    pub links : length r.states ≡ n
    pub bounds : All InBounds r.states

module _ (fl : Floats) (n : ℕ) where
  open fl use {F64}

  -- The result is there, and is sound.
  abbrev pub Succeeds : Option (RateController F64) → Type 0
  Succeeds o = (t : RateController F64) × (o ≡ some t) × IsSound n t

  module _ (probe : ProbePacket) (now_us now : ℕ) (r : RateController F64) (h : IsSound n r) where
    process_found-Succeeds :
        (confidence : F64) (suppress : Bool) (o : Option (RateState F64))
        → Found o
        → Succeeds (process_found fl probe confidence suppress now_us now r o)
    unfolding process_found
    process_found-Succeeds confidence suppress none b = (r, refl, h)
    process_found-Succeeds confidence suppress (some s) b =
        let (t, done, within, _) =
          update_state_lem fl r.config s probe confidence suppress now_us now b in
        (
          record r { states = modify (λ _. t) r.states probe.link_id },
          rw done refl,
          record {
            links = length-modify (λ _. t) r.states probe.link_id ∙ h.links;
            bounds = All-modify (λ _. t) (λ _ _. within) r.states probe.link_id h.bounds;
          },
        )

    process_probe-Succeeds : Succeeds (process_probe fl probe now_us now r)
    unfolding process_probe
    process_probe-Succeeds =
        process_found-Succeeds (calculate_probe_confidence fl r probe.link_id)
          (all_links_phantom_loss fl r) (get_elem? r.states probe.link_id)
          (All-get_elem? r.states probe.link_id h.bounds)

  step-Succeeds : (r : RateController F64) (e : Event) → IsSound n r → Succeeds (step fl r e)
  unfolding step record_tx record_rx build_probes check_timeouts
  step-Succeeds r (sends link_id bytes) h = (
    _,
    refl,
    record {
      links = length-modify (count_tx bytes) r.states link_id ∙ h.links;
      bounds = All-modify (count_tx bytes) (count_tx-InBounds bytes) r.states link_id h.bounds;
    },
  )
  step-Succeeds r (receives link_id bytes) h = (
    _,
    refl,
    record {
      links = length-modify (count_rx bytes) r.states link_id ∙ h.links;
      bounds = All-modify (count_rx bytes) (count_rx-InBounds bytes) r.states link_id h.bounds;
    },
  )
  step-Succeeds r (builds now) h = (
    _,
    refl,
    record {
      links = length-map (λ s. (build_probe now s).1) r.states ∙ h.links;
      bounds = All-map (λ s. (build_probe now s).1) (build_probe-InBounds now) r.states h.bounds;
    },
  )
  step-Succeeds r (probes probe now_us now) h = process_probe-Succeeds probe now_us now r h
  step-Succeeds r (checks now) h = (
    _,
    refl,
    record {
      links = length-map (expire r.config now) r.states ∙ h.links;
      bounds = All-map (expire r.config now) (expire-InBounds r.config now) r.states h.bounds;
    },
  )

  run-Succeeds : (r : RateController F64) (es : List Event) → IsSound n r → Succeeds (run fl r es)
  unfolding run
  run-Succeeds r [] h = (r, refl, h)
  run-Succeeds r (e ∷ es) h =
      let (t, first, sound) = step-Succeeds r e h in
      let (u, later, end) = run-Succeeds t es sound in (u, rw first later, end)

module _ (fl : Floats) where
  open fl use {F64}

  new_states-InBounds :
      (i : ℕ) (rates : List ℕ) (fraction : F64) (now : ℕ)
      → All (HasRoom fl fraction) rates
      → All InBounds (new_states fl i rates fraction now)
  unfolding new_states new_state
  new_states-InBounds i [] fraction now room = tt
  new_states-InBounds i (rate ∷ rates) fraction now (first, others) = (
    record { floor = omega (arith, first); ceiling = omega arith; room = first },
    new_states-InBounds (i + 1) rates fraction now others,
  )

  length-new_states :
      (i : ℕ) (rates : List ℕ) (fraction : F64) (now : ℕ)
      → length (new_states fl i rates fraction now) ≡ length rates
  unfolding new_states
  length-new_states i [] fraction now = refl
  length-new_states i (rate ∷ rates) fraction now =
      ap suc (length-new_states (i + 1) rates fraction now)

  -- If the floor of every link is at most half of its configured rate, no sequence of calls on a new
  -- controller panics: there is a result, with a state for each link, and each rate is between its
  -- floor and its configured rate.
  pub rate_controller_total :
      (c : RateControlConfig F64) (rates : List ℕ) (now : ℕ) (es : List Event)
      → All (HasRoom fl c.min_rate_fraction) rates
      → (t : RateController F64) × (run fl (new fl c rates now) es ≡ some t)
        × IsSound (length rates) t
  unfolding new
  rate_controller_total c rates now es room =
      run-Succeeds fl (length rates) (new fl c rates now) es record {
        links = length-new_states 0 rates c.min_rate_fraction now;
        bounds = new_states-InBounds 0 rates c.min_rate_fraction now room;
      }
