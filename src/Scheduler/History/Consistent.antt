-- ===== src/Scheduler/History/Consistent.antt =====
-- The link numbers and the total weight stay right over any sequence of requests.
use chainlightning.Base.{
  ℕ, zero, suc, ◌≡◌, refl, ap, ◌∙◌, inl, inr, List, [], ◌∷◌, Bool, true, false, arith, Bool-cases,
  ltb, map, modify,
}
use chainlightning.Clock.{elapsed}
use chainlightning.Floats.{Floats}
use chainlightning.Scheduler.State.{
  LinkState, LinkScheduler, record_sent, record_delivered, update_rtt, sum_weights, total_of,
}
use chainlightning.Scheduler.Weights.{
  adjust, reset, put_weights, maybe_adjust_weights, ack_bytes, set_weights,
  set_rate_controlled_weights, force_recalculate, measure_link, update_link,
}
use chainlightning.Scheduler.Select.{schedule, indexes}
use chainlightning.Scheduler.History.{
  Request, schedules, measures, acks, sets, rates, resets, step, run,
}

-- The ids of the links.
abbrev pub ids : List LinkState → List ℕ
ids = map λ l. l.id

-- A change that keeps every id, made anywhere, keeps the list of ids.
module _ (f : LinkState → LinkState) (keeps : (l : LinkState) → (f l).id ≡ l.id) where
  ids-modify : (ls : List LinkState) (k : ℕ) → ids (modify f ls k) ≡ ids ls
  ids-modify [] k = refl
  ids-modify (l ∷ ls) zero = rw (keeps l)
  ids-modify (l ∷ ls) (suc k) = ap (◌∷◌ l.id) (ids-modify ls k)

  ids-map : (ls : List LinkState) → ids (map f ls) ≡ ids ls
  ids-map [] = refl
  ids-map (l ∷ ls) = rw (keeps l, ids-map ls)

ids-put :
    (put : ℕ → LinkState → LinkState)
    → ((w : ℕ) (l : LinkState) → (put w l).id ≡ l.id)
    → (ls : List LinkState) (ws : List ℕ) → ids (put_weights put ls ws) ≡ ids ls
unfolding put_weights
ids-put put keeps [] ws = refl
ids-put put keeps (l ∷ ls) [] = refl
ids-put put keeps (l ∷ ls) (w ∷ ws) = rw (keeps w l, ids-put put keeps ls ws)

-- The total of the weights is unchanged where the weights are.
sum-modify :
    (f : LinkState → LinkState)
    → ((l : LinkState) → (f l).weight ≡ l.weight)
    → (ls : List LinkState) (k : ℕ) → sum_weights (modify f ls k) ≡ sum_weights ls
unfolding sum_weights
sum-modify f keeps [] k = refl
sum-modify f keeps (l ∷ ls) zero = rw (keeps l)
sum-modify f keeps (l ∷ ls) (suc k) = rw (sum-modify f keeps ls k)

-- The `n` links are numbered from 0, and the total weight is that of the weights as they stand.
pub record IsConsistent {F : Type 0} (n : ℕ) (s : LinkScheduler F) : Type 0 where
  pub numbered : ids s.links ≡ indexes 0 n
  pub total : s.total_weight ≡ total_of s.links

module _ {F : Type 0} (n : ℕ) (s : LinkScheduler F) (h : IsConsistent n s) where
  -- An operation on one link that keeps its id and weight.
  modify-IsConsistent :
      (f : LinkState → LinkState) (k : ℕ)
      → ((l : LinkState) → (f l).id ≡ l.id)
      → ((l : LinkState) → (f l).weight ≡ l.weight)
      → IsConsistent n (record s { links = modify f s.links k })
  unfolding total_of
  modify-IsConsistent f k same_id same_weight = record {
    numbered = ids-modify f same_id s.links k ∙ h.numbered;
    total = rw (sum-modify f same_weight s.links k) h.total;
  }

  schedule-IsConsistent :
      (chunk_size : ℕ) (multi_link : Bool) → IsConsistent n (schedule s chunk_size multi_link).1
  unfolding schedule
  schedule-IsConsistent chunk_size true =
      let m = modify-IsConsistent (record_sent chunk_size) _ (λ l. refl) (λ l. refl) in
      record { numbered = m.numbered; total = m.total }
  schedule-IsConsistent chunk_size false =
      let m = modify-IsConsistent (record_sent chunk_size) _ (λ l. refl) (λ l. refl) in
      record { numbered = m.numbered; total = m.total }

  ack_bytes-IsConsistent : (link_id bytes : ℕ) → IsConsistent n (ack_bytes link_id bytes s)
  unfolding ack_bytes record_delivered
  ack_bytes-IsConsistent link_id bytes =
      modify-IsConsistent (record_delivered bytes) link_id (λ l. refl) (λ l. refl)

  -- The operations that set weights compute the total anew.
  maybe_adjust_weights-IsConsistent : (now : ℕ) → IsConsistent n (maybe_adjust_weights now s)
  unfolding maybe_adjust_weights
  maybe_adjust_weights-IsConsistent now =
      let late = ltb (elapsed now s.last_adjustment) s.adjustment_interval in
      elim (Bool-cases late) [
        | inl e ↦ rw e h
        | inr e ↦
            rw e
              (record { numbered = ids-map adjust (λ l. refl) s.links ∙ h.numbered; total = refl })
      ]

  set_weights-IsConsistent : (ws : List ℕ) → IsConsistent n (set_weights ws s)
  unfolding set_weights
  set_weights-IsConsistent ws = record {
    numbered = ids-put _ (λ w l. refl) s.links ws ∙ h.numbered;
    total = refl;
  }

  set_rate_controlled_weights-IsConsistent :
      (ws : List ℕ) → IsConsistent n (set_rate_controlled_weights ws s)
  unfolding set_rate_controlled_weights
  set_rate_controlled_weights-IsConsistent ws = record {
    numbered = ids-put _ (λ w l. refl) s.links ws ∙ h.numbered;
    total = refl;
  }

  force_recalculate-IsConsistent : IsConsistent n (force_recalculate s)
  unfolding force_recalculate
  force_recalculate-IsConsistent = record {
    numbered = ids-map reset (λ l. refl) s.links ∙ h.numbered;
    total = refl;
  }

-- Measuring a link keeps its id and its weight.
module _ (fl : Floats) (measured rtt_us now : ℕ) (l : LinkState) where
  update_rtt-id : (update_rtt fl rtt_us l).id ≡ l.id
  unfolding update_rtt
  update_rtt-id = ground arith

  update_rtt-weight : (update_rtt fl rtt_us l).weight ≡ l.weight
  unfolding update_rtt
  update_rtt-weight = ground arith

  measure_link-id : (measure_link fl measured rtt_us now l).id ≡ l.id
  unfolding measure_link record_delivered
  measure_link-id = elim (Bool-cases (ltb 0 measured)) [
    | inl e ↦ rw e update_rtt-id
    | inr e ↦ rw e update_rtt-id
  ]

  measure_link-weight : (measure_link fl measured rtt_us now l).weight ≡ l.weight
  unfolding measure_link record_delivered
  measure_link-weight = elim (Bool-cases (ltb 0 measured)) [
    | inl e ↦ rw e update_rtt-weight
    | inr e ↦ rw e update_rtt-weight
  ]

module _ (fl : Floats) (n : ℕ) where
  open fl use {F64}

  step-IsConsistent :
      (s : LinkScheduler F64) (r : Request) → IsConsistent n s → IsConsistent n (step fl s r)
  unfolding step update_link
  step-IsConsistent s (schedules chunk_size multi_link) h =
      schedule-IsConsistent n s h chunk_size multi_link
  step-IsConsistent s (measures link_id measured rtt_us healthy now) h =
      maybe_adjust_weights-IsConsistent n _
        (modify-IsConsistent n s h (measure_link fl measured rtt_us now) link_id
          (measure_link-id fl measured rtt_us now) (measure_link-weight fl measured rtt_us now))
        now
  step-IsConsistent s (acks link_id bytes) h = ack_bytes-IsConsistent n s h link_id bytes
  step-IsConsistent s (sets ws) h = set_weights-IsConsistent n s h ws
  step-IsConsistent s (rates ws) h = set_rate_controlled_weights-IsConsistent n s h ws
  step-IsConsistent s resets h = force_recalculate-IsConsistent n s h

  pub run-IsConsistent :
      (s : LinkScheduler F64) (rs : List Request) → IsConsistent n s → IsConsistent n (run fl s rs)
  unfolding run
  run-IsConsistent s [] h = h
  run-IsConsistent s (r ∷ rs) h = run-IsConsistent (step fl s r) rs (step-IsConsistent s r h)
