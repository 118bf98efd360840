-- ===== src/Scheduler/History/Choice.antt =====
-- Which links a scheduler chooses after any sequence of requests.
use chainlightning.Base.{
  ℕ, zero, suc, ◌+◌, ◌<◌, ◌≡◌, refl, ap, inl, inr, List, [], ◌∷◌, Bool, arith, length,
}
use chainlightning.Floats.{Floats}
use chainlightning.Scheduler.State.{
  LinkState, LinkSchedulerConfig, new, new_links, new_link, total_of,
}
use chainlightning.Scheduler.Select.{schedule, indexes}
use chainlightning.Scheduler.Select.Delay.{InUse, schedule-IsChoice}
use chainlightning.Scheduler.History.{Request, run}
use chainlightning.Scheduler.History.Consistent.{ids, IsConsistent, run-IsConsistent}

ids-new_links :
    (i : ℕ) (bws : List ℕ) (now : ℕ) → ids (new_links i bws now) ≡ indexes i (length bws)
unfolding new_links new_link indexes
ids-new_links i [] now = refl
ids-new_links i (bw ∷ bws) now = ap (◌∷◌ i) (ids-new_links (i + 1) bws now)

abbrev head_or : ℕ → List ℕ → ℕ
head_or d [] = d
head_or d (x ∷ xs) = x

abbrev tail_of : List ℕ → List ℕ
tail_of [] = []
tail_of (x ∷ xs) = xs

InUse-ids :
    (i start n : ℕ) (ls : List LinkState) → ids ls ≡ indexes start n → InUse i ls → i < start + n
unfolding indexes
InUse-ids i start zero [] e h = elim h [ ]
InUse-ids i start (suc n) [] e h = elim h [ ]
InUse-ids i start zero (l ∷ ls) e h = cc
InUse-ids i start (suc n) (l ∷ ls) e (inl (here, _)) = omega (arith, here, ap (head_or 0) e)
InUse-ids i start (suc n) (l ∷ ls) e (inr later) =
    omega (arith, InUse-ids i (start + 1) n ls (ap tail_of e) later)

new-IsConsistent :
    {F : Type 0} (config : LinkSchedulerConfig F) (bws : List ℕ) (is_upload : Bool) (now : ℕ)
    → IsConsistent (length bws) (new config bws is_upload now)
unfolding new
new-IsConsistent config bws is_upload now = record {
  numbered = ids-new_links 0 bws now;
  total = refl;
}

length-positive : (x : ℕ) (xs : List ℕ) → 0 < length (x ∷ xs)
length-positive x xs = omega arith

module _ (fl : Floats) where
  open fl use {F64}

  -- After any sequence of requests to a scheduler made for at least one link, its total weight is
  -- that of the links as they stand, and the next chunk, of any size and mode, goes to one of the
  -- links that it was made for.
  pub scheduler_history :
      (config : LinkSchedulerConfig F64) (bw : ℕ) (bws : List ℕ) (is_upload : Bool) (now : ℕ)
      (rs : List Request) (chunk_size : ℕ) (multi_link : Bool)
      → let s = run fl (new config (bw ∷ bws) is_upload now) rs in
        (s.total_weight ≡ total_of s.links)
        × ((schedule s chunk_size multi_link).0.link_id < length (bw ∷ bws))
  scheduler_history config bw bws is_upload now rs chunk_size multi_link =
      let s = run fl (new config (bw ∷ bws) is_upload now) rs in
      let start : IsConsistent (length (bw ∷ bws)) (new config (bw ∷ bws) is_upload now) =
        new-IsConsistent config (bw ∷ bws) is_upload now in
      let h = run-IsConsistent fl (length (bw ∷ bws)) _ rs start in
      (
        h.total,
        elim (schedule-IsChoice s chunk_size multi_link) [
          | inl used ↦ omega (arith, InUse-ids _ 0 (length (bw ∷ bws)) s.links h.numbered used)
          | inr (_, none_used) ↦ omega (arith, none_used, length-positive bw bws)
        ],
      )
