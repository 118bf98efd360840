-- ===== src/Scheduler/Select/Delay.antt =====
-- The synchronising delay, and which links are chosen.
use chainlightning.Base.{
  ℕ, ◌%◌, ◌<◌, ◌≡◌, refl, inl, inr, ◌⊎◌, List, [], ◌∷◌, Option, none, some, Bool, true, false,
  arith, Bool-cases, ltb, ltb→lt, ltb→le, add64, add32,
}
use chainlightning.Scheduler.State.{LinkState, LinkScheduler}
use chainlightning.Scheduler.Select.{select_loop, first_weighted, or_else, or_zero, schedule}

-- The id belongs to a link with a positive weight.
abbrev pub InUse : ℕ → List LinkState → Type 0
InUse i [] = ⊥
InUse i (l ∷ ls) = ((l.id ≡ i) × (0 < l.weight)) ⊎ InUse i ls

abbrev pub AllIdle : List LinkState → Type 0
AllIdle [] = Unit
AllIdle (l ∷ ls) = (l.weight ≡ 0) × AllIdle ls

abbrev Chosen : List LinkState → Option ℕ → Type 0
Chosen ls none = Unit
Chosen ls (some i) = InUse i ls

select_loop-Chosen : (p c : ℕ) (ls : List LinkState) → Chosen ls (select_loop p c ls)
unfolding select_loop
select_loop-Chosen p c [] = tt
select_loop-Chosen p c (l ∷ ls) =
    ground (arith, select_loop-Chosen p c ls, select_loop-Chosen p (add32 c l.weight) ls)

first_weighted-InUse :
    (ls : List LinkState)
    → AllIdle ls × (first_weighted ls ≡ none)
      ⊎ ((i : ℕ) × (first_weighted ls ≡ some i) × InUse i ls)
unfolding first_weighted
first_weighted-InUse [] = inl (tt, refl)
first_weighted-InUse (l ∷ ls) = elim (Bool-cases (ltb 0 l.weight)) [
  | inl e ↦ inr (l.id, rw e, inl (refl, ltb→lt 0 l.weight e))
  | inr e ↦ elim (first_weighted-InUse ls) [
    | inl (idle, missing) ↦ inl ((omega (arith, ltb→le 0 l.weight e), idle), rw e missing)
    | inr (i, found, used) ↦ inr (i, rw e found, inr used)
  ]
]

-- An id of a link in use, or 0 where no link is in use.
abbrev pub IsChoice : ℕ → List LinkState → Type 0
IsChoice i ls = InUse i ls ⊎ (AllIdle ls × (i ≡ 0))

or_else-IsChoice :
    (ls : List LinkState) (o : Option ℕ)
    → Chosen ls o
    → IsChoice (or_else o (or_zero (first_weighted ls))) ls
or_else-IsChoice ls (some i) h = inl h
or_else-IsChoice ls none h = elim (first_weighted-InUse ls) [
  | inl (idle, missing) ↦ rw missing (inr (idle, refl))
  | inr (i, found, used) ↦ rw found (inl used)
]

module _ {F : Type 0} where
  -- Every chunk goes to a link with a positive weight; only where all weights are 0 it goes to link
  -- 0, which is then not in use either.
  pub schedule-IsChoice :
      (s : LinkScheduler F) (chunk_size : ℕ) (multi_link : Bool)
      → IsChoice (schedule s chunk_size multi_link).0.link_id s.links
  unfolding schedule
  schedule-IsChoice s chunk_size true =
      or_else-IsChoice s.links _ (select_loop-Chosen (add64 s.cursor 1 % s.total_weight) 0 s.links)
  schedule-IsChoice s chunk_size false =
      or_else-IsChoice s.links _ (select_loop-Chosen (add64 s.cursor 1 % s.total_weight) 0 s.links)
