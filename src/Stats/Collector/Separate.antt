-- ===== src/Stats/Collector/Separate.antt =====
-- Each link of the collector evolves as if it were alone.
use chainlightning.Base.{
  ℕ, zero, suc, ◌≡◌, refl, ap, ◌∙◌, sym, List, [], ◌∷◌, ◌++◌, Option, none, some, ◌==◌,
  if◌then◌else◌, arith, map, modify, get_elem?, Bool-cases, inl, inr,
}
use chainlightning.Floats.{Floats}
use chainlightning.Stats.Link
use chainlightning.Stats.Link.{LinkStats, LinkEvent, link_step, link_run}
use chainlightning.Stats.Collector.{
  StatsCollector, Event, tx, rx, rtt, ack, ticks, step, run, record_tx, record_rx, record_rtt,
  record_ack, tick,
}

abbrev pub map_some {ℓ κ} : {A : Type ℓ} {B : Type κ} → (A → B) → Option A → Option B
map_some f none = none
map_some f (some a) = some (f a)

module _ {ℓ} {A : Type ℓ} where
  get_elem?-modify :
      (f : A → A) (xs : List A) (j i : ℕ)
      → get_elem? (modify f xs j) i
        ≡ (if j == i then map_some f (get_elem? xs i) else get_elem? xs i)
  get_elem?-modify f [] j i = ground arith
  get_elem?-modify f (x ∷ xs) zero zero = refl
  get_elem?-modify f (x ∷ xs) zero (suc i) = ground arith
  get_elem?-modify f (x ∷ xs) (suc j) zero = ground arith
  get_elem?-modify f (x ∷ xs) (suc j) (suc i) = ground (arith, get_elem?-modify f xs j i)

  get_elem?-map :
      (f : A → A) (xs : List A) (i : ℕ) → get_elem? (map f xs) i ≡ map_some f (get_elem? xs i)
  get_elem?-map f [] i = refl
  get_elem?-map f (x ∷ xs) zero = refl
  get_elem?-map f (x ∷ xs) (suc i) = get_elem?-map f xs i

module _ (fl : Floats) where
  open fl use {F64}

  -- What an event means for link `i` of a collector with this smoothing factor and window.
  module _ (alpha : F64) (window : ℕ) (i : ℕ) where
    abbrev pub events_of_one : Event fl → List (LinkEvent fl)
    events_of_one (tx link_id bytes now) = if link_id == i then Link.tx bytes now ∷ [] else []
    events_of_one (rx link_id bytes now) = if link_id == i then Link.rx bytes now ∷ [] else []
    events_of_one (rtt link_id rtt_us) = if link_id == i then Link.rtt rtt_us alpha ∷ [] else []
    events_of_one (ack link_id bytes) = if link_id == i then Link.ack bytes ∷ [] else []
    events_of_one (ticks now) = Link.ticks window now ∷ []

    abbrev pub events_of : List (Event fl) → List (LinkEvent fl)
    events_of [] = []
    events_of (e ∷ es) = events_of_one e ++ events_of es

  link_run-append :
      (l : LinkStats F64) (xs ys : List (LinkEvent fl))
      → link_run fl l (xs ++ ys) ≡ link_run fl (link_run fl l xs) ys
  unfolding link_run
  link_run-append l [] ys = refl
  link_run-append l (x ∷ xs) ys = link_run-append (link_step fl l x) xs ys

  abbrev runs : List (LinkEvent fl) → Option (LinkStats F64) → Option (LinkStats F64)
  runs es o = map_some (λ (l : LinkStats F64). link_run fl l es) o

  runs_none : (o : Option (LinkStats F64)) → o ≡ runs [] o
  unfolding link_run
  runs_none none = refl
  runs_none (some l) = refl

  runs-append :
      (xs ys : List (LinkEvent fl)) (o : Option (LinkStats F64))
      → runs ys (runs xs o) ≡ runs (xs ++ ys) o
  runs-append xs ys none = refl
  runs-append xs ys (some l) = ap some (sym (link_run-append l xs ys))

  -- A step of link `j`, as link `i` sees it.
  modify-runs :
      (e : LinkEvent fl) (xs : List (LinkStats F64)) (j i : ℕ)
      → get_elem? (modify (λ (l : LinkStats F64). link_step fl l e) xs j) i
        ≡ runs (if j == i then e ∷ [] else []) (get_elem? xs i)
  unfolding link_run
  modify-runs e xs j i =
      get_elem?-modify (λ (l : LinkStats F64). link_step fl l e) xs j i
      ∙ elim (Bool-cases (j == i)) [
        | inl here ↦ rw here refl
        | inr there ↦ rw there (runs_none (get_elem? xs i))
      ]

  step-runs :
      (c : StatsCollector F64) (i : ℕ) (e : Event fl)
      → get_elem? (step fl c e).links i
        ≡ runs (events_of_one c.ewma_alpha c.bandwidth_window i e) (get_elem? c.links i)
  unfolding step record_tx record_rx record_rtt record_ack tick link_run link_step
  step-runs c i (tx link_id bytes now) = modify-runs (Link.tx bytes now) c.links link_id i
  step-runs c i (rx link_id bytes now) = modify-runs (Link.rx bytes now) c.links link_id i
  step-runs c i (rtt link_id rtt_us) = modify-runs (Link.rtt rtt_us c.ewma_alpha) c.links link_id i
  step-runs c i (ack link_id bytes) = modify-runs (Link.ack bytes) c.links link_id i
  step-runs c i (ticks now) = get_elem?-map _ c.links i

  step-ewma_alpha :
      (c : StatsCollector F64) (e : Event fl) → (step fl c e).ewma_alpha ≡ c.ewma_alpha
  unfolding step record_tx record_rx record_rtt record_ack tick
  step-ewma_alpha c (tx link_id bytes now) = refl
  step-ewma_alpha c _ = refl

  step-bandwidth_window :
      (c : StatsCollector F64) (e : Event fl) → (step fl c e).bandwidth_window ≡ c.bandwidth_window
  unfolding step record_tx record_rx record_rtt record_ack tick
  step-bandwidth_window c (tx link_id bytes now) = refl
  step-bandwidth_window c _ = refl

  -- After any history of a collector, each link is what its own events alone make of it, in their
  -- order: those that name it, and the ticks, with the collector's smoothing factor and window. An
  -- index beyond the links stays beyond them.
  pub collector_separates :
      (c : StatsCollector F64) (i : ℕ) (es : List (Event fl))
      → get_elem? (run fl c es).links i
        ≡ map_some
            (λ (l : LinkStats F64). link_run fl l (events_of c.ewma_alpha c.bandwidth_window i es))
            (get_elem? c.links i)
  unfolding run
  collector_separates c i [] = runs_none (get_elem? c.links i)
  collector_separates c i (e ∷ es) =
      let later = collector_separates (step fl c e) i es in
      let alpha = step-ewma_alpha c e in
      let window = step-bandwidth_window c e in
      let one = step-runs c i e in
      simp (later, alpha, window, one)
        (runs-append (events_of_one c.ewma_alpha c.bandwidth_window i e)
          (events_of c.ewma_alpha c.bandwidth_window i es) (get_elem? c.links i))
