-- ===== src/Config/Manager/History.antt =====
-- The configuration that the manager holds, over any history of requests.
use Prim.Native.String.{String}
use chainlightning.Base.{
  ◌≡◌, refl, subst, List, [], ◌∷◌, none, some, arith, All, ◌⊎◌, inl, inr, sym, Option,
}
use chainlightning.Floats.{Floats}
use chainlightning.Config.State.{Config, Result, ok, validate, Result-cases}
use chainlightning.Config.Params.{ParameterValue, set_parameter}
use chainlightning.Config.Manager.{
  Answer, good, bad, Yaml, ConfigManager, load, from_file, new_manager, update, set_managed, reload,
  reload_from,
}

module _ (fl : Floats) (yaml : Yaml (fl.F64)) where
  open fl use {F64}

  -- What the tasks ask of the manager. A reload carries the file's content at that time.
  pub data Request : Type 0 where
    updates : (new_config : Config F64) → Request
    sets : (path : String) (value : ParameterValue F64) → Request
    reloads : (content : Answer String) → Request

  unfoldable pub step : ConfigManager F64 → Request → Result (Unit {0}) × ConfigManager F64
  step m (updates new_config) = update fl m new_config
  step m (sets path value) = set_managed fl m path value
  step m (reloads content) = reload fl yaml m content

  unfoldable pub run : ConfigManager F64 → List Request → ConfigManager F64
  unfolding step
  run m [] = m
  run m (r ∷ rs) = run (step m r).1 rs

  abbrev pub IsValid : Config F64 → Type 0
  IsValid c = validate fl c ≡ ok tt

  -- The configuration passes `validate` and is what the subscribers got last, and they never got
  -- one that does not pass.
  pub record IsManaged (m : ConfigManager F64) : Type 0 where
    pub valid : IsValid m.config
    pub latest : (older : List (Config F64)) × (m.sent ≡ m.config ∷ older)
    pub all_valid : All IsValid m.sent

  -- How a manager comes about.
  pub data IsStarted : ConfigManager F64 → Type 0 where
    fresh : IsValid (new_manager fl).config → IsStarted (new_manager fl)
    loaded :
        {m : ConfigManager F64} (path : String) (content : Answer String)
        → from_file fl yaml path content ≡ ok m
        → IsStarted m

  -- Either nothing changes, or a valid configuration is stored and sent.
  abbrev Outcome : ConfigManager F64 → Result (Unit {0}) × ConfigManager F64 → Type 0
  Outcome m (r, n) =
      (n ≡ m)
      ⊎ ((c : Config F64) × IsValid c
          × (r ≡ ok tt)
          × (n ≡ record m { config = c; sent = c ∷ m.sent }))

  update-Outcome : (m : ConfigManager F64) (c : Config F64) → Outcome m (update fl m c)
  unfolding update
  update-Outcome m c = elim (Result-cases (validate fl c)) [
    | inl (e, p) ↦ rw (p, update) (inl refl)
    | inr (u, p) ↦ rw (p, update) (inr (c, p, refl, refl))
  ]

  set_managed-Outcome :
      (m : ConfigManager F64) (path : String) (value : ParameterValue F64)
      → Outcome m (set_managed fl m path value)
  unfolding set_managed
  set_managed-Outcome m path value = elim (Result-cases (set_parameter fl m.config path value).0) [
    | inl (e, p) ↦ rw (p, set_managed) (inl refl)
    | inr (u, p) ↦ rw (p, set_managed) (update-Outcome m (set_parameter fl m.config path value).1)
  ]

  reload_from-Outcome :
      (m : ConfigManager F64) (config_path : Option String) (content : Answer String)
      → Outcome m (reload_from fl yaml m config_path content)
  reload_from-Outcome m none content = inl refl
  reload_from-Outcome m (some path) content = elim (Result-cases (load fl yaml content)) [
    | inl (e, p) ↦ rw (p, reload_from) (inl refl)
    | inr (c, p) ↦ rw (p, reload_from) (update-Outcome m c)
  ]

  step-Outcome : (m : ConfigManager F64) (r : Request) → Outcome m (step m r)
  unfolding step reload
  step-Outcome m (updates new_config) = update-Outcome m new_config
  step-Outcome m (sets path value) = set_managed-Outcome m path value
  step-Outcome m (reloads content) = reload_from-Outcome m m.config_path content

  step-IsManaged : (m : ConfigManager F64) (r : Request) → IsManaged m → IsManaged (step m r).1
  step-IsManaged m r h = elim (step-Outcome m r) [
    | inl same ↦ subst IsManaged (sym same) h
    | inr (c, v, done, e) ↦
        subst IsManaged (sym e)
          (record { valid = v; latest = (m.sent, refl); all_valid = (v, h.all_valid) })
  ]

  run-IsManaged : (m : ConfigManager F64) (rs : List Request) → IsManaged m → IsManaged (run m rs)
  unfolding run
  run-IsManaged m [] h = h
  run-IsManaged m (r ∷ rs) h = run-IsManaged (step m r).1 rs (step-IsManaged m r h)

  load-IsValid :
      (content : Answer String) (c : Config F64) → load fl yaml content ≡ ok c → IsValid c
  unfolding load
  load-IsValid (bad e) c h = cc
  load-IsValid (good s) c h = ground arith

  IsStarted-IsManaged : {m : ConfigManager F64} → IsStarted m → IsManaged m
  unfolding new_manager from_file
  IsStarted-IsManaged (fresh v) = record { valid = v; latest = ([], refl); all_valid = (v, tt) }
  IsStarted-IsManaged {m} (loaded path content e) = elim (Result-cases (load fl yaml content)) [
    | inl (x, p) ↦ let q = rw (p, from_file) at e in absurd (cc)
    | inr (c, p) ↦
        let q = rw (p, from_file) at e in
        let v : IsValid c = load-IsValid content c p in
        let same : record { config = c; config_path = some path; sent = c ∷ [] } ≡ m = cc in
        subst IsManaged same (record { valid = v; latest = ([], refl); all_valid = (v, tt) })
  ]

  -- The manager that `new` or `from_file` makes, where the default configuration passes `validate`
  -- in the case of `new`: after any history of `update`, `set_parameter` and `reload`, whether they
  -- succeed or fail, its configuration passes `validate` and is the one that was sent last to the
  -- subscribers, and every configuration sent passes `validate`.
  pub manager_valid :
      (m : ConfigManager F64) (rs : List Request) → IsStarted m → IsManaged (run m rs)
  manager_valid m rs start = run-IsManaged m rs (IsStarted-IsManaged start)

  -- A request changes nothing, or it succeeds, stores a configuration that passes `validate` and
  -- sends the same one to the subscribers. So one that answers an error changes nothing.
  pub step_lem :
      (m : ConfigManager F64) (r : Request)
      → ((step m r).1 ≡ m)
        ⊎ ((c : Config F64) × IsValid c
            × ((step m r).0 ≡ ok tt)
            × ((step m r).1 ≡ record m { config = c; sent = c ∷ m.sent }))
  step_lem m r = step-Outcome m r
