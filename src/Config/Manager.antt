-- ===== src/Config/Manager.antt =====
-- `Config::load`, `Config::save` and `ConfigManager`. The file system and serde_yaml are the interface
-- `Storage`; what the watch channel was given stands in the state, the latest first.
pub mod History
use Prim.Native.String.{String}
use chainlightning.Base.{List, [], ◌∷◌, Option, none, some}
use chainlightning.Floats.{Floats}
use chainlightning.Config.State.{Config, Result, ok, err, io_error, parse_error, validate, ◌>>=◌}
use chainlightning.Config.Params.{ParameterValue, set_parameter}
use chainlightning.Config.Defaults.{default_config}

-- An answer of the file system or of serde_yaml: a value, or the text of an error.
pub data Answer (A : Type 0) : Type 0 where
  good : A → Answer A
  bad : String → Answer A

abbrev pub map_err : {A : Type 0} → (String → Result A) → Answer A → Result A
map_err f (good a) = ok a
map_err f (bad e) = f e

-- serde_yaml on configurations.
pub record Yaml (F : Type 0) : Type 0 where
  pub from_str : String → Answer (Config F)
  pub to_string : Config F → Answer String

pub record ConfigManager (F : Type 0) : Type 0 where
  pub config : Config F
  pub config_path : Option String
  -- What was sent on `tx`, the initial value included.
  pub sent : List (Config F)

module _ (fl : Floats) where
  open fl use {F64}

  module _ (yaml : Yaml F64) where
    -- `content` is the answer of `read_to_string`.
    unfoldable pub load : (content : Answer String) → Result (Config F64)
    load content = do
      text ← map_err (λ e. err (io_error e)) content
      config ← map_err (λ e. err (parse_error e)) (yaml.from_str text)
      done ← validate fl config
      ok config

    -- The text that goes to the file, to whose writing `write` answers.
    unfoldable pub save : (write : String → Answer (Unit {0})) → Config F64 → Result (Unit {0})
    save write config = do
      content ← map_err (λ e. err (parse_error e)) (yaml.to_string config)
      map_err (λ e. err (io_error e)) (write content)

    unfoldable pub from_file :
        (path : String) (content : Answer String) → Result (ConfigManager F64)
    from_file path content = do
      config ← load content
      ok (record { config = config; config_path = some path; sent = config ∷ [] })

  unfoldable pub new_manager : ConfigManager F64
  new_manager = record {
    config = default_config fl;
    config_path = none;
    sent = default_config fl ∷ [];
  }

  -- One step. In the source the write lock is released before the send, so two updates at once could
  -- send in the other order than they store.
  unfoldable pub update : ConfigManager F64 → Config F64 → Result (Unit {0}) × ConfigManager F64
  update m new_config = elim (validate fl new_config) [
    | err e ↦ (err e, m)
    | ok u ↦ (ok tt, record m { config = new_config; sent = new_config ∷ m.sent })
  ]

  -- The new value is put into a copy.
  unfoldable pub set_managed :
      ConfigManager F64 → String → ParameterValue F64 → Result (Unit {0}) × ConfigManager F64
  set_managed m path value =
      let (result, config) = set_parameter fl m.config path value in
      elim result [ err e ↦ (err e, m) | ok u ↦ update m config ]

  module _ (yaml : Yaml F64) where
    abbrev pub reload_from :
        ConfigManager F64
        → (config_path : Option String) → Answer String
        → Result (Unit {0}) × ConfigManager F64
    reload_from m none content = (ok tt, m)
    reload_from m (some path) content = elim (load yaml content) [
      | err e ↦ (err e, m)
      | ok config ↦ update m config
    ]

    unfoldable pub reload :
        ConfigManager F64 → (content : Answer String) → Result (Unit {0}) × ConfigManager F64
    reload m content = reload_from m m.config_path content

    unfoldable pub save_managed :
        ConfigManager F64 → (write : String → String → Answer (Unit {0})) → Result (Unit {0})
    save_managed m write = elim (m.config_path) [
      | none ↦ ok tt
      | some path ↦ save yaml (write path) m.config
    ]
