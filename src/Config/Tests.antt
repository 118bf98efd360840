-- ===== src/Config/Tests.antt =====
-- The configuration at concrete requests.
use chainlightning.Base.{◌≡◌, ◌⊎◌, refl, List, [], ◌∷◌, some}
use chainlightning.Floats.{millionths}
use chainlightning.Config.State.{Config, ok, validate}
use chainlightning.Config.Params.{usize, float, get_parameter, set_parameter, assign}
use chainlightning.Config.Params.RoundTrip.{get_parameter-set_parameter}
use chainlightning.Config.Defaults.{default_config, default_rate_control}
use chainlightning.Config.Manager.{Yaml, bad, good, new_manager}
use chainlightning.Config.Manager.History.{
  Request, sets, reloads, step, run, IsManaged, fresh, IsValid, manager_valid, step_lem,
}

abbrev larger_chunks : Config (millionths.F64)
unfolding default_config
larger_chunks =
    let c = default_config millionths in
    record c { chunk_aggregator = record (c.chunk_aggregator) { max_chunk_size = 131_072 } }

get_parameter-set_parameter_example :
    (validate millionths larger_chunks ≡ ok tt)
    × (get_parameter larger_chunks "chunk_aggregator.max_chunk_size" ≡ some (usize 131_072))
unfolding set_parameter assign validate default_config default_rate_control
get_parameter-set_parameter_example =
    get_parameter-set_parameter millionths (default_config millionths) larger_chunks
      "chunk_aggregator.max_chunk_size" (usize 131_072) "chunk_aggregator.max_chunk_size" refl

-- A serializer that knows no text.
abbrev no_yaml : Yaml (millionths.F64)
no_yaml = record { from_str = λ text. bad "unknown"; to_string = λ config. good "" }

-- One change succeeds; a threshold above 1 and an unknown path are refused.
abbrev some_requests : List (Request millionths no_yaml)
some_requests =
    sets "chunk_aggregator.max_chunk_size" (usize 131_072)
    ∷ sets "flow_classifier.single_link_threshold" (float 1_500_000)
    ∷ sets "receiver.reorder_timeout" (usize 7)
    ∷ reloads (good "")
    ∷ []

manager_valid_example :
    IsManaged millionths no_yaml (run millionths no_yaml (new_manager millionths) some_requests)
unfolding new_manager default_config validate
manager_valid_example =
    manager_valid millionths no_yaml (new_manager millionths) some_requests (fresh refl)

abbrev wrong_threshold : Request millionths no_yaml
wrong_threshold = sets "flow_classifier.single_link_threshold" (float 1_500_000)

step_lem_example :
    let m = new_manager millionths in
    let (r, n) = step millionths no_yaml m wrong_threshold in
    (n ≡ m)
    ⊎ ((c : Config (millionths.F64)) × IsValid millionths no_yaml c
        × (r ≡ ok tt)
        × (n ≡ record m { config = c; sent = c ∷ m.sent }))
step_lem_example = step_lem millionths no_yaml (new_manager millionths) wrong_threshold
