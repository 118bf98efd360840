-- ===== src/Classifier/Tests.antt =====
-- A flow that stays within its thresholds.
use chainlightning.Base.{ℕ, ◌≡◌, refl, List, [], ◌∷◌, ◌++◌}
use chainlightning.Floats.{millionths}
use chainlightning.Classifier.{
  FlowClassifierConfig, FlowClassifier, single_link, multi_link, new_flow, new, fastest, sum_all,
  observe, record_bytes, recent, estimated_bandwidth, sum_bytes, decide,
}
use chainlightning.Classifier.Modes.{decisions, single_link_stable}
use chainlightning.Classifier.Sustained.{observes, loads, load, Lasted, switch_needs_load}

abbrev classifier_config : FlowClassifierConfig ℕ
classifier_config = record {
  single_link_threshold = 660_000;
  multi_link_threshold = 900_000;
  monitor_duration_ms = 500;
  flow_window_ms = 1_000;
  flow_expiry_ms = 30_000;
}

abbrev ratios : List (ℕ × ℕ)
ratios = (700_000, 10) ∷ (850_000, 900_000_000) ∷ (700_000, 2_000_000_000) ∷ []

single_link_stable_example :
    (decisions millionths classifier_config 0 ratios (new_flow 7 2 0)).mode ≡ single_link 2
single_link_stable_example =
    single_link_stable millionths classifier_config 0 2 ratios (new_flow 7 2 0) refl
      (refl, (refl, (refl, tt)))

abbrev slow_links : FlowClassifier ℕ
unfolding new
slow_links = new classifier_config (1_000 ∷ 2_000 ∷ [])

-- Packets of 1500 bytes, each 200 ms after the one before.
abbrev busy : List (ℕ × ℕ)
busy =
    (1_500, 10_000_000_000)
    ∷ (1_500, 10_200_000_000)
    ∷ (1_500, 10_400_000_000)
    ∷ (1_500, 10_600_000_000)
    ∷ []

busy_switches :
    (observe millionths slow_links 1_500 10_800_000_000
      (observes millionths slow_links busy (new_flow 7 slow_links.fastest_link 9_000_000_000))).mode
    ≡ multi_link
unfolding observe observes record_bytes recent estimated_bandwidth sum_bytes decide new fastest
    sum_all
busy_switches = refl

switch_needs_load_example :
    let first = new_flow 7 slow_links.fastest_link 9_000_000_000 in
    let flow = observes millionths slow_links busy first in
    Lasted millionths slow_links.config flow.mode
      (observe millionths slow_links 1_500 10_800_000_000 flow).mode
      10_800_000_000
      (loads millionths slow_links busy first
        ++ (load millionths slow_links 1_500 10_800_000_000 flow, 10_800_000_000) ∷ [])
switch_needs_load_example =
    switch_needs_load millionths slow_links 7 9_000_000_000 busy 1_500 10_800_000_000
