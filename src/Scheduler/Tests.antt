-- ===== src/Scheduler/Tests.antt =====
-- The scheduler over three links of 3, 1 and 2 Mbps.
use Prim.Native.String.{String}
use chainlightning.Base.{ℕ, map, ◌%◌, ◌<◌, ◌≡◌, refl, List, [], ◌∷◌, Bool, true, false, arith}
use chainlightning.Floats.{millionths}
use chainlightning.Scheduler.State.{
  LinkState, LinkTierConfig, LinkSchedulerConfig, LinkScheduler, new, new_link, total_of,
  bandwidth_to_weight,
}
use chainlightning.Scheduler.Select.{schedule}
use chainlightning.Scheduler.Weights.{
  update_link, set_rate_controlled_weights, weights, target_weights,
}
use chainlightning.Scheduler.Tiers.{
  capacity, group_in_use, schedule_tiered_fill, sort_tiers, insert_tier, tiers_of, total_capacity,
  total_load,
}
use chainlightning.Scheduler.Tiers.Share.{Owns}
use chainlightning.Scheduler.Tiers.Choice.{sum_of, sum_in_type, InOrder, tiered_fill_share}
use chainlightning.Scheduler.Weights.Due.{update_link_resets}
use chainlightning.Scheduler.Select.Fairness.{schedule_fair, count, choices, share, weight_sum}
use chainlightning.Scheduler.Select.Delay.{schedule-IsChoice, IsChoice}
use chainlightning.Scheduler.History.{schedules, measures, acks, rates, resets, run}
use chainlightning.Scheduler.History.Choice.{scheduler_history}

abbrev sync_config : LinkSchedulerConfig ℕ
sync_config = record {
  sync_interval_ms = 50;
  max_send_delay_ms = 100;
  enable_sync = true;
  strategy = "weighted";
  link_tiers = [];
  flow_affinity = false;
  flow_affinity_timeout_secs = 30;
}

abbrev three_links : LinkScheduler ℕ
unfolding new
three_links = new sync_config (375_000 ∷ 125_000 ∷ 250_000 ∷ []) false 0

abbrev six_chunks : List (ℕ × Bool)
six_chunks =
    (100, true) ∷ (200, false) ∷ (100, true) ∷ (1_400, true) ∷ (9, false) ∷ (100, true) ∷ []

schedule_fair_example : count 0 (choices three_links six_chunks) ≡ 3
unfolding new share weight_sum bandwidth_to_weight
schedule_fair_example =
    schedule_fair three_links six_chunks 0 refl (omega arith) (omega arith) (omega arith) refl

scheduler_history_example :
    let s = run millionths (new sync_config (375_000 ∷ 125_000 ∷ []) false 0) (
      schedules 100 true
      ∷ rates (0 ∷ 5 ∷ [])
      ∷ measures 1 50_000 20_000 true 2_000_000_000
      ∷ acks 0 100
      ∷ resets
      ∷ []) in
    (s.total_weight ≡ total_of s.links) × ((schedule s 100 false).0.link_id < 2)
scheduler_history_example =
    scheduler_history millionths sync_config 375_000 (125_000 ∷ []) false 0
      (schedules 100 true
        ∷ rates (0 ∷ 5 ∷ [])
        ∷ measures 1 50_000 20_000 true 2_000_000_000
        ∷ acks 0 100
        ∷ resets
        ∷ [])
      100 false

-- Two links with round trips of 20 and 80 ms.
abbrev quick_link : LinkState
unfolding new_link
quick_link = record (new_link 0 375_000 0) { rtt_us = 20_000 }

abbrev slow_link : LinkState
unfolding new_link
slow_link = record (new_link 1 125_000 0) { rtt_us = 80_000 }

abbrev quick_and_slow : LinkScheduler ℕ
unfolding new
quick_and_slow = record (new sync_config (375_000 ∷ 125_000 ∷ []) false 0) {
  links = quick_link ∷ slow_link ∷ [];
}

schedule-IsChoice_example : IsChoice (schedule three_links 100 true).0.link_id three_links.links
schedule-IsChoice_example = schedule-IsChoice three_links 100 true

update_link_resets_example :
    weights (
      update_link millionths 0 0 20_000 true 1_000_000_000
        (set_rate_controlled_weights (0 ∷ 7 ∷ []) three_links))
    ≡ 3 ∷ 1 ∷ 2 ∷ []
unfolding new target_weights bandwidth_to_weight
update_link_resets_example =
    update_link_resets millionths three_links (0 ∷ 7 ∷ []) 0 0 20_000 1_000_000_000 true
      (omega arith)

abbrev tier : (link_id priority capacity : ℕ) → String → LinkTierConfig ℕ
tier link_id priority capacity link_type = record {
  link_id = link_id;
  priority = priority;
  capacity_down_bps = capacity;
  capacity_up_bps = capacity;
  utilization_threshold = 900_000;
  realtime_eligible = true;
  link_type = link_type;
}

-- The first two links are ADSL, the second before the first.
abbrev tiered_links : LinkScheduler ℕ
tiered_links = record three_links {
  cursor = 600_000;
  config = record sync_config {
    link_tiers =
        tier 0 2 1_000_000 "adsl" ∷ tier 1 1 500_000 "adsl" ∷ tier 2 3 800_000 "starlink" ∷ [];
  };
}

tiered_group :
    map (λ (t : LinkTierConfig ℕ). t.link_id) (group_in_use millionths tiered_links) ≡ 1 ∷ 0 ∷ []
unfolding group_in_use sort_tiers insert_tier tiers_of total_capacity total_load three_links new
tiered_group = refl

tiered_fill_share_example :
    let total = sum_in_type millionths tiered_links (capacity false) "adsl" in
    (group : List (LinkTierConfig ℕ)) × InOrder group
    × ((f : LinkTierConfig ℕ → ℕ) → sum_of f group ≡ sum_in_type millionths tiered_links f "adsl")
    × Owns false group
        (600_000 % total)
        (schedule_tiered_fill millionths tiered_links 100).0.link_id
unfolding three_links new
tiered_fill_share_example =
    tiered_fill_share millionths tiered_links 100 (omega arith) (omega arith)
