-- ===== src/Stats/Tests.antt =====
-- The statistics on a short history.
use chainlightning.Base.Latest.{latest}
use chainlightning.Base.{ℕ, ◌≡◌, refl, List, [], ◌∷◌, some, not, ltb, get_elem?}
use chainlightning.Floats.{millionths}
use chainlightning.Stats.Link
use chainlightning.Stats.Link.{LinkStats, LinkEvent, new_link_stats, link_step, link_run}
use chainlightning.Stats.Link.Samples.{link_run-samples, link_run-health}
use chainlightning.Stats.Collector.{Event, tx, rtt, ticks, new, run}
use chainlightning.Stats.Collector.Separate.{collector_separates, events_of, map_some}

abbrev short_history : List (Event millionths)
short_history = tx 0 1_400 5 ∷ rtt 1 30_000 ∷ tx 1 60 6 ∷ ticks 2_000_000_000 ∷ rtt 7 10 ∷ []

collector_separates_example :
    get_elem? (run millionths (new millionths 2 200_000 1000 0) short_history).links 1
    ≡ map_some
        (λ (l : LinkStats ℕ).
          link_run millionths l (events_of millionths 200_000 1_000_000_000 1 short_history))
        (some (new_link_stats millionths 0 1))
unfolding new
collector_separates_example =
    collector_separates millionths (new millionths 2 200_000 1000 0) 1 short_history

abbrev link_history : List (LinkEvent millionths)
link_history =
    Link.tx 1_400 5
    ∷ Link.rtt 900_000 200_000
    ∷ Link.ticks 1_000_000_000 6
    ∷ Link.rtt 800 200_000
    ∷ []

link_run-samples_example :
    (link_run millionths (new_link_stats millionths 0 3) link_history).rtt_samples
    ≡ latest 100 (900_000 ∷ 800 ∷ [])
link_run-samples_example = link_run-samples millionths 0 3 link_history

link_run-health_example :
    let l = link_run millionths (new_link_stats millionths 0 3) link_history in
    (link_step millionths l (Link.ticks 1_000_000_000 8)).healthy
    ≡ not (ltb 500_000 l.smoothed_rtt_us)
link_run-health_example = link_run-health millionths 0 3 1_000_000_000 8 link_history refl
