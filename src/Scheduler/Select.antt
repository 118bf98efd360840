-- ===== src/Scheduler/Select.antt =====
-- `schedule` and what it calls: weighted round-robin over the links, and the synchronising delay.
pub mod Fairness
pub mod Cycle
pub mod Delay
use chainlightning.Base.{
  ℕ, zero, suc, ◌+◌, ◌-◌, ◌*◌, ◌%◌, List, [], ◌∷◌, Option, none, some, Bool, ltb, ◌==◌,
  if◌then◌else◌, min, max, map, length, modify, get_elem?, add64, add32,
}
use chainlightning.Clock.{from_millis}
use chainlightning.Scheduler.State.{
  LinkState, LinkScheduler, ScheduleDecision, record_sent, one_way_latency,
}

-- The loop of `weighted_select`: the first link whose cumulative weight passes `pos`. A link of
-- weight 0 is skipped.
unfoldable pub select_loop : ℕ → ℕ → List LinkState → Option ℕ
select_loop pos cumulative [] = none
select_loop pos cumulative (l ∷ ls) =
    let next = add32 cumulative l.weight in
    let skip = select_loop pos cumulative ls in
    let rest = select_loop pos next ls in
    if l.weight == 0 then skip else if ltb pos next then some l.id else rest

-- `self.links.iter().find(|l| l.weight > 0)`.
unfoldable pub first_weighted : List LinkState → Option ℕ
first_weighted [] = none
first_weighted (l ∷ ls) = if ltb 0 l.weight then some l.id else first_weighted ls

abbrev pub or_zero : Option ℕ → ℕ
or_zero none = 0
or_zero (some i) = i

abbrev pub or_else : Option ℕ → ℕ → ℕ
or_else none d = d
or_else (some i) d = i

-- The link at a position of the round.
unfoldable pub link_at : List LinkState → ℕ → ℕ
unfolding select_loop first_weighted
link_at links pos = or_else (select_loop pos 0 links) (or_zero (first_weighted links))

-- `(0..n)`.
unfoldable pub indexes : ℕ → ℕ → List ℕ
indexes i zero = []
indexes i (suc n) = i ∷ indexes (i + 1) n

unfoldable pub weighted_links : List LinkState → List LinkState
weighted_links [] = []
weighted_links (l ∷ ls) = if ltb 0 l.weight then l ∷ weighted_links ls else weighted_links ls

-- The greatest one-way latency of the links in use, 0 if there is none.
unfoldable pub max_latency : List LinkState → ℕ
unfolding one_way_latency
max_latency [] = 0
max_latency (l ∷ ls) = max (one_way_latency l) (max_latency ls)

-- How long to hold a chunk back on a link that is faster than the slowest, at most `longest`.
abbrev pub sync_gap : (longest slowest own : ℕ) → ℕ
sync_gap longest slowest own = if ltb own slowest then min (slowest - own) longest else 0

module _ {F : Type 0} where
  unfoldable pub weighted_select : LinkScheduler F → ℕ × LinkScheduler F
  unfolding link_at
  weighted_select s =
      let cursor = add64 s.cursor 1 in
      (link_at s.links (cursor % s.total_weight), record s { cursor = cursor })

  abbrev pub note_sent : LinkScheduler F → ℕ → ℕ → LinkScheduler F
  note_sent s link_id bytes = record s { links = modify (record_sent bytes) s.links link_id }

  unfoldable pub schedule_single_link : LinkScheduler F → ℕ → ScheduleDecision × LinkScheduler F
  unfolding weighted_select indexes record_sent
  schedule_single_link s chunk_size =
      let (link_id, t) = weighted_select s in
      (
        record { link_id = link_id; delay = 0; participating_links = indexes 0 (length t.links) },
        note_sent t link_id chunk_size,
      )

  unfoldable pub calculate_sync_delay : LinkScheduler F → ℕ → ℕ
  unfolding weighted_links max_latency one_way_latency
  calculate_sync_delay s target_link = elim (get_elem? s.links target_link) [
    | none ↦ 0
    | some target ↦
        sync_gap (from_millis s.config.max_send_delay_ms) (max_latency (weighted_links s.links))
          (one_way_latency target)
  ]

  unfoldable pub schedule_multi_link : LinkScheduler F → ℕ → ScheduleDecision × LinkScheduler F
  unfolding weighted_select calculate_sync_delay weighted_links record_sent
  schedule_multi_link s chunk_size =
      let (link_id, t) = weighted_select s in
      let u = note_sent t link_id chunk_size in
      (
        record {
          link_id = link_id;
          delay = if t.config.enable_sync then calculate_sync_delay t link_id else 0;
          participating_links = map (λ l. l.id) (weighted_links u.links);
        },
        u,
      )

  unfoldable pub schedule : LinkScheduler F → ℕ → Bool → ScheduleDecision × LinkScheduler F
  unfolding schedule_single_link schedule_multi_link
  schedule s chunk_size multi_link =
      if multi_link then schedule_multi_link s chunk_size else schedule_single_link s chunk_size
