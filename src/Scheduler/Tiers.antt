-- ===== src/Scheduler/Tiers.antt =====
-- `schedule_tiered_fill`: the ADSL links first, and the Starlink links once these are loaded. Nothing
-- calls it.
pub mod Share
pub mod Choice
use Prim.Native.String.{String}
use text.Mathlib.Text.{◌==◌}
use chainlightning.Base.{
  ℕ, ◌%◌, List, [], ◌∷◌, Option, none, some, Bool, true, false, ltb, leb, ◌&&◌, if◌then◌else◌, map,
  length, get_elem?, add64,
}
use chainlightning.Floats.{Floats}
use chainlightning.Scheduler.State.{
  LinkState, LinkScheduler, LinkTierConfig, ScheduleDecision, record_sent,
}
use chainlightning.Scheduler.Select.{note_sent}

abbrev pub load_at : List LinkState → ℕ → ℕ
load_at links i = elim (get_elem? links i) [ none ↦ 0 | some l ↦ l.measured_bandwidth_bps ]

module _ {F : Type 0} where
  -- `sort_by_key` by the priority, which keeps the order of equals.
  unfoldable pub insert_tier : LinkTierConfig F → List (LinkTierConfig F) → List (LinkTierConfig F)
  insert_tier t [] = t ∷ []
  insert_tier t (u ∷ us) =
      let later = insert_tier t us in if leb t.priority u.priority then t ∷ u ∷ us else u ∷ later

  unfoldable pub sort_tiers : List (LinkTierConfig F) → List (LinkTierConfig F)
  unfolding insert_tier
  sort_tiers [] = []
  sort_tiers (t ∷ ts) = insert_tier t (sort_tiers ts)

  abbrev pub capacity : (is_upload : Bool) → LinkTierConfig F → ℕ
  capacity is_upload t = if is_upload then t.capacity_up_bps else t.capacity_down_bps

  -- The tiers of a type, of links that exist.
  unfoldable pub tiers_of :
      (link_type : String) (n : ℕ) → List (LinkTierConfig F) → List (LinkTierConfig F)
  tiers_of link_type n [] = []
  tiers_of link_type n (t ∷ ts) =
      let later = tiers_of link_type n ts in
      if t.link_type == link_type && ltb t.link_id n then t ∷ later else later

  unfoldable pub total_capacity : (is_upload : Bool) → List (LinkTierConfig F) → ℕ
  total_capacity is_upload [] = 0
  total_capacity is_upload (t ∷ ts) = add64 (capacity is_upload t) (total_capacity is_upload ts)

  unfoldable pub total_load : List LinkState → List (LinkTierConfig F) → ℕ
  total_load links [] = 0
  total_load links (t ∷ ts) = add64 (load_at links t.link_id) (total_load links ts)

  -- The loop over a group: the first link whose cumulative capacity passes `pos`.
  unfoldable pub tier_loop :
      (is_upload : Bool) (pos cumulative : ℕ) → List (LinkTierConfig F) → Option ℕ
  tier_loop is_upload pos cumulative [] = none
  tier_loop is_upload pos cumulative (t ∷ ts) =
      let next = add64 cumulative (capacity is_upload t) in
      let rest = tier_loop is_upload pos next ts in if ltb pos next then some t.link_id else rest

  -- A group of links in turn, as the bytes go by; the first one if they have no capacity.
  unfoldable pub pick_of_group :
      LinkScheduler F
      → (chunk_size : ℕ) → LinkTierConfig F
      → List (LinkTierConfig F)
      → ℕ × LinkScheduler F
  unfolding total_capacity tier_loop
  pick_of_group s chunk_size first rest =
      let total = total_capacity s.is_upload (first ∷ rest) in
      if ltb 0 total
      then (
        elim (tier_loop s.is_upload (s.cursor % total) 0 (first ∷ rest)) [
          | none ↦ first.link_id
          | some i ↦ i
        ],
        record s { cursor = add64 s.cursor chunk_size },
      )
      else (first.link_id, s)

  abbrev first_tier : List (LinkTierConfig F) → ℕ
  first_tier [] = 0
  first_tier (t ∷ ts) = t.link_id

  unfoldable pub schedule_group :
      LinkScheduler F
      → (chunk_size : ℕ) → (tiers group : List (LinkTierConfig F))
      → ScheduleDecision × LinkScheduler F
  unfolding pick_of_group
  schedule_group s chunk_size tiers [] =
      let link_id = first_tier tiers in
      (
        record { link_id = link_id; delay = 0; participating_links = link_id ∷ [] },
        note_sent s link_id chunk_size,
      )
  schedule_group s chunk_size tiers (first ∷ rest) =
      let (link_id, t) = pick_of_group s chunk_size first rest in
      (
        record {
          link_id = link_id;
          delay = 0;
          participating_links = map (λ (u : LinkTierConfig F). u.link_id) (first ∷ rest);
        },
        note_sent t link_id chunk_size,
      )

  abbrev pub is_nonempty : List (LinkTierConfig F) → Bool
  is_nonempty [] = false
  is_nonempty (t ∷ ts) = true

module _ (fl : Floats) where
  open fl use {F64, lit, of_u64, to_u64, mul}

  -- The group for the next chunk: the ADSL links while they carry less than 90 % of their capacity.
  unfoldable pub group_in_use : LinkScheduler F64 → List (LinkTierConfig F64)
  unfolding sort_tiers tiers_of total_capacity total_load
  group_in_use s =
      let tiers = sort_tiers s.config.link_tiers in
      let adsl_links = tiers_of "adsl" (length s.links) tiers in
      let starlink_links = tiers_of "starlink" (length s.links) tiers in
      let adsl_threshold =
        to_u64 (mul (of_u64 (total_capacity s.is_upload adsl_links)) (lit 90 100)) in
      if ltb (total_load s.links adsl_links) adsl_threshold && is_nonempty adsl_links
      then adsl_links
      else starlink_links

  unfoldable pub schedule_tiered_fill :
      LinkScheduler F64 → (chunk_size : ℕ) → ScheduleDecision × LinkScheduler F64
  unfolding schedule_group group_in_use
  schedule_tiered_fill s chunk_size =
      schedule_group s chunk_size (sort_tiers s.config.link_tiers) (group_in_use s)
