-- ===== src/Metrics/Counters/Shape.antt =====
-- The arrays of the counters keep one entry for each link.
use chainlightning.Base.{ℕ, ◌≡◌, List, [], ◌∷◌, ◌++◌, add64, arith, length, length-modify}
use chainlightning.Links.{num_links}
use chainlightning.Metrics.State.{RawCounters, new_counters}
use chainlightning.Metrics.Counters.{
  Recording, packet_sent, packet_acked, link_rtt, link_received, link_sent, record_one, modify_link,
}

pub record IsShaped (c : RawCounters) : Type 0 where
  pub bytes_down : length c.link_bytes_down ≡ num_links
  pub bytes_up : length c.link_bytes_up ≡ num_links
  pub packets_sent : length c.link_packets_sent ≡ num_links
  pub packets_acked : length c.link_packets_acked ≡ num_links
  pub rtt_samples : length c.link_rtt_samples ≡ num_links

length-modify_link {ℓ} :
    {A : Type ℓ} (f : A → A) (xs : List A) (i : ℕ) → length (modify_link f xs i) ≡ length xs
length-modify_link f xs i = ground (arith, length-modify f xs i)

pub new_counters-IsShaped : (now : ℕ) → IsShaped (new_counters now)
unfolding new_counters
new_counters-IsShaped now = omega arith

pub record_one-IsShaped : (r : Recording) (c : RawCounters) → IsShaped c → IsShaped (record_one r c)
unfolding record_one
record_one-IsShaped (packet_sent link_id) c h =
    ground (arith, length-modify_link (add64 1) c.link_packets_sent link_id)
record_one-IsShaped (packet_acked link_id) c h =
    ground (arith, length-modify_link (add64 1) c.link_packets_acked link_id)
record_one-IsShaped (link_rtt link_id rtt_us) c h = ground (
  arith,
  length-modify_link (λ (samples : List ℕ). samples ++ rtt_us ∷ []) c.link_rtt_samples link_id,
)
record_one-IsShaped (link_received link_id bytes) c h =
    ground (arith, length-modify_link (add64 bytes) c.link_bytes_down link_id)
record_one-IsShaped (link_sent link_id bytes) c h =
    ground (arith, length-modify_link (add64 bytes) c.link_bytes_up link_id)
record_one-IsShaped _ c h = omega arith
