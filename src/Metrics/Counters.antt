-- ===== src/Metrics/Counters.antt =====
-- The operations of `MetricsCollector` that count, as functions on the counters.
pub mod Shape
use chainlightning.Base.{ℕ, List, [], ◌∷◌, ◌++◌, ltb, if◌then◌else◌, modify, add64}
use chainlightning.Links.{num_links}
use chainlightning.Metrics.State.{RawCounters}

-- `if link_id < NUM_LINKS { xs[link_id] … }`.
abbrev pub modify_link {ℓ} : {A : Type ℓ} → (A → A) → List A → (link_id : ℕ) → List A
modify_link f xs link_id = if ltb link_id num_links then modify f xs link_id else xs

unfoldable pub record_packet_tx : (bytes : ℕ) → RawCounters → RawCounters
record_packet_tx bytes c = record c {
  packets_sent = add64 c.packets_sent 1;
  bytes_up = add64 c.bytes_up bytes;
}

unfoldable pub record_packet_rx : (bytes : ℕ) → RawCounters → RawCounters
record_packet_rx bytes c = record c {
  packets_received = add64 c.packets_received 1;
  bytes_down = add64 c.bytes_down bytes;
}

unfoldable pub record_chunk_tx : (bytes : ℕ) → RawCounters → RawCounters
record_chunk_tx bytes c = record c {
  chunks_sent = add64 c.chunks_sent 1;
  bytes_up = add64 c.bytes_up bytes;
}

unfoldable pub record_chunk_rx : (bytes : ℕ) → RawCounters → RawCounters
record_chunk_rx bytes c = record c {
  chunks_received = add64 c.chunks_received 1;
  bytes_down = add64 c.bytes_down bytes;
}

unfoldable pub record_bytes_down : (bytes : ℕ) → RawCounters → RawCounters
record_bytes_down bytes c = record c { bytes_down = add64 c.bytes_down bytes }

unfoldable pub record_bytes_up : (bytes : ℕ) → RawCounters → RawCounters
record_bytes_up bytes c = record c { bytes_up = add64 c.bytes_up bytes }

unfoldable pub record_packet_sent : (link_id : ℕ) → RawCounters → RawCounters
record_packet_sent link_id c = record c {
  packets_sent = add64 c.packets_sent 1;
  link_packets_sent = modify_link (add64 1) c.link_packets_sent link_id;
}

unfoldable pub record_packet_received : RawCounters → RawCounters
record_packet_received c = record c { packets_received = add64 c.packets_received 1 }

unfoldable pub record_packet_lost : RawCounters → RawCounters
record_packet_lost c = record c { packets_lost = add64 c.packets_lost 1 }

unfoldable pub record_packet_acked : (link_id : ℕ) → RawCounters → RawCounters
record_packet_acked link_id c = record c {
  link_packets_acked = modify_link (add64 1) c.link_packets_acked link_id;
}

unfoldable pub record_chunk_sent : RawCounters → RawCounters
record_chunk_sent c = record c { chunks_sent = add64 c.chunks_sent 1 }

unfoldable pub record_chunk_received : RawCounters → RawCounters
record_chunk_received c = record c { chunks_received = add64 c.chunks_received 1 }

unfoldable pub record_chunk_reordered : RawCounters → RawCounters
record_chunk_reordered c = record c { chunks_reordered = add64 c.chunks_reordered 1 }

unfoldable pub record_gap : RawCounters → RawCounters
record_gap c = record c { gaps_detected = add64 c.gaps_detected 1 }

unfoldable pub record_latency_us : (latency_us : ℕ) → RawCounters → RawCounters
record_latency_us latency_us c = record c { latency_samples = c.latency_samples ++ latency_us ∷ [] }

unfoldable pub record_link_rtt_us : (link_id rtt_us : ℕ) → RawCounters → RawCounters
record_link_rtt_us link_id rtt_us c = record c {
  link_rtt_samples = modify_link (λ samples. samples ++ rtt_us ∷ []) c.link_rtt_samples link_id;
}

unfoldable pub record_link_bytes_down : (link_id bytes : ℕ) → RawCounters → RawCounters
record_link_bytes_down link_id bytes c = record c {
  link_bytes_down = modify_link (add64 bytes) c.link_bytes_down link_id;
}

unfoldable pub record_link_bytes_up : (link_id bytes : ℕ) → RawCounters → RawCounters
record_link_bytes_up link_id bytes c = record c {
  link_bytes_up = modify_link (add64 bytes) c.link_bytes_up link_id;
}

unfoldable pub record_flow_counts : (active single multi : ℕ) → RawCounters → RawCounters
record_flow_counts active single multi c = record c {
  active_flows = active;
  single_link_flows = single;
  multi_link_flows = multi;
}

-- One of these operations.
pub data Recording : Type 0 where
  packet_tx : (bytes : ℕ) → Recording
  packet_rx : (bytes : ℕ) → Recording
  chunk_tx : (bytes : ℕ) → Recording
  chunk_rx : (bytes : ℕ) → Recording
  received_bytes : (bytes : ℕ) → Recording
  sent_bytes : (bytes : ℕ) → Recording
  packet_sent : (link_id : ℕ) → Recording
  packet_received : Recording
  packet_lost : Recording
  packet_acked : (link_id : ℕ) → Recording
  chunk_sent : Recording
  chunk_received : Recording
  chunk_reordered : Recording
  gap : Recording
  latency : (latency_us : ℕ) → Recording
  link_rtt : (link_id rtt_us : ℕ) → Recording
  link_received : (link_id bytes : ℕ) → Recording
  link_sent : (link_id bytes : ℕ) → Recording
  flow_counts : (active single multi : ℕ) → Recording

unfoldable pub record_one : Recording → RawCounters → RawCounters
unfolding record_packet_tx record_packet_rx record_chunk_tx record_chunk_rx record_bytes_down
    record_bytes_up record_packet_sent record_packet_received record_packet_lost record_packet_acked
    record_chunk_sent record_chunk_received record_chunk_reordered record_gap record_latency_us
    record_link_rtt_us record_link_bytes_down record_link_bytes_up record_flow_counts
record_one (packet_tx bytes) c = record_packet_tx bytes c
record_one (packet_rx bytes) c = record_packet_rx bytes c
record_one (chunk_tx bytes) c = record_chunk_tx bytes c
record_one (chunk_rx bytes) c = record_chunk_rx bytes c
record_one (received_bytes bytes) c = record_bytes_down bytes c
record_one (sent_bytes bytes) c = record_bytes_up bytes c
record_one (packet_sent link_id) c = record_packet_sent link_id c
record_one packet_received c = record_packet_received c
record_one packet_lost c = record_packet_lost c
record_one (packet_acked link_id) c = record_packet_acked link_id c
record_one chunk_sent c = record_chunk_sent c
record_one chunk_received c = record_chunk_received c
record_one chunk_reordered c = record_chunk_reordered c
record_one gap c = record_gap c
record_one (latency latency_us) c = record_latency_us latency_us c
record_one (link_rtt link_id rtt_us) c = record_link_rtt_us link_id rtt_us c
record_one (link_received link_id bytes) c = record_link_bytes_down link_id bytes c
record_one (link_sent link_id bytes) c = record_link_bytes_up link_id bytes c
record_one (flow_counts active single multi) c = record_flow_counts active single multi c
