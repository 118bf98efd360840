-- ===== src/Node/Tests.antt =====
-- Two programs side by side, with chunks of a few bytes.
use chainlightning.Base.{
  ℕ, ◌≡◌, refl, List, [], ◌∷◌, ◌++◌, none, some, Option, to_be, from_be, true, false, arith, map,
}
use chainlightning.Floats.{millionths}
use chainlightning.Aggregator.Ops.Delivery.{deliver}
use chainlightning.Config.Defaults.{default_config}
use chainlightning.Config.State.{Config}
use chainlightning.Node.State.{Node, connected, new_node, no_addresses}
use chainlightning.Node.Steps.{
  Event, reads, reader_sends, polls, sends, receives, updates, run, step,
}
use chainlightning.Node.Steps.Arrive.{Arrival, arrivals}
use chainlightning.Node.Steps.Deliver.{waiting, tunnel_delivers}
use chainlightning.Node.Steps.Rest.{rtt_stays_zero}
use chainlightning.Node.Steps.Rtt.{IsAtRest, answer}
use chainlightning.Aggregator.Chunk.{size, is_empty, push_packet}
use chainlightning.Aggregator.Ops
use chainlightning.Aggregator.Ops.{add_packet, check_timeout}
use chainlightning.Classifier.{classify}
use chainlightning.Node.State.{reaches}
use chainlightning.Node.Tasks.{read_tun, send_chunk, chunk_packet, poll_timeout, ack_packet}
use chainlightning.Scheduler.Select.{schedule}
use chainlightning.Scheduler.State as Scheduler
use chainlightning.Scheduler.State.{total_of}
use chainlightning.Metrics.Snapshot.{
  snapshot, metrics_of, calculate_percentiles, link_rows, link_metrics,
}
use chainlightning.Metrics.State.{new_collector}
use chainlightning.Node.Tasks.{update_stats, push_stats, receive, handle_packet}
use chainlightning.RateController.Ops as Rates
use chainlightning.Stats.Collector
use chainlightning.Wire.Packet
use chainlightning.Wire.Ack as Ack
use chainlightning.Wire.Chunk as Wire
use chainlightning.Wire.Flow.{from_packet}
use chainlightning.Wire.Stats.{SerdeJson}

-- JSON of no kind.
abbrev no_json : SerdeJson
no_json = record { F32 = ℕ; to_vec = λ p. none; from_slice = λ bs. none }

-- Each packet makes a chunk.
abbrev tiny_config : Config (millionths.F64)
unfolding default_config
tiny_config =
    let c = default_config millionths in
    record c { chunk_aggregator = record (c.chunk_aggregator) { min_chunk_size = 4 } }

abbrev client : Node (millionths.F64)
client = new_node millionths tiny_config true connected 0

abbrev short_run : List Event
short_run =
    reads (1 ∷ 2 ∷ 3 ∷ []) 10 ∷ reader_sends ∷ polls 20 ∷ sends true 30 ∷ reads (9 ∷ []) 40 ∷ []

abbrev or_client : Option (Node (millionths.F64)) → Node (millionths.F64)
or_client none = client
or_client (some n) = n

abbrev sender : Node (millionths.F64)
sender = or_client (run millionths no_json client short_run)

-- The other side hears each datagram on link 3.
abbrev heard : List Arrival
heard =
    map
      (λ (t : ℕ × List ℕ). record { link_id = 3; addr = 7; datagram = t.1; now = 50; now_us = 50 })
      sender.transmitted

abbrev server : Node (millionths.F64)
server = new_node millionths tiny_config false (no_addresses millionths) 0

tunnel_delivers_example :
    (m : Node (millionths.F64)) × (sent : List (List ℕ)) × (rest : List (List ℕ)) × (run millionths
        no_json server
        (arrivals heard)
      ≡ some m)
    × (m.written ≡ [] ++ sent)
    × (deliver (waiting millionths no_json sender) ≡ some rest)
    × ((1 ∷ 2 ∷ 3 ∷ []) ∷ (9 ∷ []) ∷ [] ≡ sent ++ rest)
unfolding run step new_node read_tun add_packet Ops.new size is_empty push_packet send_chunk
    schedule Scheduler.new total_of reaches Wire.encode chunk_packet from_packet classify
    poll_timeout check_timeout tiny_config default_config to_be Scheduler.bandwidth_to_weight
tunnel_delivers_example =
    tunnel_delivers millionths no_json tiny_config true connected 0 short_run sender server heard
      refl refl (omega arith) refl (λ i. refl) refl

-- The statistics task up to the first link, then an ACK of the other side.
abbrev answered_run : List Event
unfolding ack_packet
answered_run =
    updates 1_000_000_000 5 4096
    ∷ updates 1_000_000_010 5 4096
    ∷ updates 1_000_000_020 5 4096
    ∷ receives 2 9 (Ack.encode (ack_packet 2 0 40)) 1_000_000_100 45
    ∷ []

answered : Node (millionths.F64)
answered = or_client (run millionths no_json client answered_run)

rtt_stays_zero_example : IsAtRest millionths 4 answered.stats answered.aggregator
unfolding answered default_config run step answered_run update_stats snapshot metrics_of
    calculate_percentiles Rates.enabled new_node Rates.new push_stats Collector.bandwidths
    Collector.tick Collector.new Collector.rtts new_collector link_rows link_metrics receive
    Packet.decode Ack.encode Ack.decode handle_packet from_be to_be ack_packet tiny_config
rtt_stays_zero_example =
    rtt_stays_zero millionths no_json tiny_config true connected 0 answered_run answered refl
      (tt, (tt, (tt, (answer 2 0 40 (omega arith) (omega arith), tt))))
