-- ===== src/Node/Steps.antt =====
-- The tasks side by side: an event says which task moves, and what the outside answers. A task that
-- waits does not move.
pub mod Pipeline
pub mod Moves
pub mod Order
pub mod Runs
pub mod Arrive
pub mod Deliver
pub mod Rtt
pub mod Rest
use chainlightning.Base.{
  ℕ, List, [], ◌∷◌, Option, none, some, Bool, true, false, ◌&&◌, ltb, if◌then◌else◌, length, ◌>>=◌,
}
use chainlightning.Floats.{Floats}
use chainlightning.Aggregator.Chunk.{Chunk}
use chainlightning.Node.State.{Node, Peer, connected, learned}
use chainlightning.Node.Tasks.{
  channel_size, read_tun, send_read, poll_timeout, send_polled, send_chunk, receive, send_received,
  write_tun, update_stats, send_probes, send_keepalives,
}
use chainlightning.RateController.Ops as Rates
use chainlightning.Wire.Stats.{SerdeJson}

pub data Event : Type 0 where
  reads : (bytes : List ℕ) (now : ℕ) → Event
  reader_sends : Event
  polls : (now : ℕ) → Event
  checker_sends : Event
  sends : (accepted : Bool) (now : ℕ) → Event
  receiver_sends : (link_id now_us : ℕ) → Event
  receives : (link_id addr : ℕ) (datagram : List ℕ) (now now_us : ℕ) → Event
  writes : Event
  updates : (now timestamp memory : ℕ) → Event
  probes : (now_us : ℕ) → Event
  keeps_alive : (now_us : ℕ) → Event

abbrev has_room : List Chunk → Bool
has_room cs = ltb (length cs) channel_size

module _ (fl : Floats) where
  open fl use {F64}

  -- The TUN reader reads while it has no chunk to send, and takes no notice of a read of no bytes.
  abbrev pub step_read : Option (Chunk × ℕ) → List ℕ → (now : ℕ) → Node F64 → Node F64
  step_read none [] now n = n
  step_read none (b ∷ bytes) now n = read_tun fl (b ∷ bytes) now n
  step_read (some waiting) bytes now n = n

  abbrev pub step_read_send : Option (Chunk × ℕ) → Node F64 → Node F64
  step_read_send none n = n
  step_read_send (some (c, bytes)) n = if has_room n.to_links then send_read fl c bytes n else n

  abbrev pub step_poll : Option Chunk → (now : ℕ) → Node F64 → Node F64
  step_poll none now n = poll_timeout fl now n
  step_poll (some waiting) now n = n

  abbrev pub step_poll_send : Option Chunk → Node F64 → Node F64
  step_poll_send none n = n
  step_poll_send (some c) n = if has_room n.to_links then send_polled fl c n else n

  abbrev pub step_send : List Chunk → (accepted : Bool) → (now : ℕ) → Node F64 → Node F64
  step_send [] accepted now n = n
  step_send (c ∷ rest) accepted now n = send_chunk fl c rest accepted now n

  abbrev pub step_received : Option Chunk → (link_id now_us : ℕ) → Node F64 → Node F64
  step_received none link_id now_us n = n
  step_received (some c) link_id now_us n =
      if has_room n.from_links then send_received fl link_id now_us c n else n

  abbrev pub step_write : List Chunk → Node F64 → Option (Node F64)
  step_write [] n = some n
  step_write (c ∷ rest) n = write_tun fl c rest n

  -- Only the client sends keepalives.
  abbrev pub step_keepalive : Peer → (now_us : ℕ) → Node F64 → Node F64
  step_keepalive connected now_us n = send_keepalives fl now_us n
  step_keepalive (learned addrs) now_us n = n

  module _ (j : SerdeJson) where
    -- A link receiver reads a datagram while it has no chunk to send.
    abbrev pub step_receive :
        Option Chunk → (link_id addr : ℕ) → List ℕ → (now now_us : ℕ) → Node F64 → Option (Node F64)
    step_receive none link_id addr datagram now now_us n =
        receive fl j link_id addr datagram now now_us n
    step_receive (some waiting) link_id addr datagram now now_us n = some n

    unfoldable pub step : Node F64 → Event → Option (Node F64)
    step n (reads bytes now) = some (step_read n.reader_chunk bytes now n)
    step n reader_sends = some (step_read_send n.reader_chunk n)
    step n (polls now) = some (step_poll n.checker_chunk now n)
    step n checker_sends = some (step_poll_send n.checker_chunk n)
    step n (sends accepted now) = some (step_send n.to_links accepted now n)
    step n (receives link_id addr datagram now now_us) =
        step_receive (n.held link_id) link_id addr datagram now now_us n
    step n (receiver_sends link_id now_us) = some (step_received (n.held link_id) link_id now_us n)
    step n writes = step_write n.from_links n
    step n (updates now timestamp memory) = update_stats fl n.phase now timestamp memory n
    step n (probes now_us) = some (if Rates.enabled n.rates then send_probes fl now_us n else n)
    step n (keeps_alive now_us) = some (step_keepalive n.peer now_us n)

    unfoldable pub run : Node F64 → List Event → Option (Node F64)
    run n [] = some n
    run n (e ∷ es) = step n e >>= λ m. run m es
