-- ===== src/Node/Steps/Pipeline.antt =====
-- From the aggregator to the chunk sender: what the tasks do with the chunks of the aggregator.
use chainlightning.Base.{ℕ, ◌/◌, ◌%◌, ◌^◌, List, [], ◌∷◌, ◌++◌, Option, none, some, take}
use chainlightning.Floats.{Floats}
use chainlightning.Aggregator.Chunk.{Chunk}
use chainlightning.Aggregator.Ops
use chainlightning.Aggregator.Ops.{
  ChunkAggregator, adds, polls, updates, add_packet, check_timeout, update_link_stats, cons_some,
}
use chainlightning.Node.State.{Node, Phase, pushing}
use chainlightning.Node.Steps
use chainlightning.Node.Steps.{Event, step}
use chainlightning.Wire.Flow.{from_packet}

-- The chunk that a task has in its hands.
abbrev pub reader_list : Option (Chunk × ℕ) → List Chunk
reader_list none = []
reader_list (some (c, bytes)) = c ∷ []

abbrev pub checker_list : Option Chunk → List Chunk
checker_list none = []
checker_list (some c) = c ∷ []

-- Every chunk behind the aggregator: taken by the chunk sender, in the channel, in a task's hands.
abbrev pub pipeline : {F : Type 0} → Node F → List Chunk
pipeline n = n.taken ++ (n.to_links ++ (checker_list n.checker_chunk ++ reader_list n.reader_chunk))

module _ (fl : Floats) where
  open fl use {F64}

  -- What an event asks of the aggregator.
  abbrev pub stats_request : Phase → List (Ops.Event fl)
  stats_request (pushing i (bw ∷ bws) (rtt ∷ rtts)) = updates i bw (rtt / 1000 % 2 ^ 32) ∷ []
  stats_request _ = []

  abbrev pub read_request : Option (Chunk × ℕ) → List ℕ → (now : ℕ) → List (Ops.Event fl)
  read_request none [] now = []
  read_request none (b ∷ bytes) now =
      let packet = take 2000 (b ∷ bytes) in adds packet (from_packet packet) now ∷ []
  read_request (some waiting) bytes now = []

  abbrev pub poll_request : Option Chunk → (now : ℕ) → List (Ops.Event fl)
  poll_request none now = polls now ∷ []
  poll_request (some waiting) now = []

  abbrev pub requests_of : Node F64 → Event → List (Ops.Event fl)
  requests_of n (Steps.reads bytes now) = read_request n.reader_chunk bytes now
  requests_of n (Steps.polls now) = poll_request n.checker_chunk now
  requests_of n (Steps.updates now timestamp memory) = stats_request n.phase
  requests_of n _ = []
