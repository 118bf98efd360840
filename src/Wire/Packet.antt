-- ===== src/Wire/Packet.antt =====
-- `Packet` of common/src/protocol.rs: any message, told apart by its first byte.
pub mod RoundTrip
use mathlib.Core.Option
use chainlightning.Base.{ℕ, List, [], ◌∷◌, Option, none, ◌==◌, if◌then◌else◌}
use chainlightning.Wire.Tags.{msg_data, msg_announce, msg_ack, msg_stats, msg_keepalive, msg_probe}
use chainlightning.Wire.Chunk
use chainlightning.Wire.Announce
use chainlightning.Wire.Ack
use chainlightning.Wire.Stats
use chainlightning.Wire.Stats.{SerdeJson}
use chainlightning.Wire.Keepalive
use chainlightning.Wire.Probe

-- `data` is a reserved word, hence `data_chunk`.
pub data Packet (F : Type 0) : Type 0 where
  data_chunk : Chunk.ChunkPacket → Packet F
  announce : Announce.AnnouncePacket → Packet F
  ack : Ack.AckPacket → Packet F
  stats : Stats.StatsPacket F → Packet F
  keepalive : Keepalive.KeepalivePacket → Packet F
  probe : Probe.ProbePacket → Packet F

module _ (j : SerdeJson) where
  -- The `match` on `buf[0]`.
  dispatch : ℕ → List ℕ → Option (Packet j.F32)
  dispatch tag buf =
      if tag == msg_data
      then Option.map data_chunk (Chunk.decode buf)
      else if tag == msg_announce
      then Option.map announce (Announce.decode buf)
      else if tag == msg_ack
      then Option.map ack (Ack.decode buf)
      else if tag == msg_stats
      then Option.map stats (Stats.decode j buf)
      else if tag == msg_keepalive
      then Option.map keepalive (Keepalive.decode buf)
      else if tag == msg_probe
      then Option.map probe (Probe.decode buf)
      else none

  unfoldable pub decode : List ℕ → Option (Packet j.F32)
  unfolding dispatch
  decode [] = none
  decode (tag ∷ rest) = dispatch tag (tag ∷ rest)

  -- What the sender writes: the `encode` of the packet's own type.
  unfoldable pub encode : Packet j.F32 → List ℕ
  encode (data_chunk p) = Chunk.encode p
  encode (announce p) = Announce.encode p
  encode (ack p) = Ack.encode p
  encode (stats p) = Stats.encode j p
  encode (keepalive p) = Keepalive.encode p
  encode (probe p) = Probe.encode p
