-- ===== src/Wire/Packet/RoundTrip.antt =====
-- Any message survives the wire.
use mathlib.Core.Option
use chainlightning.Base.{
  ℕ, ◌^◌, ◌<◌, ◌≡◌, ap, List, [], ◌∷◌, ◌++◌, some, length, get_or, arith, ◌≤◌,
}
use chainlightning.Wire.Chunk
use chainlightning.Wire.Chunk.RoundTrip
use chainlightning.Wire.Chunk.Accepts
use chainlightning.Wire.Announce
use chainlightning.Wire.Ack
use chainlightning.Wire.Stats
use chainlightning.Wire.Stats.{SerdeJson}
use chainlightning.Wire.Keepalive
use chainlightning.Wire.Probe
use chainlightning.Wire.Packet.{
  Packet, data_chunk, announce, ack, stats, keepalive, probe, decode, encode, dispatch,
}

module _ (j : SerdeJson) where
  -- `serde_json` writes the packet as a text that fits the length field, and reads that text back.
  pub record IsJson (p : Stats.StatsPacket j.F32) : Type 0 where
    pub json : List ℕ
    pub written : j.to_vec p ≡ some json
    pub nonempty : 0 < length json
    pub short : length json < 2 ^ 16
    pub reads : j.from_slice json ≡ some p

  -- What a message must satisfy to fit the wire format.
  abbrev pub IsSendable : Packet j.F32 → Type 0
  IsSendable (data_chunk p) = Chunk.IsInRange p × (length p.payload < 2 ^ 16)
  IsSendable (announce p) = Announce.IsInRange p
  IsSendable (ack p) = Ack.IsInRange p
  IsSendable (stats p) = IsJson p
  IsSendable (keepalive p) = Keepalive.IsInRange p
  IsSendable (probe p) = Probe.IsInRange p

  -- A message of any of the six kinds, written and followed by any bytes, is read back as it was.
  pub packet_round_trip :
      (p : Packet j.F32) (rest : List ℕ) → IsSendable p → decode j (encode j p ++ rest) ≡ some p
  unfolding decode encode Chunk.encode Announce.encode Ack.encode Stats.encode Keepalive.encode
      Probe.encode
  packet_round_trip (data_chunk p) rest h =
      ap (Option.map data_chunk) (RoundTrip.decode-encode p rest h.0 h.1)
  packet_round_trip (announce p) rest h = ap (Option.map announce) (Announce.decode-encode p rest h)
  packet_round_trip (ack p) rest h = ap (Option.map ack) (Ack.decode-encode p rest h)
  packet_round_trip (stats p) rest h =
      ap (Option.map stats)
        (Stats.decode-encode j p h.json rest h.written h.nonempty h.short h.reads)
  packet_round_trip (keepalive p) rest h =
      ap (Option.map keepalive) (Keepalive.decode-encode p rest h)
  packet_round_trip (probe p) rest h = ap (Option.map probe) (Probe.decode-encode p rest h)

  -- The shortest message of each kind, by its first byte; no message starts with another byte.
  abbrev pub MinSize : Packet j.F32 → ℕ → ℕ → Type 0
  MinSize (data_chunk p) tag n = (tag ≡ 1) × (20 ≤ n)
  MinSize (announce p) tag n = (tag ≡ 2) × (22 ≤ n)
  MinSize (ack p) tag n = (tag ≡ 3) × (26 ≤ n)
  MinSize (stats p) tag n = (tag ≡ 4) × (4 ≤ n)
  MinSize (keepalive p) tag n = (tag ≡ 5) × (10 ≤ n)
  MinSize (probe p) tag n = (tag ≡ 6) × (51 ≤ n)

  -- A byte string that `decode` accepts starts with the tag of the packet's kind and has at least
  -- the size of that kind.
  pub decode-MinSize :
      (buf : List ℕ) (p : Packet j.F32)
      → decode j buf ≡ some p
      → MinSize p (get_or buf 0 0) (length buf)
  unfolding decode dispatch
  decode-MinSize [] p e = cc
  decode-MinSize (b ∷ bs) (data_chunk q) e = ground (arith, Accepts.decode_size (b ∷ bs) q)
  decode-MinSize (b ∷ bs) (announce q) e = ground (arith, Announce.decode_size (b ∷ bs) q)
  decode-MinSize (b ∷ bs) (ack q) e = ground (arith, Ack.decode_size (b ∷ bs) q)
  decode-MinSize (b ∷ bs) (stats q) e = ground (arith, Stats.decode_size j (b ∷ bs) q)
  decode-MinSize (b ∷ bs) (keepalive q) e = ground (arith, Keepalive.decode_size (b ∷ bs) q)
  decode-MinSize (b ∷ bs) (probe q) e = ground (arith, Probe.decode_size (b ∷ bs) q)
