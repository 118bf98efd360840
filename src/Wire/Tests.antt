-- ===== src/Wire/Tests.antt =====
-- The wire format and the flow ids on concrete messages.
use chainlightning.Base.{
  ℕ, zero, suc, ap, from_be, ◌+◌, ◌^◌, ◌<◌, ◌≤◌, ◌≡◌, refl, List, [], ◌∷◌, ◌++◌, some, arith,
  length, replicate, take, IsU64,
}
use chainlightning.Wire.Chunk
use chainlightning.Wire.Chunk.{ChunkPacket, payload_len}
use chainlightning.Wire.Chunk.RoundTrip.{decode-encode_loses}
use chainlightning.Wire.Chunk.Accepts.{encode-decode}
use chainlightning.Wire.Stats.{SerdeJson, StatsPacket}
use chainlightning.Wire.Keepalive
use chainlightning.Wire.Packet
use chainlightning.Wire.Packet.{Packet, stats, probe}
use chainlightning.Wire.Packet.RoundTrip.{packet_round_trip}
use chainlightning.Wire.Flow.{from_packet}
use chainlightning.Wire.Flow.Laws.{from_packet_total, from_packet-append}

abbrev small_chunk : ChunkPacket
small_chunk = record {
  chunk_id = 7;
  link_id = 1;
  total_size = 3;
  offset = 0;
  payload = 10 ∷ 20 ∷ 30 ∷ [];
}

small_chunk-IsInRange : Chunk.IsInRange small_chunk
small_chunk-IsInRange = record {
  chunk_id_fits = omega arith;
  link_id_fits = omega arith;
  total_size_fits = omega arith;
  offset_fits = omega arith;
}

-- A payload of 64 KiB, the greatest chunk of the default configuration.
abbrev large_chunk : ChunkPacket
large_chunk = record small_chunk { payload = replicate 65_536 1 }

length-replicate : (n x : ℕ) → length (replicate n x) ≡ n
length-replicate zero x = refl
length-replicate (suc n) x = ap suc (length-replicate n x)

decode-encode_loses_example :
    (q : ChunkPacket) × (Chunk.decode (Chunk.encode large_chunk ++ []) ≡ some q)
    × (length q.payload < 2 ^ 16)
    × (length q.payload < length large_chunk.payload)
decode-encode_loses_example =
    decode-encode_loses large_chunk []
      (record {
        chunk_id_fits = omega arith;
        link_id_fits = omega arith;
        total_size_fits = omega arith;
        offset_fits = omega arith;
      })
      (omega (arith, length-replicate 65_536 1))

abbrev small_bytes : List ℕ
small_bytes =
    1 ∷ 0 ∷ 0 ∷ 0 ∷ 0 ∷ 0 ∷ 0 ∷ 0 ∷ 7 ∷ 1 ∷ 0 ∷ 0 ∷ 0 ∷ 1 ∷ 0 ∷ 0 ∷ 0 ∷ 0 ∷ 0 ∷ 1 ∷ 42 ∷ 99 ∷ []

abbrev small_read : ChunkPacket
small_read = record { chunk_id = 7; link_id = 1; total_size = 1; offset = 0; payload = 42 ∷ [] }

small_bytes-read : Chunk.decode small_bytes ≡ some small_read
unfolding Chunk.decode from_be
small_bytes-read = refl

encode-decode_example :
    Chunk.IsInRange small_read
    × (length small_read.payload < 2 ^ 16)
    × (Chunk.encode small_read ≡ take (20 + length small_read.payload) small_bytes)
    × (20 + length small_read.payload ≤ length small_bytes)
encode-decode_example = encode-decode small_bytes (ground arith) small_bytes-read

-- A `serde_json` that writes every packet as the same two bytes, and reads one packet back.
abbrev link_report : StatsPacket ℕ
link_report = record {
  link_id = 2;
  bandwidth_bps = 1_000;
  rtt_us = 30;
  loss_ratio = 0;
  timestamp_us = 5;
}

abbrev two_byte_json : SerdeJson
two_byte_json = record {
  F32 = ℕ;
  to_vec = λ p. some (123 ∷ 125 ∷ []);
  from_slice = λ bs. some link_report;
}

packet_round_trip_example :
    Packet.decode two_byte_json (Packet.encode two_byte_json (stats link_report) ++ 0 ∷ [])
    ≡ some (stats link_report)
packet_round_trip_example = packet_round_trip two_byte_json (stats link_report) (0 ∷ []) (record {
  json = 123 ∷ 125 ∷ [];
  written = refl;
  nonempty = omega arith;
  short = omega arith;
  reads = refl;
})

abbrev keepalive_bytes : List ℕ
keepalive_bytes = 5 ∷ 1 ∷ 0 ∷ 0 ∷ 0 ∷ 0 ∷ 0 ∷ 0 ∷ 0 ∷ 9 ∷ []

keepalive_bytes-read :
    Packet.decode two_byte_json keepalive_bytes
    ≡ some (Packet.keepalive (record { link_id = 1; timestamp_us = 9 }))
unfolding Packet.decode Keepalive.decode from_be
keepalive_bytes-read = refl

-- A UDP packet from 10.0.0.1, port 53, to 10.0.0.2, port 80.
abbrev udp_header : List ℕ
udp_header =
    69 ∷ 0 ∷ 0 ∷ 28 ∷ 0 ∷ 0 ∷ 0 ∷ 0 ∷ 64 ∷ 17 ∷ 0 ∷ 0 ∷ 10 ∷ 0 ∷ 0 ∷ 1 ∷ 10 ∷ 0 ∷ 0 ∷ 2 ∷ 0 ∷ 53 ∷ 0
    ∷ 80 ∷ []

from_packet_total_example : (id : ℕ) × (from_packet udp_header ≡ some id) × IsU64 id
from_packet_total_example = (from_packet_total udp_header).0 (omega arith, refl)

from_packet-append_example : from_packet (udp_header ++ 1 ∷ 2 ∷ []) ≡ from_packet udp_header
from_packet-append_example = from_packet-append udp_header (1 ∷ 2 ∷ []) (omega arith) (omega arith)
