-- ===== src/Wire/Chunk.antt =====
-- `ChunkPacket` of common/src/protocol.rs.
pub mod Accepts
pub mod RoundTrip
use chainlightning.Base.{
  ℕ, ◌+◌, ◌%◌, ◌^◌, ◌≡◌, List, [], ◌∷◌, ◌++◌, Option, none, some, not, arith, ltb, ◌==◌,
  if◌then◌else◌, le→ltb, length, get_or, slice, IsU8, IsU32, IsU64, to_be, from_be,
}
use chainlightning.Wire.Tags.{msg_data, chunk_header_size}

pub record ChunkPacket : Type 0 where
  pub chunk_id : ℕ
  pub link_id : ℕ
  pub total_size : ℕ
  pub offset : ℕ
  pub payload : List ℕ

-- The fields hold values of their machine types; the payload may have any length.
pub record IsInRange (p : ChunkPacket) : Type 0 where
  pub chunk_id_fits : IsU64 p.chunk_id
  pub link_id_fits : IsU8 p.link_id
  pub total_size_fits : IsU32 p.total_size
  pub offset_fits : IsU32 p.offset

-- `payload.len() as u16`: the length field keeps the lowest 16 bits.
abbrev pub payload_len : ChunkPacket → ℕ
payload_len p = length p.payload % 2 ^ 16

unfoldable pub encode : ChunkPacket → List ℕ
encode p =
    msg_data
    ∷ (to_be 8 p.chunk_id
        ++ (p.link_id
            ∷ (to_be 4 p.total_size
                ++ (to_be 4 p.offset ++ (to_be 2 (payload_len p) ++ p.payload)))))

-- Behind the two length tests every read is in bounds.
unfoldable pub decode : List ℕ → Option ChunkPacket
decode buf =
    let payload_len = from_be (slice 18 20 buf) in
    if ltb (length buf) chunk_header_size
    then none
    else if not (get_or buf 0 0 == msg_data)
    then none
    else if ltb (length buf) (chunk_header_size + payload_len)
    then none
    else some (record {
      chunk_id = from_be (slice 1 9 buf);
      link_id = get_or buf 9 0;
      total_size = from_be (slice 10 14 buf);
      offset = from_be (slice 14 18 buf);
      payload = slice chunk_header_size (chunk_header_size + payload_len) buf;
    })
