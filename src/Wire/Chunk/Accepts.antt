-- ===== src/Wire/Chunk/Accepts.antt =====
-- Which byte strings `ChunkPacket::decode` accepts.
use chainlightning.Base.{
  ℕ, suc, ◌+◌, ◌-◌, ◌^◌, ◌≤◌, ◌<◌, ◌≡◌, List, ◌∷◌, ◌++◌, none, some, arith, All, length, get_or,
  slice, take, drop, subst, take-drop_one, take-drop_many, length-take_le, length-drop, All-take,
  All-drop, IsU8, to_be, from_be, to_be-from_be, from_be-lt, All-get_or,
}
use chainlightning.Wire.Tags.{msg_data, chunk_header_size}
use chainlightning.Wire.Chunk.{ChunkPacket, IsInRange, payload_len, encode, decode}

-- The length field of a header.
abbrev len_field : List ℕ → ℕ
len_field buf = from_be (slice 18 20 buf)

-- The packet that a header and the bytes behind it describe.
abbrev read_fields : List ℕ → ChunkPacket
read_fields buf = record {
  chunk_id = from_be (slice 1 9 buf);
  link_id = get_or buf 9 0;
  total_size = from_be (slice 10 14 buf);
  offset = from_be (slice 14 18 buf);
  payload = slice chunk_header_size (chunk_header_size + len_field buf) buf;
}

-- `decode` accepts exactly the data messages that are as long as their length field says.
decode_inversion :
    (buf : List ℕ) {p : ChunkPacket}
    → decode buf ≡ some p
    → (chunk_header_size + len_field buf ≤ length buf)
      × (get_or buf 0 0 ≡ msg_data)
      × (read_fields buf ≡ p)
unfolding decode
decode_inversion buf e = ground arith

-- What a message must at least be to be accepted.
pub decode_size :
    (buf : List ℕ) (p : ChunkPacket)
    → decode buf ≡ some p
    → (get_or buf 0 0 ≡ msg_data) × (chunk_header_size ≤ length buf)
unfolding decode
decode_size buf p e = ground arith

-- A datagram that is cut short is refused.
pub decode_short :
    (buf : List ℕ) → length buf < chunk_header_size + from_be (slice 18 20 buf) → decode buf ≡ none
unfolding decode
decode_short buf h = ground arith

slice_bytes :
    (n k : ℕ) (buf : List ℕ)
    → k + n ≤ length buf
    → All IsU8 buf
    → (length (take n (drop k buf)) ≡ n) × All IsU8 (take n (drop k buf))
slice_bytes n k buf h bytes = (
  length-take_le n (drop k buf) (omega (arith, length-drop k buf)),
  All-take IsU8 n (drop k buf) (All-drop IsU8 k buf bytes),
)

field_fits :
    (n k : ℕ) (buf : List ℕ)
    → k + n ≤ length buf
    → All IsU8 buf
    → from_be (take n (drop k buf)) < 256 ^ n
field_fits n k buf h bytes =
    let (len, small) = slice_bytes n k buf h bytes in from_be-lt n _ len small

to_be-slice :
    (n k : ℕ) (buf : List ℕ)
    → k + n ≤ length buf
    → All IsU8 buf
    → to_be n (from_be (take n (drop k buf))) ≡ take n (drop k buf)
to_be-slice n k buf h bytes =
    let (len, small) = slice_bytes n k buf h bytes in to_be-from_be n _ len small

-- Every field that `decode` reads has a value of its type.
read_fields-IsInRange :
    (buf : List ℕ) → chunk_header_size ≤ length buf → All IsU8 buf → IsInRange (read_fields buf)
read_fields-IsInRange buf h bytes = record {
  chunk_id_fits = field_fits 8 1 buf (omega arith) bytes;
  link_id_fits = All-get_or IsU8 buf 9 0 (omega arith) bytes;
  total_size_fits = field_fits 4 10 buf (omega arith) bytes;
  offset_fits = field_fits 4 14 buf (omega arith) bytes;
}

-- The header and payload of a message, read piece by piece.
pieces :
    (n : ℕ) (buf : List ℕ)
    → chunk_header_size ≤ length buf
    → take (chunk_header_size + n) buf
      ≡ get_or buf 0 0
        ∷ (slice 1 9 buf
            ++ (get_or buf 9 0
                ∷ (slice 10 14 buf
                    ++ (slice 14 18 buf ++ (slice 18 20 buf ++ take n (drop 20 buf))))))
pieces n buf h =
    let e0 : chunk_header_size + n ≡ suc (8 + suc (4 + (4 + (2 + n)))) = omega arith in
    rw (
      e0,
      take-drop_one (8 + suc (4 + (4 + (2 + n)))) 0 buf 0 (omega arith),
      take-drop_many 8 (suc (4 + (4 + (2 + n)))) 1 buf,
      take-drop_one (4 + (4 + (2 + n))) 9 buf 0 (omega arith),
      take-drop_many 4 (4 + (2 + n)) 10 buf,
      take-drop_many 4 (2 + n) 14 buf,
      take-drop_many 2 n 18 buf,
    )

-- The payload that `decode` reads has the announced length, below 64 KiB.
read_payload :
    (buf : List ℕ)
    → chunk_header_size + len_field buf ≤ length buf
    → All IsU8 buf
    → (length (read_fields buf).payload ≡ len_field buf)
      × (len_field buf < 2 ^ 16)
      × ((read_fields buf).payload ≡ take (len_field buf) (drop 20 buf))
read_payload buf h bytes =
    let n = len_field buf in
    let e : chunk_header_size + n - chunk_header_size ≡ n = omega arith in
    let len : length (take n (drop 20 buf)) ≡ n =
      length-take_le n (drop 20 buf) (omega (arith, length-drop 20 buf)) in
    (rw e len, field_fits 2 18 buf (omega arith) bytes, rw e)

encode-read_fields :
    (buf : List ℕ)
    → chunk_header_size + len_field buf ≤ length buf
    → All IsU8 buf
    → get_or buf 0 0 ≡ msg_data
    → encode (read_fields buf) ≡ take (chunk_header_size + len_field buf) buf
unfolding encode
encode-read_fields buf h bytes tag =
    let (len, small, same) = read_payload buf h bytes in
    let n = len_field buf in
    let e : payload_len (read_fields buf) ≡ n = omega arith in
    rw (
      e,
      pieces n buf (omega arith),
      tag,
      same,
      to_be-slice 8 1 buf (omega arith) bytes,
      to_be-slice 4 10 buf (omega arith) bytes,
      to_be-slice 4 14 buf (omega arith) bytes,
      to_be-slice 2 18 buf (omega arith) bytes,
    )

-- `decode` accepts a byte string only if it starts with the encoding of the packet that it returns;
-- the fields of that packet are in range and its payload is shorter than 64 KiB.
pub encode-decode :
    (buf : List ℕ) {p : ChunkPacket}
    → All IsU8 buf
    → decode buf ≡ some p
    → IsInRange p
      × (length p.payload < 2 ^ 16)
      × (encode p ≡ take (chunk_header_size + length p.payload) buf)
      × (chunk_header_size + length p.payload ≤ length buf)
encode-decode buf {p} bytes e =
    let (fits, tag, same) = decode_inversion buf e in
    let (len, small, _) = read_payload buf fits bytes in
    subst Accepted same (
      read_fields-IsInRange buf (omega arith) bytes,
      omega arith,
      rw len (encode-read_fields buf fits bytes tag),
      omega arith,
    )
  where
    Accepted : ChunkPacket → Type 0
    Accepted q =
        IsInRange q
        × (length q.payload < 2 ^ 16)
        × (encode q ≡ take (chunk_header_size + length q.payload) buf)
        × (chunk_header_size + length q.payload ≤ length buf)
