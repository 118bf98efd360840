-- ===== src/Wire/Chunk/RoundTrip.antt =====
-- What `ChunkPacket::decode` makes of what `ChunkPacket::encode` wrote, whatever the payload's length.
use chainlightning.Base.{
  ℕ, ◌+◌, ◌-◌, ◌^◌, ◌≤◌, ◌<◌, ◌≡◌, ap, ◌∙◌, List, ◌++◌, some, arith, ltb, le→ltb, length, take,
  take-append_le, take_all, length-take-le, length-append, to_be, from_be, from_be-to_be, false,
}
use chainlightning.Wire.Tags.{chunk_header_size}
use chainlightning.Wire.Chunk.{ChunkPacket, IsInRange, payload_len, encode, decode}

-- The payload length that `decode` reads.
read_len : (p : ChunkPacket) → from_be (to_be 2 (payload_len p)) ≡ payload_len p
read_len p = from_be-to_be 2 (payload_len p) (omega arith)

-- Both length tests pass.
header_fits :
    (p : ChunkPacket) (rest : List ℕ)
    → ltb (length (encode p ++ rest)) (chunk_header_size + 0) ≡ false
unfolding encode to_be
header_fits p rest = le→ltb _ _ (omega (arith, length-append p.payload rest))

body_fits :
    (p : ChunkPacket) (rest : List ℕ)
    → ltb (length (encode p ++ rest)) (chunk_header_size + payload_len p) ≡ false
unfolding encode to_be
body_fits p rest = le→ltb _ _ (omega (arith, length-append p.payload rest))

cut_payload :
    (p : ChunkPacket) (rest : List ℕ)
    → take (chunk_header_size + payload_len p - chunk_header_size) (p.payload ++ rest)
      ≡ take (payload_len p) p.payload
cut_payload p rest =
    let n = payload_len p in
    let e : chunk_header_size + n - chunk_header_size ≡ n = omega arith in
    rw e (take-append_le n p.payload rest (omega arith))

-- Whatever the length of the payload, `decode` returns the packet with its first `length % 2^16`
-- payload bytes, and ignores what follows the packet.
pub decode-encode_cut :
    (p : ChunkPacket) (rest : List ℕ)
    → IsInRange p
    → decode (encode p ++ rest) ≡ some (record p { payload = take (payload_len p) p.payload })
unfolding encode decode to_be
decode-encode_cut p rest h =
    rw (header_fits p rest, read_len p, body_fits p rest)
      λ i. some (record {
        chunk_id = from_be-to_be 8 p.chunk_id h.chunk_id_fits i;
        link_id = p.link_id;
        total_size = from_be-to_be 4 p.total_size h.total_size_fits i;
        offset = from_be-to_be 4 p.offset h.offset_fits i;
        payload = cut_payload p rest i;
      })

-- A payload below 64 KiB survives the wire, with any bytes behind the packet.
pub decode-encode :
    (p : ChunkPacket) (rest : List ℕ)
    → IsInRange p
    → length p.payload < 2 ^ 16
    → decode (encode p ++ rest) ≡ some p
decode-encode p rest h short =
    decode-encode_cut p rest h
    ∙ ap (λ (bs : List ℕ). some (record p { payload = bs }))
        (take_all (payload_len p) p.payload (omega arith))

-- A payload of 64 KiB or more is cut: the decoded packet carries fewer than 2^16 bytes of it.
pub decode-encode_loses :
    (p : ChunkPacket) (rest : List ℕ)
    → IsInRange p
    → 2 ^ 16 ≤ length p.payload
    → (q : ChunkPacket) × (decode (encode p ++ rest) ≡ some q)
      × (length q.payload < 2 ^ 16)
      × (length q.payload < length p.payload)
decode-encode_loses p rest h long =
    let n = payload_len p in
    (
      record p { payload = take n p.payload },
      decode-encode_cut p rest h,
      omega (arith, length-take-le n p.payload),
      omega (arith, length-take-le n p.payload),
    )
