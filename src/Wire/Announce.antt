-- ===== src/Wire/Announce.antt =====
-- `AnnouncePacket` of common/src/protocol.rs.
use chainlightning.Base.{
  ℕ, ◌≡◌, List, ◌∷◌, ◌++◌, Option, none, some, not, arith, ltb, ◌==◌, if◌then◌else◌, le→ltb, length,
  get_or, slice, ◌≤◌, IsU8, IsU32, IsU64, to_be, from_be, from_be-to_be,
}
use chainlightning.Wire.Tags.{msg_announce, announce_header_size}

pub record AnnouncePacket : Type 0 where
  pub chunk_id : ℕ
  pub link_id : ℕ
  pub expected_size : ℕ
  pub timestamp_us : ℕ

-- The fields hold values of their machine types.
pub record IsInRange (p : AnnouncePacket) : Type 0 where
  pub chunk_id_fits : IsU64 p.chunk_id
  pub link_id_fits : IsU8 p.link_id
  pub expected_size_fits : IsU32 p.expected_size
  pub timestamp_us_fits : IsU64 p.timestamp_us

unfoldable pub encode : AnnouncePacket → List ℕ
unfolding to_be
encode p =
    msg_announce
    ∷ (to_be 8 p.chunk_id ++ (p.link_id ∷ (to_be 4 p.expected_size ++ to_be 8 p.timestamp_us)))

-- Behind the length test every read is in bounds.
unfoldable pub decode : List ℕ → Option AnnouncePacket
decode buf =
    if ltb (length buf) announce_header_size
    then none
    else if not (get_or buf 0 0 == msg_announce)
    then none
    else some (record {
      chunk_id = from_be (slice 1 9 buf);
      link_id = get_or buf 9 0;
      expected_size = from_be (slice 10 14 buf);
      timestamp_us = from_be (slice 14 22 buf);
    })

-- Reading what was written, with any bytes behind it.
pub decode-encode :
    (p : AnnouncePacket) (rest : List ℕ) → IsInRange p → decode (encode p ++ rest) ≡ some p
unfolding encode decode from_be
decode-encode p rest h =
    rw (le→ltb (length (encode p ++ rest)) announce_header_size (omega arith)) λ i. some (record {
      chunk_id = from_be-to_be 8 p.chunk_id h.chunk_id_fits i;
      link_id = p.link_id;
      expected_size = from_be-to_be 4 p.expected_size h.expected_size_fits i;
      timestamp_us = from_be-to_be 8 p.timestamp_us h.timestamp_us_fits i;
    })

-- What a message must at least be to be accepted.
pub decode_size :
    (buf : List ℕ) (p : AnnouncePacket)
    → decode buf ≡ some p
    → (get_or buf 0 0 ≡ msg_announce) × (announce_header_size ≤ length buf)
unfolding decode
decode_size buf p e = ground arith
