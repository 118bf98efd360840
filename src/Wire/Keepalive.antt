-- ===== src/Wire/Keepalive.antt =====
-- `KeepalivePacket` of common/src/protocol.rs.
use chainlightning.Base.{
  ℕ, ◌≡◌, List, ◌∷◌, ◌++◌, Option, none, some, not, arith, ltb, ◌==◌, if◌then◌else◌, le→ltb, length,
  get_or, slice, ◌≤◌, IsU8, IsU64, to_be, from_be, from_be-to_be,
}
use chainlightning.Wire.Tags.{msg_keepalive, keepalive_size}

pub record KeepalivePacket : Type 0 where
  pub link_id : ℕ
  pub timestamp_us : ℕ

-- The fields hold values of their machine types.
pub record IsInRange (p : KeepalivePacket) : Type 0 where
  pub link_id_fits : IsU8 p.link_id
  pub timestamp_us_fits : IsU64 p.timestamp_us

unfoldable pub encode : KeepalivePacket → List ℕ
unfolding to_be
encode p = msg_keepalive ∷ (p.link_id ∷ to_be 8 p.timestamp_us)

-- Behind the length test every read is in bounds.
unfoldable pub decode : List ℕ → Option KeepalivePacket
decode buf =
    if ltb (length buf) keepalive_size
    then none
    else if not (get_or buf 0 0 == msg_keepalive)
    then none
    else some (record { link_id = get_or buf 1 0; timestamp_us = from_be (slice 2 10 buf) })

-- Reading what was written, with any bytes behind it.
pub decode-encode :
    (p : KeepalivePacket) (rest : List ℕ) → IsInRange p → decode (encode p ++ rest) ≡ some p
unfolding encode decode from_be
decode-encode p rest h = rw (le→ltb (length (encode p ++ rest)) keepalive_size (omega arith)) λ i.
    some (record {
      link_id = p.link_id;
      timestamp_us = from_be-to_be 8 p.timestamp_us h.timestamp_us_fits i;
    })

-- What a message must at least be to be accepted.
pub decode_size :
    (buf : List ℕ) (p : KeepalivePacket)
    → decode buf ≡ some p
    → (get_or buf 0 0 ≡ msg_keepalive) × (keepalive_size ≤ length buf)
unfolding decode
decode_size buf p e = ground arith
