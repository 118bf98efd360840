-- ===== src/Wire/Ack.antt =====
-- `AckPacket` of common/src/protocol.rs.
use chainlightning.Base.{
  ℕ, ◌≡◌, List, ◌∷◌, ◌++◌, Option, none, some, not, arith, ltb, ◌==◌, if◌then◌else◌, le→ltb, length,
  get_or, slice, ◌≤◌, IsU8, IsU64, to_be, from_be, from_be-to_be,
}
use chainlightning.Wire.Tags.{msg_ack, ack_size}

pub record AckPacket : Type 0 where
  pub chunk_id : ℕ
  pub link_id : ℕ
  pub echo_timestamp_us : ℕ
  pub recv_timestamp_us : ℕ

-- The fields hold values of their machine types.
pub record IsInRange (p : AckPacket) : Type 0 where
  pub chunk_id_fits : IsU64 p.chunk_id
  pub link_id_fits : IsU8 p.link_id
  pub echo_timestamp_us_fits : IsU64 p.echo_timestamp_us
  pub recv_timestamp_us_fits : IsU64 p.recv_timestamp_us

unfoldable pub encode : AckPacket → List ℕ
unfolding to_be
encode p =
    msg_ack
    ∷ (to_be 8 p.chunk_id
        ++ (p.link_id ∷ (to_be 8 p.echo_timestamp_us ++ to_be 8 p.recv_timestamp_us)))

-- Behind the length test every read is in bounds.
unfoldable pub decode : List ℕ → Option AckPacket
decode buf =
    if ltb (length buf) ack_size
    then none
    else if not (get_or buf 0 0 == msg_ack)
    then none
    else some (record {
      chunk_id = from_be (slice 1 9 buf);
      link_id = get_or buf 9 0;
      echo_timestamp_us = from_be (slice 10 18 buf);
      recv_timestamp_us = from_be (slice 18 26 buf);
    })

-- Reading what was written, with any bytes behind it.
pub decode-encode :
    (p : AckPacket) (rest : List ℕ) → IsInRange p → decode (encode p ++ rest) ≡ some p
unfolding encode decode from_be
decode-encode p rest h = rw (le→ltb (length (encode p ++ rest)) ack_size (omega arith)) λ i.
    some (record {
      chunk_id = from_be-to_be 8 p.chunk_id h.chunk_id_fits i;
      link_id = p.link_id;
      echo_timestamp_us = from_be-to_be 8 p.echo_timestamp_us h.echo_timestamp_us_fits i;
      recv_timestamp_us = from_be-to_be 8 p.recv_timestamp_us h.recv_timestamp_us_fits i;
    })

-- What a message must at least be to be accepted.
pub decode_size :
    (buf : List ℕ) (p : AckPacket)
    → decode buf ≡ some p
    → (get_or buf 0 0 ≡ msg_ack) × (ack_size ≤ length buf)
unfolding decode
decode_size buf p e = ground arith
