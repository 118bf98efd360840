-- ===== src/Wire/Probe.antt =====
-- `ProbePacket` of common/src/protocol.rs and `PathState`.
use chainlightning.Base.{
  ℕ, ◌≡◌, refl, List, [], ◌∷◌, ◌++◌, Option, none, some, not, arith, ltb, ◌==◌, if◌then◌else◌,
  le→ltb, length, get_or, slice, ◌≤◌, IsU8, IsU32, IsU64, to_be, from_be, from_be-to_be,
}
use chainlightning.Wire.Tags.{msg_probe, probe_size}

pub data PathState : Type 0 where
  running lossy down probing : PathState

-- `path_state as u8`.
abbrev pub to_u8 : PathState → ℕ
to_u8 running = 0
to_u8 lossy = 1
to_u8 down = 2
to_u8 probing = 3

unfoldable pub from_u8 : ℕ → PathState
from_u8 v =
    if v == 0
    then running
    else if v == 1
    then lossy
    else if v == 2
    then down
    else if v == 3
    then probing
    else running

from_u8-to_u8 : (s : PathState) → from_u8 (to_u8 s) ≡ s
unfolding from_u8
from_u8-to_u8 running = refl
from_u8-to_u8 lossy = refl
from_u8-to_u8 down = refl
from_u8-to_u8 probing = refl

pub record ProbePacket : Type 0 where
  pub link_id : ℕ
  pub seq : ℕ
  pub timestamp_us : ℕ
  pub echo_timestamp_us : ℕ
  pub tx_bytes : ℕ
  pub tx_packets : ℕ
  pub rx_bytes : ℕ
  pub rx_packets : ℕ
  pub loss_ratio : ℕ
  pub path_state : PathState

-- The fields hold values of their machine types.
pub record IsInRange (p : ProbePacket) : Type 0 where
  pub link_id_fits : IsU8 p.link_id
  pub seq_fits : IsU32 p.seq
  pub timestamp_us_fits : IsU64 p.timestamp_us
  pub echo_timestamp_us_fits : IsU64 p.echo_timestamp_us
  pub tx_bytes_fits : IsU64 p.tx_bytes
  pub tx_packets_fits : IsU32 p.tx_packets
  pub rx_bytes_fits : IsU64 p.rx_bytes
  pub rx_packets_fits : IsU32 p.rx_packets
  pub loss_ratio_fits : IsU8 p.loss_ratio

unfoldable pub encode : ProbePacket → List ℕ
unfolding to_be
encode p =
    msg_probe
    ∷ (p.link_id
        ∷ (to_be 4 p.seq
            ++ (to_be 8 p.timestamp_us
                ++ (to_be 8 p.echo_timestamp_us
                    ++ (to_be 8 p.tx_bytes
                        ++ (to_be 4 p.tx_packets
                            ++ (to_be 8 p.rx_bytes
                                ++ (to_be 4 p.rx_packets
                                    ++ (p.loss_ratio
                                        ∷ (to_u8 p.path_state ∷ (0 ∷ (0 ∷ (0 ∷ [])))))))))))))

-- Behind the length test every read is in bounds.
unfoldable pub decode : List ℕ → Option ProbePacket
decode buf =
    if ltb (length buf) probe_size
    then none
    else if not (get_or buf 0 0 == msg_probe)
    then none
    else some (record {
      link_id = get_or buf 1 0;
      seq = from_be (slice 2 6 buf);
      timestamp_us = from_be (slice 6 14 buf);
      echo_timestamp_us = from_be (slice 14 22 buf);
      tx_bytes = from_be (slice 22 30 buf);
      tx_packets = from_be (slice 30 34 buf);
      rx_bytes = from_be (slice 34 42 buf);
      rx_packets = from_be (slice 42 46 buf);
      loss_ratio = get_or buf 46 0;
      path_state = from_u8 (get_or buf 47 0);
    })

-- Reading what was written, with any bytes behind it.
pub decode-encode :
    (p : ProbePacket) (rest : List ℕ) → IsInRange p → decode (encode p ++ rest) ≡ some p
unfolding encode decode from_be
decode-encode p rest h = rw (le→ltb (length (encode p ++ rest)) probe_size (omega arith)) λ i.
    some (record {
      link_id = p.link_id;
      seq = from_be-to_be 4 p.seq h.seq_fits i;
      timestamp_us = from_be-to_be 8 p.timestamp_us h.timestamp_us_fits i;
      echo_timestamp_us = from_be-to_be 8 p.echo_timestamp_us h.echo_timestamp_us_fits i;
      tx_bytes = from_be-to_be 8 p.tx_bytes h.tx_bytes_fits i;
      tx_packets = from_be-to_be 4 p.tx_packets h.tx_packets_fits i;
      rx_bytes = from_be-to_be 8 p.rx_bytes h.rx_bytes_fits i;
      rx_packets = from_be-to_be 4 p.rx_packets h.rx_packets_fits i;
      loss_ratio = p.loss_ratio;
      path_state = from_u8-to_u8 p.path_state i;
    })

-- What a message must at least be to be accepted.
pub decode_size :
    (buf : List ℕ) (p : ProbePacket)
    → decode buf ≡ some p
    → (get_or buf 0 0 ≡ msg_probe) × (probe_size ≤ length buf)
unfolding decode
decode_size buf p e = ground arith
