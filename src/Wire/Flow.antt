-- ===== src/Wire/Flow.antt =====
-- `FlowId` of common/src/protocol.rs: the hash of a packet's 5-tuple.
pub mod Laws
use chainlightning.Base.{
  ℕ, ◌+◌, ◌*◌, ◌/◌, ◌%◌, ◌≤◌, List, Option, none, some, Bool, not, ◌&&◌, ◌||◌, ltb, leb, ◌==◌,
  if◌then◌else◌, length, get_or, slice, add64, mul64, from_be,
}

-- `(packet[0] >> 4) & 0x0F` and `(packet[0] & 0x0F) * 4` of a byte.
abbrev pub version : List ℕ → ℕ
version packet = get_or packet 0 0 / 16 % 16

abbrev pub ihl : List ℕ → ℕ
ihl packet = get_or packet 0 0 % 16 * 4

-- The chain of wrapping operations on the five parts.
unfoldable pub hash5 : (src_ip dst_ip src_port dst_port protocol : ℕ) → ℕ
hash5 src_ip dst_ip src_port dst_port protocol =
    add64
      (mul64
        (add64 (mul64 (add64 (mul64 (add64 (mul64 src_ip 31) dst_ip) 31) src_port) 31) dst_port) 31)
      protocol

-- The ports of TCP and UDP; zeros for the rest, and where the packet ends before them.
unfoldable pub ports : List ℕ → ℕ × ℕ
ports packet =
    let protocol = get_or packet 9 0 in
    if leb (ihl packet + 4) (length packet) && (protocol == 6 || protocol == 17)
    then (
      from_be (slice (ihl packet) (ihl packet + 2) packet),
      from_be (slice (ihl packet + 2) (ihl packet + 4) packet),
    )
    else (0, 0)

unfoldable pub from_packet : List ℕ → Option ℕ
unfolding ports
from_packet packet =
    if ltb (length packet) 20
    then none
    else if not (version packet == 4)
    then none
    else let (src_port, dst_port) = ports packet in
      some (
        hash5 (from_be (slice 12 16 packet)) (from_be (slice 16 20 packet)) src_port dst_port
          (get_or packet 9 0))

-- The four parts of the hash of an ICMP packet.
unfoldable pub hash4 : (src_ip dst_ip icmp_id protocol : ℕ) → ℕ
hash4 src_ip dst_ip icmp_id protocol =
    add64 (mul64 (add64 (mul64 (add64 (mul64 src_ip 31) dst_ip) 31) icmp_id) 31) protocol

unfoldable pub from_icmp : List ℕ → Option ℕ
from_icmp packet =
    let protocol = get_or packet 9 0 in
    let icmp_id =
      if leb (ihl packet + 6) (length packet)
      then from_be (slice (ihl packet + 4) (ihl packet + 6) packet)
      else 0 in
    if ltb (length packet) 28
    then none
    else if not (version packet == 4)
    then none
    else if not (protocol == 1)
    then none
    else some (hash4 (from_be (slice 12 16 packet)) (from_be (slice 16 20 packet)) icmp_id protocol)
