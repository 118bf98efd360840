-- ===== src/Aggregator/Chunk.antt =====
-- `Chunk`: packets laid end to end, each behind its length in two bytes.
pub mod RoundTrip
use chainlightning.Base.{
  ℕ, zero, suc, ◌+◌, ◌%◌, ◌^◌, List, [], ◌∷◌, ◌++◌, Option, none, some, Bool, true, false,
  if◌then◌else◌, leb, length, slice, to_be, from_be,
}
use mathlib.Core.Option

pub record Chunk : Type 0 where
  pub id : ℕ
  pub flow_id : Option ℕ
  pub data_bytes : List ℕ
  pub packet_offsets : List ℕ
  pub created_at : ℕ
  pub target_link : Option ℕ

-- `Chunk::new` at the time `now`.
abbrev pub new_chunk : ℕ → ℕ → Chunk
new_chunk id now = record {
  id = id;
  flow_id = none;
  data_bytes = [];
  packet_offsets = [];
  created_at = now;
  target_link = none;
}

-- A packet as it stands in a chunk: `packet.len() as u16` keeps 16 bits.
abbrev pub frame : List ℕ → List ℕ
frame packet = to_be 2 (length packet % 2 ^ 16) ++ packet

unfoldable pub push_packet : Chunk → List ℕ → Chunk
push_packet c packet = record c {
  data_bytes = c.data_bytes ++ frame packet;
  packet_offsets = c.packet_offsets ++ (length c.data_bytes ∷ []);
}

unfoldable pub packet_count : Chunk → ℕ
packet_count c = length c.packet_offsets

unfoldable pub size : Chunk → ℕ
size c = length c.data_bytes

unfoldable pub is_empty : Chunk → Bool
is_empty c = elim c.data_bytes [ [] ↦ true | _ ∷ _ ↦ false ]

-- The `while` loop of `extract_packets` from an offset on. `none`: the fuel ran out.
unfoldable pub extract_loop : ℕ → List ℕ → ℕ → Option (List (List ℕ))
extract_loop zero data_bytes offset = none
extract_loop (suc fuel) data_bytes offset =
    let len = from_be (slice offset (offset + 2) data_bytes) in
    let next = offset + 2 + len in
    let packet = slice (offset + 2) next data_bytes in
    let rest = Option.map (◌∷◌ packet) (extract_loop fuel data_bytes next) in
    if leb (offset + 2) (length data_bytes)
    then (if leb next (length data_bytes) then rest else some [])
    else some []

-- Each round moves on by two bytes at least.
unfoldable pub extract_packets : Chunk → Option (List (List ℕ))
unfolding extract_loop
extract_packets c = extract_loop (length c.data_bytes + 1) c.data_bytes 0
