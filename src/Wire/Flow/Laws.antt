-- ===== src/Wire/Flow/Laws.antt =====
-- What a flow id depends on.
use chainlightning.Base.{
  ℕ, zero, suc, ◌+◌, ◌-◌, ◌≤◌, ◌<◌, ◌≡◌, refl, ◌↔◌, List, [], ◌∷◌, ◌++◌, some, arith, length,
  get_or, slice, drop, length-drop, le→ltb, le→leb, length-append, take-append_le, IsU64, from_be,
}
use chainlightning.Wire.Flow.{version, ihl, hash5, ports, from_packet}

-- Whether a packet has a flow id: it is an IPv4 packet that holds the fixed header.
pub from_packet_total :
    (packet : List ℕ)
    → ((20 ≤ length packet) × (version packet ≡ 4))
      ↔ ((id : ℕ) × (from_packet packet ≡ some id) × IsU64 id)
unfolding from_packet hash5
from_packet_total packet = (
  λ h.
      let (sp, dp) = ports packet in
      (
        hash5 (from_be (slice 12 16 packet)) (from_be (slice 16 20 packet)) sp dp
            (get_or packet 9 0),
        ground arith,
        omega arith,
      ),
  λ h. ground arith,
)

get_or-append : (xs ys : List ℕ) (i : ℕ) → i < length xs → get_or (xs ++ ys) i 0 ≡ get_or xs i 0
get_or-append [] ys i h = absurd (omega arith)
get_or-append (x ∷ xs) ys zero h = refl
get_or-append (x ∷ xs) ys (suc i) h = get_or-append xs ys i (omega arith)

drop-append_le : (n : ℕ) (xs ys : List ℕ) → n ≤ length xs → drop n (xs ++ ys) ≡ drop n xs ++ ys
drop-append_le zero xs ys h = refl
drop-append_le (suc n) [] ys h = absurd (omega arith)
drop-append_le (suc n) (x ∷ xs) ys h = drop-append_le n xs ys (omega arith)

slice-append :
    (a b : ℕ) (xs ys : List ℕ) → a ≤ b → b ≤ length xs → slice a b (xs ++ ys) ≡ slice a b xs
slice-append a b xs ys h k =
    rw (drop-append_le a xs ys (omega arith))
      (take-append_le (b - a) (drop a xs) ys (omega (arith, length-drop a xs)))

ports-append :
    (h rest : List ℕ) → 20 ≤ length h → ihl h + 4 ≤ length h → ports (h ++ rest) ≡ ports h
unfolding ports
ports-append h rest long far =
    let len : length (h ++ rest) ≡ length h + length rest = length-append h rest in
    rw (
      get_or-append h rest 0 (omega arith),
      get_or-append h rest 9 (omega arith),
      slice-append (ihl h) (ihl h + 2) h rest (omega arith) (omega arith),
      slice-append (ihl h + 2) (ihl h + 4) h rest (omega arith) (omega arith),
      le→leb (ihl h + 4) (length h) far,
      le→leb (ihl h + 4) (length (h ++ rest)) (omega arith),
    )

-- The id of a packet depends on its IP header and ports alone, not on what follows them.
pub from_packet-append :
    (h rest : List ℕ)
    → 20 ≤ length h
    → ihl h + 4 ≤ length h
    → from_packet (h ++ rest) ≡ from_packet h
unfolding from_packet
from_packet-append h rest long far =
    let len : length (h ++ rest) ≡ length h + length rest = length-append h rest in
    rw (
      ports-append h rest long far,
      get_or-append h rest 0 (omega arith),
      get_or-append h rest 9 (omega arith),
      slice-append 12 16 h rest (omega arith) (omega arith),
      slice-append 16 20 h rest (omega arith) (omega arith),
      le→ltb (length h) 20 long,
      le→ltb (length (h ++ rest)) 20 (omega arith),
    )
