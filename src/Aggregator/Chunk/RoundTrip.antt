-- ===== src/Aggregator/Chunk/RoundTrip.antt =====
-- `extract_packets` reads back what `add_packet` wrote, and ends on every input.
use mathlib.Core.Option
use native.Mathlib.Nat.{zero-add}
use chainlightning.Base.{
  ℕ, zero, suc, ◌+◌, ◌%◌, ◌^◌, ◌<◌, ◌≡◌, refl, sym, ap, ◌∙◌, inl, inr, List, [], ◌∷◌, ◌++◌, some,
  arith, Bool-cases, leb, leb→le, le→leb, lt→leb, length, slice, All, length-append, append_assoc,
  append-nil, slice_mid, to_be, from_be, length-to_be, from_be-to_be,
}
use chainlightning.Aggregator.Chunk.{
  Chunk, new_chunk, frame, push_packet, extract_loop, extract_packets,
}

extract_loop_total :
    (fuel : ℕ) (bs : List ℕ) (offset : ℕ)
    → length bs < fuel + offset
    → 0 < fuel
    → (ps : List (List ℕ)) × (extract_loop fuel bs offset ≡ some ps)
unfolding extract_loop
extract_loop_total zero bs offset h pos = absurd (omega arith)
extract_loop_total (suc fuel) bs offset h pos =
    let len = from_be (slice offset (offset + 2) bs) in
    let next = offset + 2 + len in
    elim (Bool-cases (leb (offset + 2) (length bs))) [
      | inr out ↦ ([], rw out)
      | inl in_range ↦ elim (Bool-cases (leb next (length bs))) [
        | inr cut ↦ ([], rw (in_range, cut))
        | inl whole ↦
            let (ps, e) =
              extract_loop_total fuel bs next (omega (arith, leb→le _ _ whole))
                (omega (arith, leb→le _ _ in_range, leb→le _ _ whole)) in
            (slice (offset + 2) next bs ∷ ps, rw (in_range, whole, e))
      ]
    ]

-- The loop ends on every chunk, whatever its bytes.
pub extract_packets_total : (c : Chunk) → (ps : List (List ℕ)) × (extract_packets c ≡ some ps)
unfolding extract_packets
extract_packets_total c =
    extract_loop_total (length c.data_bytes + 1) c.data_bytes 0 (omega arith) (omega arith)

-- The bytes of a chunk that holds the packets, and where each of them starts.
abbrev pub frames : List (List ℕ) → List ℕ
frames [] = []
frames (p ∷ ps) = frame p ++ frames ps

abbrev pub offsets : ℕ → List (List ℕ) → List ℕ
offsets at_byte [] = []
offsets at_byte (p ∷ ps) = at_byte ∷ offsets (at_byte + (2 + length p)) ps

-- The chunk consists of these packets, in this order.
pub record Holds (c : Chunk) (ps : List (List ℕ)) : Type 0 where
  pub bytes : c.data_bytes ≡ frames ps
  pub starts : c.packet_offsets ≡ offsets 0 ps

abbrev pub IsShort : List ℕ → Type 0
IsShort packet = length packet < 2 ^ 16

pub length-frame : (p : List ℕ) → length (frame p) ≡ 2 + length p
length-frame p =
    let n = length p % 2 ^ 16 in
    length-append (to_be 2 n) p ∙ ap (λ (t : ℕ). t + length p) (length-to_be 2 n)

frames-append : (ps : List (List ℕ)) (p : List ℕ) → frames (ps ++ p ∷ []) ≡ frames ps ++ frame p
frames-append [] p = append-nil (frame p)
frames-append (q ∷ ps) p =
    rw (frames-append ps p) (sym (append_assoc (frame q) (frames ps) (frame p)))

offsets-append :
    (start : ℕ) (ps : List (List ℕ)) (p : List ℕ)
    → offsets start (ps ++ p ∷ []) ≡ offsets start ps ++ (start + length (frames ps)) ∷ []
offsets-append start [] p = let e : start + 0 ≡ start = omega arith in rw e
offsets-append start (q ∷ ps) p =
    let e : start + (2 + length q) + length (frames ps) ≡ start + length (frames (q ∷ ps)) =
      omega (arith, length-append (frame q) (frames ps), length-frame q) in
    ap (◌∷◌ start) (rw (offsets-append (start + (2 + length q)) ps p, e))

pub new_chunk-Holds : (id now : ℕ) → Holds (new_chunk id now) []
new_chunk-Holds id now = record { bytes = refl; starts = refl }

-- Adding a packet puts it behind those that the chunk holds.
pub push_packet-Holds :
    (c : Chunk) (ps : List (List ℕ)) (p : List ℕ)
    → Holds c ps
    → Holds (push_packet c p) (ps ++ p ∷ [])
unfolding push_packet
push_packet-Holds c ps p h = record {
  bytes = rw (h.bytes, frames-append ps p);
  starts = rw (h.starts, h.bytes, offsets-append 0 ps p, zero-add);
}

-- One round of the loop on a frame: the length is read, the packet is taken, and the loop goes on
-- behind it.
extract_loop_step :
    (fuel : ℕ) (pre p post : List ℕ)
    → IsShort p
    → let bs = pre ++ (frame p ++ post) in
      extract_loop (suc fuel) bs (length pre)
      ≡ Option.map (◌∷◌ p) (extract_loop fuel bs (length (pre ++ frame p)))
unfolding extract_loop
extract_loop_step fuel pre p post short =
    let n = length p in
    let bs = pre ++ (frame p ++ post) in
    let header = to_be 2 (n % 2 ^ 16) in
    let behind : bs ≡ (pre ++ header) ++ (p ++ post) =
      rw (append_assoc header p post) (sym (append_assoc pre header (p ++ post))) in
    let field : slice (length pre) (length pre + 2) bs ≡ header = rw (append_assoc header p post) (
      slice_mid (length pre) (length pre + 2) pre header (p ++ post) refl
        (omega (arith, length-to_be 2 (n % 2 ^ 16)))) in
    let len : from_be header ≡ n = from_be-to_be 2 (n % 2 ^ 16) (omega arith) ∙ omega arith in
    let packet : slice (length pre + 2) (length pre + 2 + n) bs ≡ p = rw behind (
      slice_mid (length pre + 2) (length pre + 2 + n) (pre ++ header) p post
        (omega (arith, length-append pre header, length-to_be 2 (n % 2 ^ 16))) refl) in
    let total : length bs ≡ length pre + (2 + n + length post) =
      omega (
        arith,
        length-append pre (frame p ++ post),
        length-append (frame p) post,
        length-frame p,
      ) in
    let next : length (pre ++ frame p) ≡ length pre + 2 + n =
      omega (arith, length-append pre (frame p), length-frame p) in
    rw (
      field,
      len,
      packet,
      next,
      le→leb (length pre + 2) (length bs) (omega arith),
      le→leb (length pre + 2 + n) (length bs) (omega arith),
    )

extract_loop-frames :
    (fuel : ℕ) (pre : List ℕ) (ps : List (List ℕ))
    → All IsShort ps
    → length (frames ps) < fuel
    → extract_loop fuel (pre ++ frames ps) (length pre) ≡ some ps
extract_loop-frames zero pre ps short h = absurd (omega arith)
extract_loop-frames (suc fuel) pre [] short h =
    unfold extract_loop in rw (append-nil pre, lt→leb (length pre + 2) (length pre) (omega arith))
extract_loop-frames (suc fuel) pre (p ∷ ps) short h =
    let smaller : length (frames ps) < fuel =
      omega (arith, length-append (frame p) (frames ps), length-frame p) in
    let rest : extract_loop fuel ((pre ++ frame p) ++ frames ps) (length (pre ++ frame p))
        ≡ some ps =
      extract_loop-frames fuel (pre ++ frame p) ps short.1 smaller in
    extract_loop_step fuel pre p (frames ps) short.0
    ∙ ap (Option.map (◌∷◌ p)) (rw (append_assoc pre (frame p) (frames ps)) at rest)

-- A chunk that holds packets shorter than 64 KiB gives back exactly these, in order.
pub extract_packets-Holds :
    (c : Chunk) (ps : List (List ℕ)) → Holds c ps → All IsShort ps → extract_packets c ≡ some ps
unfolding extract_packets
extract_packets-Holds c ps h short =
    rw h.bytes (extract_loop-frames (length (frames ps) + 1) [] ps short (omega arith))
