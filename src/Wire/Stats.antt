-- ===== src/Wire/Stats.antt =====
-- `StatsPacket` of common/src/protocol.rs. Its body is JSON: `serde_json` and the type `f32` are not
-- code of the repository, so they enter as the interface `SerdeJson`.
use chainlightning.Base.{
  ℕ, ◌+◌, ◌%◌, ◌^◌, ◌<◌, ◌≡◌, List, [], ◌∷◌, ◌++◌, Option, none, some, not, ◌||◌, ◌≤◌, arith, ltb,
  ◌==◌, if◌then◌else◌, le→ltb, length, get_or, slice, take-append, length-append, suc, ◌-◌, to_be,
  from_be, from_be-to_be,
}
use chainlightning.Wire.Tags.{msg_stats}

pub record StatsPacket (F : Type 0) : Type 0 where
  pub link_id : ℕ
  pub bandwidth_bps : ℕ
  pub rtt_us : ℕ
  pub loss_ratio : F
  pub timestamp_us : ℕ

-- `serde_json::to_vec` and `serde_json::from_slice` at this type; `none` is their error.
pub record SerdeJson : Type 1 where
  pub F32 : Type 0
  pub to_vec : StatsPacket F32 → Option (List ℕ)
  pub from_slice : List ℕ → Option (StatsPacket F32)

-- `unwrap_or_default` on bytes.
abbrev pub or_empty : Option (List ℕ) → List ℕ
or_empty none = []
or_empty (some bs) = bs

module _ (j : SerdeJson) where
  unfoldable pub encode : StatsPacket j.F32 → List ℕ
  unfolding to_be
  encode p =
      let json = or_empty (j.to_vec p) in msg_stats ∷ (to_be 2 (length json % 2 ^ 16) ++ json)

  -- Behind the length tests every read is in bounds.
  unfoldable pub decode : List ℕ → Option (StatsPacket j.F32)
  decode buf =
      let len = from_be (slice 1 3 buf) in
      if ltb (length buf) 4 || not (get_or buf 0 0 == msg_stats)
      then none
      else if ltb (length buf) (3 + len)
      then none
      else j.from_slice (slice 3 (3 + len) buf)

  -- Reading what was written, with any bytes behind it, where `serde_json` reads back the text that
  -- it wrote and the text fits the length field.
  pub decode-encode :
      (p : StatsPacket j.F32) (json rest : List ℕ)
      → j.to_vec p ≡ some json
      → 0 < length json
      → length json < 2 ^ 16
      → j.from_slice json ≡ some p
      → decode (encode p ++ rest) ≡ some p
  unfolding decode encode to_be
  decode-encode p json rest written nonempty short reads =
      let n = length json in
      let total : length (json ++ rest) ≡ n + length rest = length-append json rest in
      let n_eq : n % 2 ^ 16 ≡ n = omega arith in
      let back : from_be (to_be 2 n) ≡ n = from_be-to_be 2 n (omega arith) in
      let body : 3 + n - 3 ≡ n = omega arith in
      rw (written, n_eq, le→ltb (suc (suc (suc (length (json ++ rest))))) 4 (omega arith), back)
        (rw
          (
            le→ltb (suc (suc (suc (length (json ++ rest))))) (3 + n) (omega arith),
            body,
            take-append n json rest (omega arith),
          )
          reads)

  -- What a message must at least be to be accepted.
  pub decode_size :
      (buf : List ℕ) (p : StatsPacket j.F32)
      → decode buf ≡ some p
      → (get_or buf 0 0 ≡ msg_stats) × (4 ≤ length buf)
  unfolding decode
  decode_size buf p e = ground arith
