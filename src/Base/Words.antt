-- ===== src/Base/Words.antt =====
-- Machine words as native numbers, with the wrap-around of a release build, and their bytes in
-- big-endian order (`to_be_bytes`, `from_be_bytes`).
use Prim.Native.Nat.{ℕ, zero, suc, ◌+◌, ◌-◌, ◌*◌, ◌/◌, ◌%◌, ◌^◌, ◌<◌, min}
use mathlib.Core.Path.{◌≡◌, refl, ap, ◌∙◌, subst}
use mathlib.Core.List.{List, [], ◌∷◌, ◌++◌}
use native.Mathlib.Omega.{arith}
use native.Mathlib.Nat.{pow-suc}
use chainlightning.Base.Lists.{
  length, All, length-append, All-append, All-append_left, All-append_right, snoc_view,
}

-- `u64` and `u32` addition, subtraction and multiplication, modulo the width.
abbrev pub add64 : ℕ → ℕ → ℕ
add64 a b = (a + b) % 2 ^ 64

abbrev pub sub64 : ℕ → ℕ → ℕ
sub64 a b = (a + 2 ^ 64 - b) % 2 ^ 64

abbrev pub mul64 : ℕ → ℕ → ℕ
mul64 a b = a * b % 2 ^ 64

abbrev pub add32 : ℕ → ℕ → ℕ
add32 a b = (a + b) % 2 ^ 32

-- `saturating_add` of `u64`.
abbrev pub sat_add64 : ℕ → ℕ → ℕ
sat_add64 a b = min (a + b) (2 ^ 64 - 1)

abbrev pub IsU8 : ℕ → Type 0
IsU8 v = v < 2 ^ 8

abbrev pub IsU32 : ℕ → Type 0
IsU32 v = v < 2 ^ 32

abbrev pub IsU64 : ℕ → Type 0
IsU64 v = v < 2 ^ 64

-- The lowest `n` bytes of a number, highest first.
unfoldable pub to_be : ℕ → ℕ → List ℕ
to_be zero v = []
to_be (suc n) v = to_be n (v / 256) ++ (v % 256 ∷ [])

-- The number that the bytes stand for, added behind the digits read before.
unfoldable pub from_be_acc : ℕ → List ℕ → ℕ
from_be_acc acc [] = acc
from_be_acc acc (b ∷ bs) = from_be_acc (acc * 256 + b) bs

unfoldable pub from_be : List ℕ → ℕ
unfolding from_be_acc
from_be bs = from_be_acc 0 bs

pub length-to_be : (n v : ℕ) → length (to_be n v) ≡ n
unfolding to_be
length-to_be zero v = refl
length-to_be (suc n) v =
    omega (arith, length-append (to_be n (v / 256)) (v % 256 ∷ []), length-to_be n (v / 256))

pub to_be-IsU8 : (n v : ℕ) → All IsU8 (to_be n v)
unfolding to_be
to_be-IsU8 zero v = tt
to_be-IsU8 (suc n) v =
    All-append IsU8 (to_be n (v / 256)) (v % 256 ∷ []) (to_be-IsU8 n (v / 256)) (omega arith)

from_be_acc-append :
    (acc : ℕ) (xs ys : List ℕ) → from_be_acc acc (xs ++ ys) ≡ from_be_acc (from_be_acc acc xs) ys
unfolding from_be_acc
from_be_acc-append acc [] ys = refl
from_be_acc-append acc (x ∷ xs) ys = from_be_acc-append (acc * 256 + x) xs ys

-- Reading back `n` bytes gives the number, if it fits into them.
pub from_be-to_be : (n v : ℕ) → v < 256 ^ n → from_be (to_be n v) ≡ v
unfolding from_be to_be
from_be-to_be zero v h = omega arith
from_be-to_be (suc n) v h =
    let small : v / 256 < 256 ^ n = omega (arith, pow-suc 256 n) in
    from_be_acc-append 0 (to_be n (v / 256)) (v % 256 ∷ [])
    ∙ omega (arith, ap (λ (t : ℕ). t * 256) (from_be-to_be n (v / 256) small))

from_be_nil : from_be [] < 256 ^ 0
unfolding from_be
from_be_nil = omega arith

from_be-append : (xs : List ℕ) (b : ℕ) → from_be (xs ++ b ∷ []) ≡ from_be xs * 256 + b
unfolding from_be
from_be-append xs b = from_be_acc-append 0 xs (b ∷ [])

to_be_zero : (v : ℕ) → to_be 0 v ≡ []
unfolding to_be
to_be_zero v = refl

to_be-suc : (n v : ℕ) → to_be (suc n) v ≡ to_be n (v / 256) ++ v % 256 ∷ []
unfolding to_be
to_be-suc n v = refl

-- Writing the number of `n` bytes gives those bytes.
pub to_be-from_be : (n : ℕ) (bs : List ℕ) → length bs ≡ n → All IsU8 bs → to_be n (from_be bs) ≡ bs
to_be-from_be zero [] h k = to_be_zero (from_be [])
to_be-from_be zero (b ∷ bs) h k = absurd (omega arith)
to_be-from_be (suc n) [] h k = absurd (omega arith)
to_be-from_be (suc n) (b ∷ bs) h k =
    let (init, last, e) = snoc_view b bs in
    let bytes : All IsU8 (init ++ last ∷ []) = subst (All IsU8) e k in
    let fits : last < 256 = (All-append_right IsU8 init (last ∷ []) bytes).0 in
    let shorter : length init ≡ n = omega (arith, ap length e, length-append init (last ∷ [])) in
    let high : (from_be init * 256 + last) / 256 ≡ from_be init = omega arith in
    let low : (from_be init * 256 + last) % 256 ≡ last = omega arith in
    rw (
      e,
      from_be-append init last,
      to_be-suc n (from_be init * 256 + last),
      high,
      low,
      to_be-from_be n init shorter (All-append_left IsU8 init (last ∷ []) bytes),
    )

-- `n` bytes stand for a number below 256^n.
pub from_be-lt : (n : ℕ) (bs : List ℕ) → length bs ≡ n → All IsU8 bs → from_be bs < 256 ^ n
from_be-lt zero [] h k = from_be_nil
from_be-lt zero (b ∷ bs) h k = absurd (omega arith)
from_be-lt (suc n) [] h k = absurd (omega arith)
from_be-lt (suc n) (b ∷ bs) h k =
    let (init, last, e) = snoc_view b bs in
    let bytes : All IsU8 (init ++ last ∷ []) = subst (All IsU8) e k in
    let fits : last < 256 = (All-append_right IsU8 init (last ∷ []) bytes).0 in
    let shorter : length init ≡ n = omega (arith, ap length e, length-append init (last ∷ [])) in
    let high : from_be init < 256 ^ n =
      from_be-lt n init shorter (All-append_left IsU8 init (last ∷ []) bytes) in
    rw (e, from_be-append init last) (omega (arith, pow-suc 256 n))
