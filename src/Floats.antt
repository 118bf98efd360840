-- ===== src/Floats.antt =====
-- What the source does with `f64`: conversions, arithmetic, comparisons and literals. The language's
-- floating-point numbers are no code of the repository, so the components take them as this
-- interface, and the theorems hold for every behaviour of the operations.
use Prim.Native.Nat.{min}
use chainlightning.Base.{ℕ, ◌+◌, ◌-◌, ◌*◌, ◌/◌, ◌^◌, Bool, ltb, leb}

pub record Floats : Type 1 where
  pub F64 : Type 0
  -- The literal n / d.
  pub lit : ℕ → ℕ → F64
  -- `x as f64` of an integer, and `x as u64`, which truncates and saturates.
  pub of_u64 : ℕ → F64
  pub to_u64 : F64 → ℕ
  pub add : F64 → F64 → F64
  pub sub : F64 → F64 → F64
  pub mul : F64 → F64 → F64
  pub div : F64 → F64 → F64
  -- `as_secs_f64` of a duration in nanoseconds.
  pub as_secs : ℕ → F64
  pub lt : F64 → F64 → Bool
  pub le : F64 → F64 → Bool

-- Numbers that are not negative, in millionths: operations on which the model runs.
abbrev pub millionths : Floats
millionths = record {
  F64 = ℕ;
  lit = λ n d. n * 1_000_000 / d;
  of_u64 = λ n. n * 1_000_000;
  to_u64 = λ x. min (x / 1_000_000) (2 ^ 64 - 1);
  add = λ x y. x + y;
  sub = λ x y. x - y;
  mul = λ x y. x * y / 1_000_000;
  div = λ x y. x * 1_000_000 / y;
  as_secs = λ ns. ns / 1_000;
  lt = ltb;
  le = leb;
}
