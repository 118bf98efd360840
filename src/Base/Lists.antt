-- ===== src/Base/Lists.antt =====
-- Lists measured and indexed by native numbers, under the library's names.
use Prim.Native.Nat.{ℕ, zero, suc, ◌+◌, ◌-◌, ◌≤◌, ◌<◌}
use mathlib.Core.Path.{◌≡◌, refl, ap}
use mathlib.Core.List.{List, [], ◌∷◌, ◌++◌, map}
use mathlib.Core.Option.{Option, none, some}
use native.Mathlib.Omega.{arith}
use native.Mathlib.Nat.{zero-add, suc-add}

module _ {ℓ} {A : Type ℓ} where
  abbrev pub length : List A → ℕ
  length [] = 0
  length (x ∷ xs) = suc (length xs)

  abbrev pub get_elem? : List A → ℕ → Option A
  get_elem? [] i = none
  get_elem? (x ∷ xs) zero = some x
  get_elem? (x ∷ xs) (suc i) = get_elem? xs i

  -- A read with a value for the case out of bounds.
  abbrev pub get_or : List A → ℕ → A → A
  get_or [] i d = d
  get_or (x ∷ xs) zero d = x
  get_or (x ∷ xs) (suc i) d = get_or xs i d

  -- `if let Some(x) = xs.get_mut(i) { … }`: nothing happens out of bounds.
  abbrev pub modify : (A → A) → List A → ℕ → List A
  modify f [] i = []
  modify f (x ∷ xs) zero = f x ∷ xs
  modify f (x ∷ xs) (suc i) = x ∷ modify f xs i

  abbrev pub take : ℕ → List A → List A
  take zero xs = []
  take (suc n) [] = []
  take (suc n) (x ∷ xs) = x ∷ take n xs

  abbrev pub drop : ℕ → List A → List A
  drop zero xs = xs
  drop (suc n) [] = []
  drop (suc n) (x ∷ xs) = drop n xs

  abbrev pub replicate : ℕ → A → List A
  replicate zero a = []
  replicate (suc n) a = a ∷ replicate n a

  -- `&xs[a..b]`, where the caller has tested the bounds.
  abbrev pub slice : ℕ → ℕ → List A → List A
  slice a b xs = take (b - a) (drop a xs)

  abbrev pub All {κ} : (A → Type κ) → List A → Type κ
  All P [] = Unit
  All P (x ∷ xs) = P x × All P xs

module _ {ℓ} {A : Type ℓ} where
  pub length-append : (xs ys : List A) → length (xs ++ ys) ≡ length xs + length ys
  length-append [] ys = omega arith
  length-append (x ∷ xs) ys = omega (arith, length-append xs ys)

  pub take-append : (n : ℕ) (xs ys : List A) → length xs ≡ n → take n (xs ++ ys) ≡ xs
  take-append zero [] ys h = refl
  take-append zero (x ∷ xs) ys h = absurd (omega arith)
  take-append (suc n) [] ys h = absurd (omega arith)
  take-append (suc n) (x ∷ xs) ys h = ap (◌∷◌ x) (take-append n xs ys (omega arith))

  pub drop-append : (n : ℕ) (xs ys : List A) → length xs ≡ n → drop n (xs ++ ys) ≡ ys
  drop-append zero [] ys h = refl
  drop-append zero (x ∷ xs) ys h = absurd (omega arith)
  drop-append (suc n) [] ys h = absurd (omega arith)
  drop-append (suc n) (x ∷ xs) ys h = drop-append n xs ys (omega arith)

  -- Beyond a prefix that reaches far enough, what follows is not read.
  pub take-append_le : (n : ℕ) (xs ys : List A) → n ≤ length xs → take n (xs ++ ys) ≡ take n xs
  take-append_le zero xs ys h = refl
  take-append_le (suc n) [] ys h = absurd (omega arith)
  take-append_le (suc n) (x ∷ xs) ys h = ap (◌∷◌ x) (take-append_le n xs ys (omega arith))

  pub take_all : (n : ℕ) (xs : List A) → length xs ≤ n → take n xs ≡ xs
  take_all zero [] h = refl
  take_all zero (x ∷ xs) h = absurd (omega arith)
  take_all (suc n) [] h = refl
  take_all (suc n) (x ∷ xs) h = ap (◌∷◌ x) (take_all n xs (omega arith))

  pub length-take_le : (n : ℕ) (xs : List A) → n ≤ length xs → length (take n xs) ≡ n
  length-take_le zero xs h = refl
  length-take_le (suc n) [] h = absurd (omega arith)
  length-take_le (suc n) (x ∷ xs) h = ap suc (length-take_le n xs (omega arith))

  pub length-take-le : (n : ℕ) (xs : List A) → length (take n xs) ≤ n
  length-take-le zero xs = omega arith
  length-take-le (suc n) [] = omega arith
  length-take-le (suc n) (x ∷ xs) = omega (arith, length-take-le n xs)

  pub length-drop : (n : ℕ) (xs : List A) → length (drop n xs) ≡ length xs - n
  length-drop zero xs = omega arith
  length-drop (suc n) [] = omega arith
  length-drop (suc n) (x ∷ xs) = omega (arith, length-drop n xs)

  -- How a list is read piece by piece from position `k` on: one element, or `m` of them.
  pub take-drop_one :
      (n k : ℕ) (xs : List A) (d : A)
      → k < length xs
      → take (suc n) (drop k xs) ≡ get_or xs k d ∷ take n (drop (suc k) xs)
  take-drop_one n k [] d h = absurd (omega arith)
  take-drop_one n zero (x ∷ xs) d h = refl
  take-drop_one n (suc k) (x ∷ xs) d h = take-drop_one n k xs d (omega arith)

  take-nil : (n : ℕ) → ◌≡◌ {A = List A} (take n []) []
  take-nil zero = refl
  take-nil (suc n) = refl

  take_add : (m n : ℕ) (xs : List A) → take (m + n) xs ≡ take m xs ++ take n (drop m xs)
  take_add zero n xs = rw zero-add
  take_add (suc m) n [] = rw (suc-add, take-nil n)
  take_add (suc m) n (x ∷ xs) = rw suc-add (ap (◌∷◌ x) (take_add m n xs))

  pub drop-drop : (k m : ℕ) (xs : List A) → drop m (drop k xs) ≡ drop (k + m) xs
  drop-drop zero m xs = rw zero-add
  drop-drop (suc k) zero [] = rw suc-add
  drop-drop (suc k) (suc m) [] = rw suc-add
  drop-drop (suc k) m (x ∷ xs) = rw suc-add (drop-drop k m xs)

  pub take-drop_many :
      (m n k : ℕ) (xs : List A)
      → take (m + n) (drop k xs) ≡ take m (drop k xs) ++ take n (drop (k + m) xs)
  take-drop_many m n k xs = rw (← drop-drop k m xs) (take_add m n (drop k xs))

  pub All-take {κ} : (P : A → Type κ) (n : ℕ) (xs : List A) → All P xs → All P (take n xs)
  All-take P zero xs h = tt
  All-take P (suc n) [] h = tt
  All-take P (suc n) (x ∷ xs) h = (h.0, All-take P n xs h.1)

  pub All-drop {κ} : (P : A → Type κ) (n : ℕ) (xs : List A) → All P xs → All P (drop n xs)
  All-drop P zero xs h = h
  All-drop P (suc n) [] h = tt
  All-drop P (suc n) (x ∷ xs) h = All-drop P n xs h.1

  -- A list that is not empty has a last element.
  pub snoc_view :
      (x : A) (xs : List A) → (init : List A) × (last : A) × (x ∷ xs ≡ init ++ last ∷ [])
  snoc_view x [] = ([], x, refl)
  snoc_view x (y ∷ ys) = let (init, last, e) = snoc_view y ys in (x ∷ init, last, ap (◌∷◌ x) e)

  pub All-get_or {κ} :
      (P : A → Type κ) (xs : List A) (i : ℕ) (d : A) → i < length xs → All P xs → P (get_or xs i d)
  All-get_or P [] i d h k = absurd (omega arith)
  All-get_or P (x ∷ xs) zero d h k = k.0
  All-get_or P (x ∷ xs) (suc i) d h k = All-get_or P xs i d (omega arith) k.1

  pub All-append_left {κ} : (P : A → Type κ) (xs ys : List A) → All P (xs ++ ys) → All P xs
  All-append_left P [] ys h = tt
  All-append_left P (x ∷ xs) ys h = (h.0, All-append_left P xs ys h.1)

  pub All-append_right {κ} : (P : A → Type κ) (xs ys : List A) → All P (xs ++ ys) → All P ys
  All-append_right P [] ys h = h
  All-append_right P (x ∷ xs) ys h = All-append_right P xs ys h.1

  -- The middle of three parts.
  pub slice_mid :
      (a b : ℕ) (pre mid post : List A)
      → length pre ≡ a
      → a + length mid ≡ b
      → slice a b (pre ++ (mid ++ post)) ≡ mid
  slice_mid a b pre mid post h k =
      rw (drop-append a pre (mid ++ post) h) (take-append (b - a) mid post (omega arith))

  pub get_elem?-some : (xs : List A) (i : ℕ) → i < length xs → (x : A) × (get_elem? xs i ≡ some x)
  get_elem?-some [] i h = absurd (omega arith)
  get_elem?-some (x ∷ xs) zero h = (x, refl)
  get_elem?-some (x ∷ xs) (suc i) h = get_elem?-some xs i (omega arith)

  pub length-modify : (f : A → A) (xs : List A) (i : ℕ) → length (modify f xs i) ≡ length xs
  length-modify f [] i = refl
  length-modify f (x ∷ xs) zero = refl
  length-modify f (x ∷ xs) (suc i) = ap suc (length-modify f xs i)

  pub All-append {κ} : (P : A → Type κ) (xs ys : List A) → All P xs → All P ys → All P (xs ++ ys)
  All-append P [] ys h k = k
  All-append P (x ∷ xs) ys h k = (h.0, All-append P xs ys h.1 k)

pub length-map {ℓ κ} :
    {A : Type ℓ} {B : Type κ} (f : A → B) (xs : List A) → length (map f xs) ≡ length xs
length-map f [] = refl
length-map f (x ∷ xs) = ap suc (length-map f xs)
