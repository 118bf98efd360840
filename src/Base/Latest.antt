-- ===== src/Base/Latest.antt =====
-- The last elements of a list, and how a bounded queue keeps them.
use Prim.Native.Nat.{ℕ, zero, suc, ◌+◌, ◌-◌, ◌≤◌, ◌<◌}
use mathlib.Core.Path.{◌≡◌, refl, sym, ap, ◌∙◌}
use mathlib.Core.Logic.{inl, inr}
use mathlib.Core.List.{List, [], ◌∷◌, ◌++◌}
use native.Mathlib.Omega.{arith}
use chainlightning.Base.Lists.{length, drop, drop-drop, length-append, length-drop}
use chainlightning.Base.Tests.{ltb, ltb→lt, ltb→le, Bool-cases, if◌then◌else◌}

-- The last `n` elements.
abbrev pub latest {ℓ} : {A : Type ℓ} → ℕ → List A → List A
latest n xs = drop (length xs - n) xs

module _ {ℓ} {A : Type ℓ} where
  drop_snoc :
      (k : ℕ) (xs : List A) (x : A) → k ≤ length xs → drop k (xs ++ x ∷ []) ≡ drop k xs ++ x ∷ []
  drop_snoc zero xs x h = refl
  drop_snoc (suc k) [] x h = absurd (omega arith)
  drop_snoc (suc k) (y ∷ ys) x h = drop_snoc k ys x (omega arith)

  pub drop_one_empty : (xs : List A) → length xs ≡ 0 → drop 1 xs ≡ xs
  drop_one_empty [] h = refl
  drop_one_empty (x ∷ xs) h = absurd (omega arith)

  pub drop-nil : (k : ℕ) → ◌≡◌ {A = List A} (drop k []) []
  drop-nil zero = refl
  drop-nil (suc k) = refl

  latest_short : (n : ℕ) (xs : List A) → length xs ≤ n → latest n xs ≡ xs
  latest_short n xs h = let e : length xs - n ≡ 0 = omega arith in rw e refl

  pub latest_snoc_short :
      (n : ℕ) (xs : List A) (x : A)
      → length xs < n
      → latest n (xs ++ x ∷ []) ≡ latest n xs ++ x ∷ []
  latest_snoc_short n xs x h =
      latest_short n (xs ++ x ∷ []) (omega (arith, length-append xs (x ∷ [])))
      ∙ ap (λ ys. ys ++ x ∷ []) (sym (latest_short n xs (omega arith)))

  pub latest_snoc_long :
      (n : ℕ) (xs : List A) (x : A)
      → n ≤ length xs
      → 0 < n
      → latest n (xs ++ x ∷ []) ≡ drop 1 (latest n xs) ++ x ∷ []
  latest_snoc_long n xs x h pos =
      let e : length (xs ++ x ∷ []) - n ≡ (length xs - n) + 1 =
        omega (arith, length-append xs (x ∷ [])) in
      rw e (
        drop_snoc (length xs - n + 1) xs x (omega arith)
        ∙ ap (λ ys. ys ++ x ∷ []) (sym (drop-drop (length xs - n) 1 xs)))

  -- A queue of at most `n` elements, from whose front one is taken after a push that goes beyond.
  pub latest_pushed :
      (n : ℕ) (xs : List A) (x : A)
      → 0 < n
      → let pushed = latest n xs ++ x ∷ [] in
        (if ltb n (length pushed) then drop 1 pushed else pushed) ≡ latest n (xs ++ x ∷ [])
  latest_pushed n xs x pos =
      let size : length (latest n xs) ≡ length xs - (length xs - n) =
        length-drop (length xs - n) xs in
      let longer : length (latest n xs ++ x ∷ []) ≡ length (latest n xs) + 1 =
        length-append (latest n xs) (x ∷ []) in
      elim (Bool-cases (ltb n (length (latest n xs ++ x ∷ [])))) [
        | inl over ↦
            let full : n < length (latest n xs) + 1 = ground (arith, ltb→lt n _ over, longer) in
            rw over (
              drop_snoc 1 (latest n xs) x (omega arith)
              ∙ sym (latest_snoc_long n xs x (omega arith) pos))
        | inr room ↦
            let fits : length (latest n xs) + 1 ≤ n = ground (arith, ltb→le n _ room, longer) in
            rw room (sym (latest_snoc_short n xs x (omega arith)))
      ]
