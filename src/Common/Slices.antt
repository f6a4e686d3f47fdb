-- ===== src/Common/Slices.antt =====
-- The parts of a list, over the native numbers.
use furios_initial_setup.Common.{
  List, [], ap, arith, length, refl, suc, zero, ℕ, ◌++◌, ◌+◌, ◌-◌, ◌∷◌, ◌≡◌, ◌≤◌,
}

module _ {ℓ} {A : Type ℓ} where
  unfoldable pub take : ℕ → List A → List A
  take zero xs = []
  take (suc n) [] = []
  take (suc n) (x ∷ xs) = x ∷ take n xs

  unfoldable pub drop : ℕ → List A → List A
  drop zero xs = xs
  drop (suc n) [] = []
  drop (suc n) (x ∷ xs) = drop n xs

  pub take-append : (xs ys : List A) (n : ℕ) → n ≡ length xs → take n (xs ++ ys) ≡ xs
  unfolding take
  take-append [] ys zero h = refl
  take-append [] ys (suc n) h = absurd (omega arith)
  take-append (x ∷ xs) ys zero h = absurd (omega arith)
  take-append (x ∷ xs) ys (suc n) h = ap (◌∷◌ x) (take-append xs ys n (omega arith))

  pub drop-append : (xs ys : List A) (n : ℕ) → n ≡ length xs → drop n (xs ++ ys) ≡ ys
  unfolding drop
  drop-append [] ys zero h = refl
  drop-append [] ys (suc n) h = absurd (omega arith)
  drop-append (x ∷ xs) ys zero h = absurd (omega arith)
  drop-append (x ∷ xs) ys (suc n) h = drop-append xs ys n (omega arith)

  pub drop-append_le :
      (xs ys : List A) (n : ℕ) → n ≤ length xs → drop n (xs ++ ys) ≡ drop n xs ++ ys
  unfolding drop
  drop-append_le xs ys zero h = refl
  drop-append_le [] ys (suc n) h = absurd (omega arith)
  drop-append_le (x ∷ xs) ys (suc n) h = drop-append_le xs ys n (omega arith)

  pub length-drop : (xs : List A) (n : ℕ) → length (drop n xs) ≡ length xs - n
  unfolding drop
  length-drop xs zero = omega arith
  length-drop [] (suc n) = omega arith
  length-drop (x ∷ xs) (suc n) = omega (arith, length-drop xs n)

  -- Past the first list, a drop goes on in the second.
  pub drop-append_add :
      (xs ys : List A) (m n : ℕ) → m ≡ length xs + n → drop m (xs ++ ys) ≡ drop n ys
  unfolding drop
  drop-append_add [] ys m n h = let e : m ≡ n = omega arith in ap (λ k. drop k ys) e
  drop-append_add (x ∷ xs) ys zero n h = absurd (omega arith)
  drop-append_add (x ∷ xs) ys (suc m) n h = drop-append_add xs ys m n (omega arith)
