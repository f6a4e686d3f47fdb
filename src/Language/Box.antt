-- ===== src/Language/Box.antt =====
-- A list box that does what is documented of GTK's: it sorts a new row in behind the rows that compare
-- as no later.
use furios_initial_setup.Common.{
  All, Bool-cases, List, [], ap, arith, false, if◌then◌else◌, inl, inr, refl, true, ◌++◌, ◌∷◌, ◌≡◌,
}
use furios_initial_setup.Language.Chooser.{SortedBox}
use furios_initial_setup.Language.Order.{fits, flip}
use furios_initial_setup.Language.Rows.{Sign, less, more, same}
use furios_initial_setup.Language.Sorted.{All-insert, IsSortedBox, Sorted, is_more}

module _ {A : Type 0} (c : A → A → Sign) where
  unfoldable pub insert_row : A → List A → List A
  insert_row x [] = x ∷ []
  insert_row x (y ∷ ys) =
      let rest = insert_row x ys in if is_more (c y x) then x ∷ (y ∷ ys) else y ∷ rest

  insert_row-split :
      (x : A) (xs : List A)
      → (ys : List A) × (zs : List A) × (xs ≡ ys ++ zs) × (insert_row x xs ≡ ys ++ (x ∷ zs))
  unfolding insert_row
  insert_row-split x [] = ([], [], refl, refl)
  insert_row-split x (y ∷ xs) = elim (Bool-cases (is_more (c y x))) [
    | inl e ↦ ([], y ∷ xs, refl, rw e refl)
    | inr e ↦
        let (ys, zs, p, q) = insert_row-split x xs in
        (y ∷ ys, zs, ap (◌∷◌ y) p, rw e (ap (◌∷◌ y) q))
  ]

fits_le :
    (p q r : Sign) → fits p q r ≡ true → is_more p ≡ false → is_more q ≡ false → is_more r ≡ false
unfolding fits is_more
fits_le less less r f h k = ground arith
fits_le less same r f h k = ground arith
fits_le less more r f h k = cc
fits_le same q r f h k = ground arith
fits_le more q r f h k = cc

flip_le : (p q : Sign) → p ≡ flip q → is_more q ≡ true → is_more p ≡ false
unfolding flip is_more
flip_le p more h k = rw h refl
flip_le p less h k = cc
flip_le p same h k = cc

module _ {A : Type 0} (c : A → A → Sign)
    (fit : (x y z : A) → fits (c x y) (c y z) (c x z) ≡ true) where
  before-All :
      (x y : A) (ys : List A)
      → is_more (c x y) ≡ false
      → All (λ z. is_more (c y z) ≡ false) ys
      → All (λ z. is_more (c x z) ≡ false) ys
  before-All x y [] h all = tt
  before-All x y (z ∷ ys) h (k, all) =
      (fits_le (c x y) (c y z) (c x z) (fit x y z) h k, before-All x y ys h all)

  insert_row-Sorted :
      (x : A) (xs : List A)
      → All (λ y. c x y ≡ flip (c y x)) xs
      → Sorted c xs
      → Sorted c (insert_row c x xs)
  unfolding insert_row Sorted
  insert_row-Sorted x [] both s = (tt, tt)
  insert_row-Sorted x (y ∷ ys) (b, both) (h, s) = elim (Bool-cases (is_more (c y x))) [
    | inl e ↦ let le = flip_le (c x y) (c y x) b e in rw e ((le, before-All x y ys le h), (h, s))
    | inr e ↦
        let (us, vs, p, q) = insert_row-split c x ys in
        let all : All (λ z. is_more (c y z) ≡ false) (insert_row c x ys) =
          rw q (All-insert (λ z. is_more (c y z) ≡ false) x us vs e (rw p at h)) in
        rw e (all, insert_row-Sorted x ys both s)
  ]

abbrev pub insertion : SortedBox
insertion = record { place = λ c x xs. insert_row c x xs }

pub insertion-IsSortedBox : IsSortedBox insertion
insertion-IsSortedBox = record {
  place-split = λ c x xs. insert_row-split c x xs;
  place-Sorted = λ c fit x xs both s. insert_row-Sorted c fit x xs both s;
}
