-- ===== src/Language/Order.antt =====
-- src/cc-language-chooser.c: the comparison of two rows is an order.
use furios_initial_setup.Common.{
  Bool, Option, [], arith, false, if◌then◌else◌, ltb, none, refl, some, sym, true, ℕ, ◌==◌, ◌∷◌,
  ◌≡◌,
}
use furios_initial_setup.Common.Bytes.{Bytes}
use furios_initial_setup.Language.Rows.{
  Item, LanguageWidget, Sign, g_strcmp0, language_item, less, more, more_item, same, sort_languages,
  strcmp,
}

-- The comparison the other way round.
unfoldable pub flip : Sign → Sign
flip less = more
flip same = same
flip more = less

-- The first comparison decides, unless it finds no difference.
first_of : Sign → Sign → Sign
first_of less r = less
first_of same r = r
first_of more r = more

-- How three comparisons fit: of the first with the second, the second with the third, and the first
-- with the third.
unfoldable pub fits : Sign → Sign → Sign → Bool
fits same same r = elim r [ less ↦ false | same ↦ true | more ↦ false ]
fits same less r = elim r [ less ↦ true | same ↦ false | more ↦ false ]
fits same more r = elim r [ less ↦ false | same ↦ false | more ↦ true ]
fits less same r = elim r [ less ↦ true | same ↦ false | more ↦ false ]
fits more same r = elim r [ less ↦ false | same ↦ false | more ↦ true ]
fits less less r = elim r [ less ↦ true | same ↦ false | more ↦ false ]
fits more more r = elim r [ less ↦ false | same ↦ false | more ↦ true ]
fits less more r = true
fits more less r = true

fits-first_of :
    (p q r p' q' r' : Sign)
    → fits p q r ≡ true
    → fits p' q' r' ≡ true
    → fits (first_of p p') (first_of q q') (first_of r r') ≡ true
unfolding fits first_of
fits-first_of same same same p' q' r' h h' = h'
fits-first_of same less less less q' r' h h' = refl
fits-first_of same less less same q' r' h h' = refl
fits-first_of same less less more q' r' h h' = refl
fits-first_of same more more less q' r' h h' = refl
fits-first_of same more more same q' r' h h' = refl
fits-first_of same more more more q' r' h h' = refl
fits-first_of less same less p' less r' h h' = refl
fits-first_of less same less p' same r' h h' = refl
fits-first_of less same less p' more r' h h' = refl
fits-first_of more same more p' less r' h h' = refl
fits-first_of more same more p' same r' h h' = refl
fits-first_of more same more p' more r' h h' = refl
fits-first_of less less less p' q' r' h h' = refl
fits-first_of more more more p' q' r' h h' = refl
fits-first_of less more r p' q' r' h h' = refl
fits-first_of more less r p' q' r' h h' = refl
fits-first_of p q r p' q' r' h h' = ground arith

flip-first_of : (p q : Sign) → flip (first_of p q) ≡ first_of (flip p) (flip q)
unfolding flip first_of
flip-first_of less q = refl
flip-first_of same q = refl
flip-first_of more q = refl

compare_bytes : ℕ → ℕ → Sign
compare_bytes x y = if x == y then same else if ltb x y then less else more

strcmp_cons :
    (x y : ℕ) (xs ys : Bytes)
    → strcmp (x ∷ xs) (y ∷ ys) ≡ first_of (compare_bytes x y) (strcmp xs ys)
unfolding strcmp first_of compare_bytes
strcmp_cons x y xs ys = ground arith

compare_bytes-fits :
    (x y z : ℕ) → fits (compare_bytes x y) (compare_bytes y z) (compare_bytes x z) ≡ true
unfolding compare_bytes fits
compare_bytes-fits x y z = ground arith

strcmp-fits : (xs ys zs : Bytes) → fits (strcmp xs ys) (strcmp ys zs) (strcmp xs zs) ≡ true
unfolding strcmp fits
strcmp-fits [] [] [] = refl
strcmp-fits [] [] (z ∷ zs) = refl
strcmp-fits [] (y ∷ ys) [] = refl
strcmp-fits [] (y ∷ ys) (z ∷ zs) = ground arith
strcmp-fits (x ∷ xs) [] [] = refl
strcmp-fits (x ∷ xs) [] (z ∷ zs) = refl
strcmp-fits (x ∷ xs) (y ∷ ys) [] = ground arith
strcmp-fits (x ∷ xs) (y ∷ ys) (z ∷ zs) =
    rw (strcmp_cons x y xs ys, strcmp_cons y z ys zs, strcmp_cons x z xs zs)
      (fits-first_of (compare_bytes x y) (compare_bytes y z) (compare_bytes x z) (strcmp xs ys)
        (strcmp ys zs) (strcmp xs zs) (compare_bytes-fits x y z) (strcmp-fits xs ys zs))

strcmp-flip : (xs ys : Bytes) → strcmp ys xs ≡ flip (strcmp xs ys)
unfolding strcmp flip
strcmp-flip [] [] = refl
strcmp-flip [] (y ∷ ys) = refl
strcmp-flip (x ∷ xs) [] = refl
strcmp-flip (x ∷ xs) (y ∷ ys) = ground (arith, strcmp-flip xs ys)

key_fits : (x y z : Option Bytes) → fits (g_strcmp0 x y) (g_strcmp0 y z) (g_strcmp0 x z) ≡ true
unfolding g_strcmp0 fits
key_fits none none none = refl
key_fits none none (some z) = refl
key_fits none (some y) none = refl
key_fits none (some y) (some z) = ground arith
key_fits (some x) none none = refl
key_fits (some x) none (some z) = refl
key_fits (some x) (some y) none = ground arith
key_fits (some x) (some y) (some z) = strcmp-fits x y z

key_flip : (x y : Option Bytes) → g_strcmp0 y x ≡ flip (g_strcmp0 x y)
unfolding g_strcmp0 flip
key_flip none none = refl
key_flip none (some y) = refl
key_flip (some x) none = refl
key_flip (some x) (some y) = strcmp-flip x y

-- What is extra comes after what is not.
compare_extra : Bool → Bool → Sign
compare_extra true true = same
compare_extra true false = more
compare_extra false true = less
compare_extra false false = same

extra_fits :
    (x y z : Bool) → fits (compare_extra x y) (compare_extra y z) (compare_extra x z) ≡ true
unfolding compare_extra fits
extra_fits true true z = ground arith
extra_fits true false z = ground arith
extra_fits false true z = ground arith
extra_fits false false z = ground arith

extra_flip : (x y : Bool) → compare_extra y x ≡ flip (compare_extra x y)
unfolding compare_extra flip
extra_flip true true = refl
extra_flip true false = refl
extra_flip false true = refl
extra_flip false false = refl

-- The three criteria of the comparison of two languages.
by_keys : LanguageWidget → LanguageWidget → Sign
by_keys a b =
    first_of (g_strcmp0 a.sort_key b.sort_key) (g_strcmp0 (some a.locale_id) (some b.locale_id))

by_criteria : LanguageWidget → LanguageWidget → Sign
by_criteria a b = first_of (compare_extra a.is_extra b.is_extra) (by_keys a b)

sort_criteria :
    (a b : LanguageWidget) → sort_languages (language_item a) (language_item b) ≡ by_criteria a b
unfolding sort_languages by_criteria by_keys first_of compare_extra
sort_criteria a b = ground arith

criteria_fits :
    (a b c : LanguageWidget) → fits (by_criteria a b) (by_criteria b c) (by_criteria a c) ≡ true
unfolding by_criteria by_keys
criteria_fits a b c =
    fits-first_of (compare_extra a.is_extra b.is_extra) (compare_extra b.is_extra c.is_extra)
      (compare_extra a.is_extra c.is_extra) (by_keys a b) (by_keys b c) (by_keys a c)
      (extra_fits a.is_extra b.is_extra c.is_extra)
      (fits-first_of (g_strcmp0 a.sort_key b.sort_key) (g_strcmp0 b.sort_key c.sort_key)
        (g_strcmp0 a.sort_key c.sort_key) (g_strcmp0 (some a.locale_id) (some b.locale_id))
        (g_strcmp0 (some b.locale_id) (some c.locale_id))
        (g_strcmp0 (some a.locale_id) (some c.locale_id))
        (key_fits a.sort_key b.sort_key c.sort_key)
        (key_fits (some a.locale_id) (some b.locale_id) (some c.locale_id)))

-- Three rows are always compared in one order.
pub sort_fits :
    (a b c : Item) → fits (sort_languages a b) (sort_languages b c) (sort_languages a c) ≡ true
unfolding sort_languages fits
sort_fits more_item more_item c = refl
sort_fits more_item (language_item b) more_item = refl
sort_fits more_item (language_item b) (language_item c) = ground arith
sort_fits (language_item a) more_item more_item = refl
sort_fits (language_item a) more_item (language_item c) = refl
sort_fits (language_item a) (language_item b) more_item = ground arith
sort_fits (language_item a) (language_item b) (language_item c) =
    rw (sort_criteria a b, sort_criteria b c, sort_criteria a c) (criteria_fits a b c)

-- The other way round, two rows compare the other way round, unless both are the More item.
pub sort_flip :
    (a : Item) (w : LanguageWidget)
    → sort_languages (language_item w) a ≡ flip (sort_languages a (language_item w))
unfolding sort_languages flip by_criteria by_keys first_of compare_extra
sort_flip more_item w = refl
sort_flip (language_item a) w =
    rw
      (
        sort_criteria w a,
        sort_criteria a w,
        flip-first_of (compare_extra a.is_extra w.is_extra) (by_keys a w),
        flip-first_of (g_strcmp0 a.sort_key w.sort_key)
            (g_strcmp0 (some a.locale_id) (some w.locale_id)),
        (sym (extra_flip a.is_extra w.is_extra)),
        (sym (key_flip a.sort_key w.sort_key)),
        (sym (key_flip (some a.locale_id) (some w.locale_id))),
      )
      refl
