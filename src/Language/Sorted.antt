-- ===== src/Language/Sorted.antt =====
-- src/cc-language-chooser.c: the list of languages, when it has been filled.
use furios_initial_setup.Common.{
  All, Bool, Bool-cases, List, Option-cases, [], false, inl, inr, is_some, not, refl, true, ◌&&◌,
  ◌++◌, ◌∷◌, ◌≡◌, ◌⊎◌,
}
use furios_initial_setup.Common.Bytes.{Bytes}
use furios_initial_setup.Language.Chooser.{
  Chooser, Entry, SortedBox, add_initial, add_languages, add_one_language, add_others, append_row,
  compare_entries,
}
use furios_initial_setup.Language.Locales.{Fonts, Table, cc_common_language_has_font, table_lookup}
use furios_initial_setup.Language.Order.{fits, flip, sort_fits, sort_flip}
use furios_initial_setup.Language.Rows.{
  Item, LanguageWidget, Names, Sign, language_item, language_visible, language_widget_new, less,
  more, more_item, same, sort_languages,
}

unfoldable pub is_more : Sign → Bool
is_more less = false
is_more same = false
is_more more = true

-- No row compares as one that belongs before a row above it.
unfoldable pub Sorted : {A : Type 0} → (A → A → Sign) → List A → Type 0
Sorted c [] = Unit
Sorted c (x ∷ xs) = All (λ y. is_more (c x y) ≡ false) xs × Sorted c xs

-- What is documented of a list box with a sort function: a new row is put somewhere among the others,
-- which stay in their order, and where the function is an order, and compares the new row with each of
-- the others in both ways alike, a list that is sorted stays so.
pub record IsSortedBox (b : SortedBox) : Type 1 where
  pub place-split :
      {A : Type 0}
      → (c : A → A → Sign) (x : A) (xs : List A)
      → (ys : List A) × (zs : List A) × (xs ≡ ys ++ zs) × (b.place c x xs ≡ ys ++ (x ∷ zs))
  pub place-Sorted :
      {A : Type 0}
      → (c : A → A → Sign) → ((x y z : A) → fits (c x y) (c y z) (c x z) ≡ true)
      → (x : A) (xs : List A) → All (λ y. c x y ≡ flip (c y x)) xs
      → Sorted c xs
      → Sorted c (b.place c x xs)

abbrev pub is_language : Item → Bool
is_language more_item = false
is_language (language_item w) = true

-- Rows of languages, and the More item after them.
unfoldable pub ends_in_more : List Entry → Bool
ends_in_more [] = false
ends_in_more (e ∷ []) = not (is_language e.item)
ends_in_more (e ∷ (f ∷ es)) = is_language e.item && ends_in_more (f ∷ es)

unfoldable pub IsLanguageRow : Entry → Type 0
IsLanguageRow e = is_language e.item ≡ true

module _ {A : Type 0} (P : A → Type 0) where
  pub All-insert : (x : A) (ys zs : List A) → P x → All P (ys ++ zs) → All P (ys ++ (x ∷ zs))
  All-insert x [] zs p all = (p, all)
  All-insert x (y ∷ ys) zs p (q, all) = (q, All-insert x ys zs p all)

  All-each : ((x : A) → P x) → (xs : List A) → All P xs
  All-each f [] = tt
  All-each f (x ∷ xs) = (f x, All-each f xs)

module _ {A : Type 0} (P Q : A → Type 0) where
  All-map : ((x : A) → P x → Q x) → (xs : List A) → All P xs → All Q xs
  All-map f [] all = tt
  All-map f (x ∷ xs) (p, all) = (f x p, All-map f xs all)

-- Sorted, and nothing but languages.
unfoldable pub IsListed : Chooser → Type 0
IsListed c = Sorted compare_entries c.entries × All IsLanguageRow c.entries

entries_fit :
    (a b c : Entry) → fits (compare_entries a b) (compare_entries b c) (compare_entries a c) ≡ true
unfolding compare_entries
entries_fit a b c = sort_fits a.item b.item c.item

-- Two rows compare in both ways alike where one of them is a language.
pub item_flip :
    (a b : Item)
    → (is_language a ≡ true) ⊎ (is_language b ≡ true)
    → sort_languages a b ≡ flip (sort_languages b a)
unfolding sort_languages flip
item_flip (language_item v) b h = sort_flip b v
item_flip more_item (language_item w) h = refl
item_flip more_item more_item (inl h) = cc
item_flip more_item more_item (inr h) = cc

entries_flip :
    (a b : Entry)
    → IsLanguageRow a ⊎ IsLanguageRow b
    → compare_entries a b ≡ flip (compare_entries b a)
unfolding compare_entries IsLanguageRow
entries_flip a b h = item_flip a.item b.item h

-- After the More item comes nothing in a sorted list.
ends-Sorted :
    (ys zs : List Entry) (m : Entry)
    → m.item ≡ more_item
    → All IsLanguageRow (ys ++ zs)
    → Sorted compare_entries (ys ++ (m ∷ zs))
    → ends_in_more (ys ++ (m ∷ zs)) ≡ true
unfolding ends_in_more Sorted IsLanguageRow compare_entries sort_languages is_more
ends-Sorted [] [] m e all s = rw e refl
ends-Sorted [] (z ∷ zs) m e all ((h, hs), s) = let no = rw e at h in cc
ends-Sorted (y ∷ []) zs m e (l, all) (h, s) = rw (l, ends-Sorted [] zs m e all s) refl
ends-Sorted (y ∷ (x ∷ ys)) zs m e (l, all) (h, s) = rw (l, ends-Sorted (x ∷ ys) zs m e all s) refl

module _ (box : SortedBox) (laws : IsSortedBox box) (names : Names) (fonts_of : Bytes → Fonts) where
  open laws use {place-split, place-Sorted}

  append-IsListed :
      (w : LanguageWidget) (c : Chooser)
      → IsListed c
      → IsListed (append_row box (language_item w) c)
  unfolding append_row IsListed IsLanguageRow
  append-IsListed w c (s, all) =
      let e : Entry = record {
        item = language_item w;
        is_shown = language_visible c.showing_extra (language_item w);
      } in
      let (ys, zs, split, placed) = place-split compare_entries e c.entries in
      let both =
        All-each (λ y. compare_entries e y ≡ flip (compare_entries y e))
          (λ y. entries_flip e y (inl refl)) c.entries in
      (
        place-Sorted compare_entries entries_fit e c.entries both s,
        rw placed (All-insert IsLanguageRow e ys zs refl (rw split at all)),
      )

  one-IsListed :
      (id : Bytes) (b : Bool) (c : Chooser)
      → IsListed c
      → IsListed (add_one_language box names fonts_of id b c)
  unfolding add_one_language
  one-IsListed id b c h =
      elim (Bool-cases (cc_common_language_has_font names.parse_locale fonts_of id)) [
        | inl e ↦ elim (Option-cases (language_widget_new names id (not b))) [
          | inl n ↦ rw (e, n) h
          | inr (w, n) ↦ rw (e, n) (append-IsListed w c h)
        ]
        | inr e ↦ rw e h
      ]

  pub initial-IsListed :
      (table : Table) (c : Chooser) → IsListed c → IsListed (add_initial box names fonts_of table c)
  unfolding add_initial
  initial-IsListed [] c h = h
  initial-IsListed ((id, name) ∷ rest) c h =
      initial-IsListed rest (add_one_language box names fonts_of id true c)
        (one-IsListed id true c h)

  pub others-IsListed :
      (table : Table) (ids : List Bytes) (c : Chooser)
      → IsListed c
      → IsListed (add_others box names fonts_of table ids c)
  unfolding add_others
  others-IsListed table [] c h = h
  others-IsListed table (id ∷ ids) c h = elim (Bool-cases (is_some (table_lookup table id))) [
    | inl e ↦ rw e (others-IsListed table ids c h)
    | inr e ↦ rw e (
        others-IsListed table ids (add_one_language box names fonts_of id false c)
          (one-IsListed id false c h))
  ]

  -- However the table of the first languages is gone through, the list that comes of it is sorted by
  -- the comparison of the chooser, and it ends in the More item, the only row that is no language.
  pub add_languages-Sorted :
      (ids : List Bytes) (table : Table) (c : Chooser)
      → c.entries ≡ []
      → Sorted compare_entries (add_languages box names fonts_of ids table c).entries
        × (ends_in_more (add_languages box names fonts_of ids table c).entries ≡ true)
  unfolding add_languages append_row IsListed Sorted
  add_languages-Sorted ids table c none_yet =
      let start : IsListed c = rw none_yet (tt, tt) in
      let c' = add_others box names fonts_of table ids (add_initial box names fonts_of table c) in
      let (s, all) =
        others-IsListed table ids (add_initial box names fonts_of table c)
          (initial-IsListed table c start) in
      let e : Entry = record {
        item = more_item;
        is_shown = language_visible c'.showing_extra more_item;
      } in
      let (ys, zs, split, placed) = place-split compare_entries e c'.entries in
      let both =
        All-map IsLanguageRow (λ y. compare_entries e y ≡ flip (compare_entries y e))
          (λ y h. entries_flip e y (inr h)) c'.entries all in
      let sorted = place-Sorted compare_entries entries_fit e c'.entries both s in
      (sorted, rw placed (ends-Sorted ys zs e refl (rw split at all) (rw placed at sorted)))
