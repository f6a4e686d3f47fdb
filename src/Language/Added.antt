-- ===== src/Language/Added.antt =====
-- src/cc-language-chooser.c: the rows that come of adding languages one after the other.
use mathlib.Core.List.{Perm, filter_map, perm_middle}
use mathlib.Core.List.Perm
use furios_initial_setup.Common.{
  All, Bool, Bool-cases, List, Option, Option-cases, [], ap, arith, if◌then◌else◌, inl, inr, none,
  not, refl, some, ◌++◌, ◌∷◌, ◌≡◌,
}
use furios_initial_setup.Common.Bytes.{Bytes}
use furios_initial_setup.Language.Chooser.{
  Chooser, Entry, SortedBox, add_one_language, append_row, compare_entries,
}
use furios_initial_setup.Language.Locales.{Fonts, cc_common_language_has_font}
use furios_initial_setup.Language.Rows.{Names, language_widget_new}
use furios_initial_setup.Language.Sorted.{All-insert, IsSortedBox}
use furios_initial_setup.Language.Uniqueness.{IsMade, entry_of, made}

between-Perm :
    (e : Entry) (entries rest with_e ys zs : List Entry)
    → entries ≡ ys ++ zs
    → with_e ≡ ys ++ (e ∷ zs)
    → Perm (rest ++ with_e) (e ∷ (rest ++ entries))
between-Perm e entries rest with_e ys zs split placed =
    rw (split, placed)
      (Perm.trans (Perm.append_left rest (perm_middle ys zs)) (perm_middle rest (ys ++ zs)))

module _ (box : SortedBox) (laws : IsSortedBox box) (names : Names) (fonts_of : Bytes → Fonts) where
  open laws use {place-split}

  -- All rows, one after the other.
  unfoldable pub add_each : List (Bytes × Bool) → Chooser → Chooser
  add_each [] c = c
  add_each ((id, b) ∷ rs) c = add_each rs (add_one_language box names fonts_of id b c)

  -- The row of a language, if it has fonts and a name.
  unfoldable pub row_of : Bool → Bytes × Bool → Option Entry
  row_of showing (id, is_initial) =
      if cc_common_language_has_font names.parse_locale fonts_of id
      then made names showing id (not is_initial)
      else none

  -- A language that has no row, and one that has.
  add_one-none :
      (id : Bytes) (b : Bool) (c : Chooser)
      → row_of c.showing_extra (id, b) ≡ none
      → add_one_language box names fonts_of id b c ≡ c
  unfolding add_one_language row_of made
  add_one-none id b c h =
      elim (Bool-cases (cc_common_language_has_font names.parse_locale fonts_of id)) [
        | inl f ↦ elim (Option-cases (language_widget_new names id (not b))) [
          | inl n ↦ rw (f, n) refl
          | inr (w, n) ↦ ground (arith, h, f, n)
        ]
        | inr f ↦ rw f refl
      ]

  add_one-some :
      (id : Bytes) (b : Bool) (c : Chooser) (e : Entry)
      → row_of c.showing_extra (id, b) ≡ some e
      → add_one_language box names fonts_of id b c
        ≡ record c { entries = box.place compare_entries e c.entries }
  unfolding add_one_language row_of made entry_of append_row
  add_one-some id b c e h =
      elim (Bool-cases (cc_common_language_has_font names.parse_locale fonts_of id)) [
        | inl f ↦ elim (Option-cases (language_widget_new names id (not b))) [
          | inl n ↦ ground (arith, h, f, n)
          | inr (w, n) ↦
              let same_row : entry_of names c.showing_extra w ≡ e = ground (arith, h, f, n) in
              rw (f, n)
                (ap (λ x. record c { entries = box.place compare_entries x c.entries }) same_row)
        ]
        | inr f ↦ ground (arith, h, f)
      ]

  placed-Perm :
      (e : Entry) (entries rest : List Entry)
      → Perm (rest ++ box.place compare_entries e entries) (e ∷ (rest ++ entries))
  placed-Perm e entries rest =
      let (ys, zs, split, placed) = place-split compare_entries e entries in
      between-Perm e entries rest (box.place compare_entries e entries) ys zs split placed

  row-IsMade :
      (showing : Bool) (r : Bytes × Bool) (e : Entry)
      → row_of showing r ≡ some e
      → IsMade names showing e
  unfolding row_of
  row-IsMade showing (id, b) e h =
      elim (Bool-cases (cc_common_language_has_font names.parse_locale fonts_of id)) [
        | inl f ↦ (id, not b, rw f at h)
        | inr f ↦ ground (arith, h, f)
      ]

  -- The rows are those of all languages, and nothing else of the chooser changes.
  pub add_each-Perm :
      (rs : List (Bytes × Bool)) (c : Chooser)
      → All (IsMade names c.showing_extra) c.entries
      → (entries : List Entry) × (add_each rs c ≡ record c { entries = entries })
        × Perm entries (filter_map (row_of c.showing_extra) rs ++ c.entries)
        × All (IsMade names c.showing_extra) entries
  unfolding add_each filter_map
  add_each-Perm [] c all = (c.entries, refl, Perm.rfl, all)
  add_each-Perm ((id, b) ∷ rs) c all = elim (Option-cases (row_of c.showing_extra (id, b))) [
    | inl n ↦ rw (add_one-none id b c n, n) (add_each-Perm rs c all)
    | inr (e, n) ↦
        let (ys, zs, split, placed) = place-split compare_entries e c.entries in
        let with_e : All (IsMade names c.showing_extra) (box.place compare_entries e c.entries) =
          rw placed (
            All-insert (IsMade names c.showing_extra) e ys zs
              (row-IsMade c.showing_extra (id, b) e n) (rw split at all)) in
        let (entries, same_rest, p, made_all) =
          add_each-Perm rs (record c { entries = box.place compare_entries e c.entries }) with_e in
        (
          entries,
          rw (add_one-some id b c e n) same_rest,
          rw n (Perm.trans p (placed-Perm e c.entries (filter_map (row_of c.showing_extra) rs))),
          made_all,
        )
  ]

  pub add_each-append :
      (rs qs : List (Bytes × Bool)) (c : Chooser)
      → add_each (rs ++ qs) c ≡ add_each qs (add_each rs c)
  unfolding add_each
  add_each-append [] qs c = refl
  add_each-append ((id, b) ∷ rs) qs c = add_each-append rs qs _
