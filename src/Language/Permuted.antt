-- ===== src/Language/Permuted.antt =====
-- src/cc-language-chooser.c: the list of languages, and the order in which the hash table of the first
-- languages is gone through.
use mathlib.Core.List.{Perm, filter_map, map}
use mathlib.Core.List.Perm
use furios_initial_setup.Common.{
  All, Bool, Bool-cases, List, Option, [], ap, false, if◌then◌else◌, inl, inr, is_some, refl, sym,
  true, ◌++◌, ◌∙◌, ◌∷◌, ◌≡◌,
}
use furios_initial_setup.Common.Bytes.{Bytes}
use furios_initial_setup.Language.Added.{add_each, add_each-Perm, add_each-append, row_of}
use furios_initial_setup.Language.Chooser.{
  Chooser, Entry, SortedBox, add_initial, add_languages, add_others, append_row, compare_entries,
}
use furios_initial_setup.Language.Locales.{Fonts, Table, table_lookup}
use furios_initial_setup.Language.Rows.{Names, more_item}
use furios_initial_setup.Language.Sorted.{
  IsListed, IsSortedBox, Sorted, initial-IsListed, others-IsListed,
}
use furios_initial_setup.Language.Tables.{IsDistinct, lookup-Perm}
use furios_initial_setup.Language.Uniqueness.{IsMade, Sorted-unique}

-- Two lists of the entries of one hash table: the same entries, and each key once.
abbrev pub IsSameTable : Table → Table → Type 0
IsSameTable t u = Perm t u × IsDistinct t × IsDistinct u

abbrev as_first : Bytes × Option Bytes → Bytes × Bool
as_first (id, name) = (id, true)

-- The languages that are no first ones.
unlisted : Table → List Bytes → List (Bytes × Bool)
unlisted t [] = []
unlisted t (id ∷ ids) =
    let rest = unlisted t ids in if is_some (table_lookup t id) then rest else (id, false) ∷ rest

unlisted_same :
    (t u : Table)
    → ((key : Bytes) → table_lookup t key ≡ table_lookup u key)
    → (ids : List Bytes) → unlisted t ids ≡ unlisted u ids
unfolding unlisted
unlisted_same t u h [] = refl
unlisted_same t u h (id ∷ ids) = rw (h id, unlisted_same t u h ids) refl

module _ (box : SortedBox) (laws : IsSortedBox box) (names : Names) (fonts_of : Bytes → Fonts) where
  add_initial-each :
      (t : Table) (c : Chooser)
      → add_initial box names fonts_of t c ≡ add_each box laws names fonts_of (map as_first t) c
  unfolding add_initial add_each
  add_initial-each [] c = refl
  add_initial-each ((id, name) ∷ t) c = add_initial-each t _

  add_others-each :
      (t : Table) (ids : List Bytes) (c : Chooser)
      → add_others box names fonts_of t ids c ≡ add_each box laws names fonts_of (unlisted t ids) c
  unfolding add_others add_each unlisted
  add_others-each t [] c = refl
  add_others-each t (id ∷ ids) c = elim (Bool-cases (is_some (table_lookup t id))) [
    | inl e ↦ rw e (add_others-each t ids c)
    | inr e ↦ rw e (add_others-each t ids _)
  ]

  -- All languages in the order in which they are added.
  all_of : Table → List Bytes → List (Bytes × Bool)
  all_of t ids = map as_first t ++ unlisted t ids

  all_of-Perm :
      (t u : Table) (ids : List Bytes) → IsSameTable t u → Perm (all_of t ids) (all_of u ids)
  unfolding all_of
  all_of-Perm t u ids (p, dt, du) =
      rw (unlisted_same t u (lookup-Perm t u dt du p) ids)
        (Perm.append_right (unlisted u ids) (Perm.map as_first p))

  filled : Table → List Bytes → Chooser → Chooser
  filled t ids c = add_others box names fonts_of t ids (add_initial box names fonts_of t c)

  filled_each :
      (t : Table) (ids : List Bytes) (c : Chooser)
      → filled t ids c ≡ add_each box laws names fonts_of (all_of t ids) c
  unfolding filled all_of
  filled_each t ids c =
      rw
        (
          add_each-append box laws names fonts_of (map as_first t) (unlisted t ids) c,
          add_others-each t ids,
          add_initial-each t c,
        )
        refl

  -- The sorted rows before the More item.
  filled_rows :
      (t : Table) (ids : List Bytes) (c : Chooser)
      → c.entries ≡ []
      → (entries : List Entry) × (filled t ids c ≡ record c { entries = entries })
        × Perm entries (
            filter_map (row_of box laws names fonts_of c.showing_extra) (all_of t ids) ++ c.entries)
        × All (IsMade names c.showing_extra) entries
        × Sorted compare_entries entries
  unfolding filled IsListed Sorted
  filled_rows t ids c none_yet =
      let (entries, same_rest, p, made_all) =
        add_each-Perm box laws names fonts_of (all_of t ids) c (rw none_yet tt) in
      let whole : filled t ids c ≡ record c { entries = entries } =
        filled_each t ids c ∙ same_rest in
      let listed : IsListed (filled t ids c) =
        others-IsListed box laws names fonts_of t ids (add_initial box names fonts_of t c)
          (initial-IsListed box laws names fonts_of t c (rw none_yet (tt, tt))) in
      let sorted : Sorted compare_entries entries = (rw whole at listed).0 in
      (entries, whole, p, made_all, sorted)

  -- Where the list box keeps what is sorted by an order sorted: an empty chooser that is filled has the
  -- same rows, in the same order, however the hash table of the first languages is gone through.
  pub add_languages-same :
      (t u : Table) (ids : List Bytes) (c : Chooser)
      → IsSameTable t u
      → c.entries ≡ []
      → add_languages box names fonts_of ids t c ≡ add_languages box names fonts_of ids u c
  unfolding add_languages filled
  add_languages-same t u ids c related none_yet =
      let (es, whole_t, p, made_t, sorted_t) = filled_rows t ids c none_yet in
      let (fs, whole_u, q, made_u, sorted_u) = filled_rows u ids c none_yet in
      let rows = Perm.append_right c.entries (
        Perm.filter_map (row_of box laws names fonts_of c.showing_extra)
          (all_of-Perm t u ids related)) in
      let one_list : es ≡ fs =
        Sorted-unique names c.showing_extra es fs made_t made_u sorted_t sorted_u
          (Perm.trans p (Perm.trans rows (Perm.symm q))) in
      ap (append_row box more_item)
        (whole_t ∙ ap (λ x. record c { entries = x }) one_list ∙ sym whole_u)
