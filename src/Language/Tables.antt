-- ===== src/Language/Tables.antt =====
-- src/cc-common-language.c: the hash table of the first languages, as the list of its entries.
use mathlib.Core.List.{
  Mem, Perm, not-mem-nil, eq-or-mem_of_mem-cons, mem-cons_of_mem, mem-cons_self,
}
use mathlib.Core.List.Perm
use mathlib.Core.Logic.Or
use furios_initial_setup.Common.{
  All, Bool, Bool-cases, List, Option, [], ap, false, inl, inr, none, refl, sym, true, ◌∙◌, ◌∷◌,
  ◌≡◌, ◌⊎◌,
}
use furios_initial_setup.Common.Bytes.{Bytes, bytes_eq, bytes_eq_refl, bytes_eq_sound}
use furios_initial_setup.Language.Locales.{
  Table, cc_common_language_get_initial_languages, initial_languages, insert_all, insert_language,
  table_insert, table_lookup,
}
use furios_initial_setup.Language.Uniqueness.{All-Mem}

-- Each key is there once.
abbrev pub IsDistinct : Table → Type 0
IsDistinct [] = Unit
IsDistinct ((k, l) ∷ rest) = All (λ e. bytes_eq k e.0 ≡ false) rest × IsDistinct rest

absent_there :
    (k key : Bytes) (l : Option Bytes) (rest : Table)
    → bytes_eq k key ≡ false
    → ((v : Option Bytes) → Mem (key, v) rest → ⊥)
    → (v : Option Bytes) → Mem (key, v) ((k, l) ∷ rest)
    → ⊥
absent_there k key l rest e absent v m =
    Or.elim (hlevel) (eq-or-mem_of_mem-cons m)
      (λ here.
        let same_key : key ≡ k = ap (λ x. x.0) here in
        let itself : bytes_eq k key ≡ true = rw same_key (bytes_eq_refl k) in cc)
      (absent v)

-- What is looked up is the value of an entry with the key, or there is no such entry.
lookup_cases :
    (t : Table) (key : Bytes)
    → ((l : Option Bytes) × Mem (key, l) t × (table_lookup t key ≡ l))
      ⊎ (((l : Option Bytes) → Mem (key, l) t → ⊥) × (table_lookup t key ≡ none))
unfolding table_lookup
lookup_cases [] key = inr (λ l m. not-mem-nil m, refl)
lookup_cases ((k, l) ∷ rest) key = elim (Bool-cases (bytes_eq k key)) [
  | inl e ↦ inl (l, rw (bytes_eq_sound k key e) mem-cons_self, rw e refl)
  | inr e ↦ elim (lookup_cases rest key) [
    | inl (v, m, found_at) ↦ inl (v, mem-cons_of_mem (k, l) m, rw e found_at)
    | inr (absent, nothing) ↦ inr (absent_there k key l rest e absent, rw e nothing)
  ]
]

-- An entry of a table with distinct keys is found.
lookup-Mem :
    (t : Table) (key : Bytes) (l : Option Bytes)
    → IsDistinct t
    → Mem (key, l) t
    → table_lookup t key ≡ l
unfolding table_lookup
lookup-Mem [] key l d m = absurd (not-mem-nil m)
lookup-Mem ((k, v) ∷ rest) key l (others, d) m =
    Or.elim (hlevel) (eq-or-mem_of_mem-cons m)
      (λ here. rw (ap (λ x. x.0) here, bytes_eq_refl k) (sym (ap (λ x. x.1) here)))
      (λ there.
        rw (All-Mem (λ e. bytes_eq k e.0 ≡ false) (λ e. hlevel) rest (key, l) there others)
          (lookup-Mem rest key l d there))

-- Two lists of the same entries, with each key once, are looked up alike.
pub lookup-Perm :
    (t u : Table)
    → IsDistinct t
    → IsDistinct u
    → Perm t u
    → (key : Bytes) → table_lookup t key ≡ table_lookup u key
lookup-Perm t u dt du p key = elim (lookup_cases t key) [
  | inl (l, m, e) ↦ e ∙ sym (lookup-Mem u key l du ((Perm.mem_iff p).0 m))
  | inr (absent, e) ↦ elim (lookup_cases u key) [
    | inl (l, m, f) ↦ absurd (absent l ((Perm.mem_iff p).1 m))
    | inr (absent', f) ↦ e ∙ sym f
  ]
]

-- A key that is inserted is no second entry.
insert-All :
    (t : Table) (k key : Bytes) (value : Option Bytes)
    → bytes_eq k key ≡ false
    → All (λ e. bytes_eq k e.0 ≡ false) t
    → All (λ e. bytes_eq k e.0 ≡ false) (table_insert t key value)
unfolding table_insert
insert-All [] k key value n h = (n, tt)
insert-All ((k', l) ∷ rest) k key value n (h, hs) = elim (Bool-cases (bytes_eq k' key)) [
  | inl e ↦ rw e (h, hs)
  | inr e ↦ rw e (h, insert-All rest k key value n hs)
]

table_insert-IsDistinct :
    (t : Table) (key : Bytes) (value : Option Bytes)
    → IsDistinct t
    → IsDistinct (table_insert t key value)
unfolding table_insert
table_insert-IsDistinct [] key value d = (tt, tt)
table_insert-IsDistinct ((k, l) ∷ rest) key value (others, d) = elim (Bool-cases (bytes_eq k key)) [
  | inl e ↦ rw e (others, d)
  | inr e ↦ rw e (insert-All rest k key value e others, table_insert-IsDistinct rest key value d)
]

module _ (newlocale : Bytes → Bool) (language_from_locale : Bytes → Option Bytes → Option Bytes)
    (current : Option Bytes) where
  insert_all-IsDistinct :
      (t : Table) (langs : List Bytes)
      → IsDistinct t
      → IsDistinct (insert_all newlocale language_from_locale current t langs)
  unfolding insert_all insert_language
  insert_all-IsDistinct t [] d = d
  insert_all-IsDistinct t (lang ∷ langs) d = elim (Bool-cases (newlocale lang)) [
    | inl e ↦
        rw e
          (insert_all-IsDistinct (table_insert t lang _) langs (table_insert-IsDistinct t lang _ d))
    | inr e ↦ rw e (insert_all-IsDistinct t langs d)
  ]

  -- The table of the first languages has each of them once.
  cc_common_language_get_initial_languages-IsDistinct :
      IsDistinct (cc_common_language_get_initial_languages newlocale language_from_locale current)
  unfolding cc_common_language_get_initial_languages
  cc_common_language_get_initial_languages-IsDistinct =
      insert_all-IsDistinct [] initial_languages tt
