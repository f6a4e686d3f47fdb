-- ===== src/Language/Uniqueness.antt =====
-- src/cc-language-chooser.c: sorted lists of the rows of languages.
use mathlib.Core.List.{Mem, Perm, mem-cons_self, not-mem-nil, eq-or-mem_of_mem-cons}
use mathlib.Core.List.Perm
use mathlib.Core.Logic.Or
use furios_initial_setup.Common.{
  All, Bool, List, Option, Option-cases, [], arith, false, inl, inr, none, refl, some, sym, ◌∙◌,
  ◌∷◌, ◌≡◌,
}
use furios_initial_setup.Common.Bytes.{Bytes}
use furios_initial_setup.Language.Chooser.{Entry, compare_entries}
use furios_initial_setup.Language.Order.{flip}
use furios_initial_setup.Language.Rows.{
  LanguageWidget, Names, g_strcmp0, language_item, language_visible, language_widget_new, same,
  sort_languages, strcmp,
}
use furios_initial_setup.Language.Sorted.{Sorted, is_more, item_flip}

module _ {A : Type 0} (P : A → Type 0) (prop : (x : A) → IsProp (P x)) where
  pub All-Mem : (xs : List A) (x : A) → Mem x xs → All P xs → P x
  All-Mem [] x m all = absurd (not-mem-nil m)
  All-Mem (y ∷ ys) x m (p, all) =
      Or.elim (prop x) (eq-or-mem_of_mem-cons m) (λ e. rw e p) (λ rest. All-Mem ys x rest all)

-- What compares as the same is the same text.
strcmp-same : (xs ys : Bytes) → strcmp xs ys ≡ same → xs ≡ ys
unfolding strcmp
strcmp-same [] [] h = refl
strcmp-same [] (y ∷ ys) h = ground (arith, h)
strcmp-same (x ∷ xs) [] h = ground (arith, h)
strcmp-same (x ∷ xs) (y ∷ ys) h =
    let heads : x ≡ y = ground (arith, h) in
    let tails = strcmp-same xs ys (ground (arith, h)) in rw (heads, tails) refl

same_item :
    (v w : LanguageWidget)
    → sort_languages (language_item v) (language_item w) ≡ same
    → (v.locale_id ≡ w.locale_id) × (v.is_extra ≡ w.is_extra)
unfolding sort_languages g_strcmp0
same_item v w h = (strcmp-same v.locale_id w.locale_id (ground (arith, h)), ground (arith, h))

module _ (names : Names) (showing_extra : Bool) where
  new_keys :
      (id : Bytes) (extra : Bool) (w : LanguageWidget)
      → language_widget_new names id extra ≡ some w
      → (w.locale_id ≡ id) × (w.is_extra ≡ extra)
  unfolding language_widget_new
  new_keys id extra w h = elim (Option-cases (names.parse_locale id)) [
    | inl e ↦ ground (arith, e, h)
    | inr ((language, country), e) ↦ ground (arith, e, h)
  ]

  -- The row of a new widget.
  unfoldable pub entry_of : LanguageWidget → Entry
  entry_of w = record {
    item = language_item w;
    is_shown = language_visible showing_extra (language_item w);
  }

  unfoldable pub made : Bytes → Bool → Option Entry
  unfolding entry_of
  made id extra = elim (language_widget_new names id extra) [
    | none ↦ none
    | some w ↦ some (entry_of w)
  ]

  abbrev pub IsMade : Entry → Type 0
  IsMade e = (id : Bytes) × (extra : Bool) × (made id extra ≡ some e)

  made_keys :
      (id : Bytes) (extra : Bool) (e : Entry)
      → made id extra ≡ some e
      → (w : LanguageWidget) × (e.item ≡ language_item w)
        × (w.locale_id ≡ id)
        × (w.is_extra ≡ extra)
  unfolding made entry_of
  made_keys id extra e h = elim (Option-cases (language_widget_new names id extra)) [
    | inl n ↦ ground (arith, n, h)
    | inr (w, n) ↦
        (let (ids, extras) = new_keys id extra w n in (w, ground (arith, n, h), ids, extras))
  ]

  -- Two rows that were made and compare as the same are one row.
  made_same : (a b : Entry) → IsMade a → IsMade b → compare_entries a b ≡ same → a ≡ b
  unfolding compare_entries
  made_same a b (i, x, m) (j, y, n) h =
      let (v, p, vi, vx) = made_keys i x a m in
      let (w, q, wj, wy) = made_keys j y b n in
      let (ids, extras) = same_item v w (rw p at (rw q at h)) in
      let same_id : i ≡ j = sym vi ∙ ids ∙ wj in
      let same_extra : x ≡ y = sym vx ∙ extras ∙ wy in
      let both : made i x ≡ made j y = rw (same_id, same_extra) refl in
      let e : some a ≡ some b = sym m ∙ both ∙ n in cc

  -- Made rows of which neither compares as one that belongs after the other.
  not_more_same :
      (a b : Entry)
      → IsMade a
      → is_more (compare_entries a b) ≡ false
      → is_more (compare_entries b a) ≡ false
      → compare_entries a b ≡ same
  unfolding is_more compare_entries flip
  not_more_same a b (i, x, m) h k =
      let (v, p, vi, vx) = made_keys i x a m in
      let both : sort_languages a.item b.item ≡ flip (sort_languages b.item a.item) =
        item_flip a.item b.item (inl (rw p refl)) in
      ground (arith, both, h, k)

  not_more_self : (a : Entry) → IsMade a → is_more (compare_entries a a) ≡ false
  unfolding is_more compare_entries flip
  not_more_self a (i, x, m) =
      let (v, p, vi, vx) = made_keys i x a m in
      let both : sort_languages a.item a.item ≡ flip (sort_languages a.item a.item) =
        item_flip a.item a.item (inl (rw p refl)) in
      ground (arith, both)

  -- The first of two sorted lists of the same rows.
  head_not_more :
      (a b : Entry) (xs ys : List Entry)
      → Sorted compare_entries (a ∷ xs)
      → IsMade a
      → Perm (b ∷ ys) (a ∷ xs)
      → is_more (compare_entries a b) ≡ false
  unfolding Sorted
  head_not_more a b xs ys (below, s) made_a p =
      All-Mem (λ y. is_more (compare_entries a y) ≡ false) (λ y. hlevel) (a ∷ xs) b
        ((Perm.mem_iff p).0 mem-cons_self) (not_more_self a made_a, below)

  -- Sorted lists of the same rows, all made, are one list.
  pub Sorted-unique :
      (xs ys : List Entry)
      → All IsMade xs
      → All IsMade ys
      → Sorted compare_entries xs
      → Sorted compare_entries ys
      → Perm xs ys
      → xs ≡ ys
  unfolding Sorted
  Sorted-unique [] ys mx my sx sy p = Perm.nil-eq p
  Sorted-unique (x ∷ xs) [] mx my sx sy p = Perm.eq-nil p
  Sorted-unique (x ∷ xs) (y ∷ ys) (mx, mxs) (my, mys) (bx, sx) (by, sy) p =
      let ahead : x ≡ y = made_same x y mx my (
        not_more_same x y mx (head_not_more x y xs ys (bx, sx) mx (Perm.symm p))
          (head_not_more y x ys xs (by, sy) my p)) in
      let rest =
        Sorted-unique xs ys mxs mys sx sy
          (Perm.cons_inv (Perm.trans p (Perm.symm (Perm.cons' ahead Perm.rfl)))) in
      rw (ahead, rest) refl
