-- ===== src/Language/Chosen.antt =====
-- src/cc-language-chooser.c: which row has the check mark.
use furios_initial_setup.Common.{
  All, Bool, Bool-cases, List, Option, Option-cases, String, [], bool_eq, false, get_elem?, inl,
  inr, is_some, map, none, refl, some, true, ℕ, ◌>>=◌, ◌∷◌, ◌≡◌, ◌⊎◌,
}
use furios_initial_setup.Common.Bytes.{Bytes, bytes_eq}
use furios_initial_setup.Language.Chooser.{
  Call, Chooser, Entry, cc_language_chooser_set_showing_extra, invalidate_filter,
  localed_proxy_ready, notify_language, row_activated, set_locale_id, show_more,
  sync_all_checkmarks, update_rows, walk_part,
}
use furios_initial_setup.Language.Locales.{str_equal0}
use furios_initial_setup.Language.Rows.{
  Item, LanguageWidget, Names, language_item, language_visible, language_widget_update, more_item,
}
use furios_initial_setup.Language.Sorted.{ends_in_more, is_language}

-- What can happen to a chooser that is built, in the order in which it happens.
pub data ChooserEvent : Type 0 where
  language_set : Option Bytes → ChooserEvent
  activated : Option ℕ → ChooserEvent
  extra_set : Bool → ChooserEvent
  proxy_ready : Bool → ChooserEvent

-- A language that is set is not NULL.
abbrev pub IsGiven : ChooserEvent → Type 0
IsGiven (language_set id) = is_some id ≡ true
IsGiven (activated row) = Unit
IsGiven (extra_set b) = Unit
IsGiven (proxy_ready b) = Unit

-- Without the second component of a result.
abbrev map_first : {A B : Type 0} → Option (A × B) → Option A
map_first none = none
map_first (some (a, b)) = some a

pub chooser_step : Names → (Bytes → String → String) → ChooserEvent → Chooser → Option Chooser
chooser_step names gettext (language_set id) c = map_first (set_locale_id id c)
chooser_step names gettext (activated row) c = map_first (row_activated names gettext row c [])
chooser_step names gettext (extra_set b) c =
    let (c', calls) = cc_language_chooser_set_showing_extra b c in some c'
chooser_step names gettext (proxy_ready b) c = some (localed_proxy_ready b c)

pub chooser_run : Names → (Bytes → String → String) → List ChooserEvent → Chooser → Option Chooser
chooser_run names gettext [] c = some c
chooser_run names gettext (e ∷ es) c = do
  c' ← chooser_step names gettext e c
  chooser_run names gettext es c'

-- The check mark of a row says whether it is the row of that locale.
unfoldable pub marked : Bytes → Item → Bool
marked chosen more_item = true
marked chosen (language_item w) = bool_eq w.is_checked (bytes_eq w.locale_id chosen)

-- Every row of the list says so, the More item is the last row, and there is a chosen language.
unfoldable pub IsMarked : Chooser → Type 0
IsMarked c =
    (ends_in_more c.entries ≡ true)
    × (chosen : Bytes) × (c.language ≡ some chosen)
    × All (λ e. marked chosen e.item ≡ true) c.entries

ends-cons :
    (e : Entry) (es : List Entry)
    → is_language e.item ≡ true
    → ends_in_more es ≡ true
    → ends_in_more (e ∷ es) ≡ true
unfolding ends_in_more
ends-cons e [] l h = cc
ends-cons e (f ∷ es) l h = rw (l, h) refl

Item-cases : (i : Item) → (i ≡ more_item) ⊎ ((w : LanguageWidget) × (i ≡ language_item w))
Item-cases more_item = inl refl
Item-cases (language_item w) = inr (w, refl)

-- The first row of a list that ends in the More item: it is that, or a language with such a list after
-- it.
ends-cases :
    (e : Entry) (es : List Entry)
    → ends_in_more (e ∷ es) ≡ true
    → ((e.item ≡ more_item) × (es ≡ []))
      ⊎ ((w : LanguageWidget) × (e.item ≡ language_item w) × (ends_in_more es ≡ true))
unfolding ends_in_more
ends-cases e [] h = elim (Item-cases e.item) [
  | inl i ↦ inl (i, refl)
  | inr (w, i) ↦ let no = rw i at h in cc
]
ends-cases e (f ∷ es) h = elim (Item-cases e.item) [
  | inl i ↦ let no = rw i at h in cc
  | inr (w, i) ↦ inr (w, i, rw i at h)
]

bool_eq_refl : (b : Bool) → bool_eq b b ≡ true
bool_eq_refl true = refl
bool_eq_refl false = refl

unfoldable pub AllMarked : Bytes → List Entry → Type 0
AllMarked chosen es = (ends_in_more es ≡ true) × All (λ e. marked chosen e.item ≡ true) es

-- Going through the rows puts each check mark right, and does not end early.
pub sync_lem :
    (chosen : Bytes) (es : List Entry)
    → ends_in_more es ≡ true
    → (es' : List Entry) × (sync_all_checkmarks (some chosen) es ≡ some es') × AllMarked chosen es'
unfolding sync_all_checkmarks ends_in_more marked AllMarked
sync_lem chosen [] h = cc
sync_lem chosen (e ∷ es) h = elim (ends-cases e es h) [
  | inl (i, last) ↦ (e ∷ es, simp i refl, (h, rw (last, i) (refl, tt)))
  | inr (w, i, below) ↦
      let (es', synced, (ends, all)) = sync_lem chosen es below in
      let b = bytes_eq w.locale_id chosen in
      let top : Entry = record e { item = language_item (record w { is_checked = b }) } in
      (top ∷ es', rw (i, synced) refl, (ends-cons top es' refl ends, (bool_eq_refl b, all)))
]

-- Neither the filter nor the new labels change a check mark.
filter-AllMarked :
    (chosen : Bytes) (b : Bool) (es : List Entry)
    → AllMarked chosen es
    → AllMarked chosen (invalidate_filter b es)
unfolding invalidate_filter AllMarked ends_in_more
filter-AllMarked chosen b [] h = h
filter-AllMarked chosen b (e ∷ es) (h, (m, all)) = elim (ends-cases e es h) [
  | inl (i, last) ↦ rw last (rw i refl, (m, tt))
  | inr (w, i, below) ↦
      let (ends, marks) = filter-AllMarked chosen b es (below, all) in
      let top : Entry = record e { is_shown = language_visible b e.item } in
      (ends-cons top (invalidate_filter b es) (rw i refl) ends, (m, marks))
]

update_item_lem :
    (names : Names) (w : LanguageWidget)
    → ((language_widget_update names w).is_checked ≡ w.is_checked)
      × ((language_widget_update names w).locale_id ≡ w.locale_id)
unfolding language_widget_update
update_item_lem names w = elim (Option-cases (names.parse_locale w.locale_id)) [
  | inl e ↦ rw (e, language_widget_update) (refl, refl)
  | inr (parsed, e) ↦ rw (e, language_widget_update) (refl, refl)
]

module _ (names : Names) (translate : String → String) where
  -- A language row with new labels.
  updated : LanguageWidget → LanguageWidget
  updated w = language_widget_update names (record w { box = map (walk_part translate) w.box })

  update_more :
      (e : Entry) (es : List Entry)
      → e.item ≡ more_item
      → update_rows names translate (e ∷ es) ≡ e ∷ update_rows names translate es
  unfolding update_rows
  update_more e es i = simp i refl

  update_language :
      (e : Entry) (es : List Entry) (w : LanguageWidget)
      → e.item ≡ language_item w
      → update_rows names translate (e ∷ es)
        ≡ record e { item = language_item (updated w) } ∷ update_rows names translate es
  unfolding update_rows updated
  update_language e es w i = simp i refl

  update-AllMarked :
      (chosen : Bytes) (es : List Entry)
      → AllMarked chosen es
      → AllMarked chosen (update_rows names translate es)
  unfolding AllMarked marked update_rows updated
  update-AllMarked chosen [] h = h
  update-AllMarked chosen (e ∷ es) (h, (m, all)) = elim (ends-cases e es h) [
    | inl (i, last) ↦ rw (update_more e es i, last) (rw last at h, (m, tt))
    | inr (w, i, below) ↦
        let (ends, marks) = update-AllMarked chosen es (below, all) in
        let (kept_check, kept_id) =
          update_item_lem names (record w { box = map (walk_part translate) w.box }) in
        let top : Entry = record e { item = language_item (updated w) } in
        let m' : marked chosen (language_item w) ≡ true = rw i at m in
        rw (update_language e es w i) (
          ends-cons top (update_rows names translate es) refl ends,
          (rw (kept_check, kept_id) m', marks),
        )
  ]

set-IsMarked :
    (c : Chooser) (id : Bytes)
    → IsMarked c
    → (c' : Chooser) × ((calls : List Call) × (set_locale_id (some id) c ≡ some (c', calls)))
      × IsMarked c'
unfolding set_locale_id IsMarked AllMarked
set-IsMarked c id (ends, chosen, l, all) = elim (Bool-cases (str_equal0 c.language (some id))) [
  | inl e ↦ (c, ([], rw e refl), (ends, chosen, l, all))
  | inr e ↦
      let (es, synced, (ends', all')) = sync_lem id c.entries ends in
      (
        record c { language = some id; entries = es },
        (notify_language ∷ [], rw (e, synced) refl),
        (ends', id, refl, all'),
      )
]

module _ (names : Names) (gettext : Bytes → String → String) where
  activate-IsMarked :
      (row : Option ℕ) (c : Chooser)
      → IsMarked c
      → (c' : Chooser) × (chooser_step names gettext (activated row) c ≡ some c') × IsMarked c'
  unfolding chooser_step row_activated IsMarked show_more AllMarked
  activate-IsMarked none c h = (c, refl, h)
  activate-IsMarked (some n) c (ends, chosen, l, all) =
      elim (Option-cases (get_elem? c.entries n)) [
        | inl e ↦ (c, rw (e, row_activated) refl, (ends, chosen, l, all))
        | inr (e, found) ↦ elim (Item-cases e.item) [
          | inl i ↦
              let (ends', all') = filter-AllMarked chosen true c.entries (ends, all) in
              (
                record c { showing_extra = true; entries = invalidate_filter true c.entries },
                rw (found, i, row_activated) refl,
                (ends', chosen, l, all'),
              )
          | inr (w, i) ↦
              let (c', (calls, set), (e', chosen', l', all')) =
                set-IsMarked c w.locale_id (ends, chosen, l, all) in
              let translate = gettext w.locale_id in
              let (ends'', all'') =
                update-AllMarked names translate chosen' c'.entries (e', all') in
              (
                record c' { entries = update_rows names translate c'.entries },
                rw (found, i, set, row_activated) refl,
                (ends'', chosen', l', all''),
              )
        ]
      ]

  step-IsMarked :
      (e : ChooserEvent) (c : Chooser)
      → IsGiven e
      → IsMarked c
      → (c' : Chooser) × (chooser_step names gettext e c ≡ some c') × IsMarked c'
  unfolding chooser_step cc_language_chooser_set_showing_extra localed_proxy_ready IsMarked
  step-IsMarked (language_set none) c g h = cc
  step-IsMarked (language_set (some id)) c g h =
      let (c', (calls, set), h') = set-IsMarked c id h in (c', rw set refl, h')
  step-IsMarked (activated row) c g h = activate-IsMarked row c h
  step-IsMarked (extra_set b) c g h = elim (Bool-cases (bool_eq c.showing_extra b)) [
    | inl e ↦ (c, rw e refl, h)
    | inr e ↦ (record c { showing_extra = b }, rw e refl, h)
  ]
  step-IsMarked (proxy_ready true) c g h = (record c { localed = true }, refl, h)
  step-IsMarked (proxy_ready false) c g h = (c, refl, h)

  -- Where a language is chosen and the More item is the last row, whatever happens next goes through as
  -- long as no language is set to NULL, a chosen language is there after it, and of the rows of languages exactly those of the chosen one
  -- show the check mark.
  pub run-IsMarked :
      (es : List ChooserEvent) (c : Chooser)
      → All IsGiven es
      → IsMarked c
      → (c' : Chooser) × (chooser_run names gettext es c ≡ some c') × IsMarked c'
  unfolding chooser_run
  run-IsMarked [] c all h = (c, refl, h)
  run-IsMarked (e ∷ es) c (g, all) h =
      let (c', step, h') = step-IsMarked e c g h in
      let (c'', run, h'') = run-IsMarked es c' all h' in (c'', rw (step, run) refl, h'')
