-- ===== src/Language/Chooser.antt =====
-- src/cc-language-chooser.c: the chooser with its list box, its entries and what it asks other
-- services.
use furios_initial_setup.Common.{
  Bool, List, Option, String, [], bool_eq, false, get_elem?, if◌then◌else◌, is_some, map, none, not,
  some, str_eq, true, ℕ, ◌++◌, ◌>>=◌, ◌∷◌,
}
use furios_initial_setup.Common.Bytes.{Bytes, bytes, bytes_eq}
use furios_initial_setup.Language.Locales.{
  Fonts, Table, cc_common_language_get_current_language, cc_common_language_get_initial_languages,
  cc_common_language_has_font, str_equal0, table_lookup,
}
use furios_initial_setup.Language.Retranslate.{walk_all_widgets_recursive}
use furios_initial_setup.Language.Rows.{
  Item, Names, Part, Sign, checkmark, label, language_item, language_visible, language_widget_new,
  language_widget_update, more_item, sort_languages,
}
use furios_initial_setup.Widgets.{Widget}
use furios_initial_setup.Widgets.Preorder.{first}

-- A row of the list, and whether the filter lets it be seen.
pub record Entry : Type 0 where
  pub item : Item
  pub is_shown : Bool

-- GTK's list box with a sort function: where it puts a new row.
pub record SortedBox : Type 1 where
  pub place : {A : Type 0} → (A → A → Sign) → A → List A → List A

-- `_CcLanguageChooserPrivate`: `user` and `localed` are whether the objects are there.
pub record Chooser : Type 0 where
  pub entries : List Entry
  pub showing_extra : Bool
  pub language : Option Bytes
  pub user : Bool
  pub localed : Bool

-- What the chooser asks other services and tells others.
pub data Call : Type 0 where
  act_user_set_language : Bytes → Call
  set_locale : List Bytes → Call
  setlocale : Bytes → Call
  confirm notify_language notify_showing_extra : Call

unfoldable pub compare_entries : Entry → Entry → Sign
compare_entries a b = sort_languages a.item b.item

-- `gtk_list_box_append`: the row is sorted in and filtered.
unfoldable pub append_row : SortedBox → Item → Chooser → Chooser
unfolding compare_entries
append_row box item c = record c {
  entries =
      box.place compare_entries
        (record { item = item; is_shown = language_visible c.showing_extra item }) c.entries;
}

module _ (box : SortedBox) (names : Names) (fonts_of : Bytes → Fonts) where
  -- `add_one_language`
  unfoldable pub add_one_language : Bytes → Bool → Chooser → Chooser
  add_one_language id is_initial c =
      if cc_common_language_has_font names.parse_locale fonts_of id
      then elim (language_widget_new names id (not is_initial)) [
        | none ↦ c
        | some w ↦ append_row box (language_item w) c
      ]
      else c

  unfoldable pub add_initial : Table → Chooser → Chooser
  add_initial [] c = c
  add_initial ((id, name) ∷ rest) c = add_initial rest (add_one_language id true c)

  unfoldable pub add_others : Table → List Bytes → Chooser → Chooser
  add_others initial [] c = c
  add_others initial (id ∷ ids) c =
      add_others initial ids
        (if is_some (table_lookup initial id) then c else add_one_language id false c)

  -- `add_languages`, with the table in the order in which it is gone through
  unfoldable pub add_languages : List Bytes → Table → Chooser → Chooser
  add_languages ids initial c =
      append_row box more_item (add_others initial ids (add_initial initial c))

  -- `add_all_languages`, with all locales that there are
  unfoldable pub add_all_languages : List Bytes → (Bytes → Bool) → Option Bytes → Chooser → Chooser
  unfolding add_languages
  add_all_languages ids newlocale current c =
      add_languages ids
        (cc_common_language_get_initial_languages newlocale names.language_from_locale current) c

-- `sync_all_checkmarks`; without a language, `g_str_equal` reads a NULL pointer, which is no value.
unfoldable pub sync_all_checkmarks : Option Bytes → List Entry → Option (List Entry)
sync_all_checkmarks language [] = some []
sync_all_checkmarks language (e ∷ es) = elim e.item [
  | more_item ↦ some (e ∷ es)
  | language_item w ↦ do
    chosen ← language
    rest ← sync_all_checkmarks language es
    some (
        record e { item = language_item (record w { is_checked = bytes_eq w.locale_id chosen }) }
        ∷ rest)
]

-- `set_locale_id`
unfoldable pub set_locale_id : Option Bytes → Chooser → Option (Chooser × List Call)
set_locale_id new c = if str_equal0 c.language new then some (c, []) else do
  entries ← sync_all_checkmarks new c.entries
  some (record c { language = new; entries = entries }, notify_language ∷ [])

-- `gtk_list_box_invalidate_filter`
unfoldable pub invalidate_filter : Bool → List Entry → List Entry
invalidate_filter showing_extra [] = []
invalidate_filter showing_extra (e ∷ es) =
    record e { is_shown = language_visible showing_extra e.item }
    ∷ invalidate_filter showing_extra es

-- `show_more`
unfoldable pub show_more : Chooser → Chooser × List Call
show_more c = (
  record c { showing_extra = true; entries = invalidate_filter true c.entries },
  notify_showing_extra ∷ [],
)

-- `cc_language_chooser_set_showing_extra`
unfoldable pub cc_language_chooser_set_showing_extra : Bool → Chooser → Chooser × List Call
cc_language_chooser_set_showing_extra new c =
    if bool_eq c.showing_extra new
    then (c, [])
    else (record c { showing_extra = new }, notify_showing_extra ∷ [])

-- The labels of a row, walked through with all others.
unfoldable pub walk_part : (String → String) → Part → Part
walk_part translate checkmark = checkmark
walk_part translate (label text none) =
    if str_eq text "" then label text (some text) else label (translate text) (some text)
walk_part translate (label text (some first)) =
    if str_eq first "" then label text (some first) else label (translate first) (some first)

unfoldable pub update_rows : Names → (String → String) → List Entry → List Entry
unfolding walk_part
update_rows names translate [] = []
update_rows names translate (e ∷ es) =
    let rest = update_rows names translate es in
    elim e.item [
      | more_item ↦ e ∷ rest
      | language_item w ↦
          record e {
            item =
                language_item (
                  language_widget_update names
                    (record w { box = map (walk_part translate) w.box }));
          }
          ∷ rest
    ]

-- `row_activated`, with the other widgets of the windows; `gettext` is by the locale that is set.
unfoldable pub row_activated :
    Names
    → (Bytes → String → String)
    → Option ℕ
    → Chooser
    → List Widget
    → Option (Chooser × (List Widget × List Call))
unfolding update_rows
row_activated names gettext none c windows = some (c, (windows, []))
row_activated names gettext (some row) c windows = elim (get_elem? c.entries row) [
  | none ↦ some (c, (windows, []))
  | some e ↦ elim e.item [
    | more_item ↦ let (c', calls) = show_more c in some (c', (windows, calls))
    | language_item w ↦ do
      (c', calls) ← set_locale_id (some w.locale_id) c
      let translate = gettext w.locale_id
      some (
        record c' { entries = update_rows names translate c'.entries },
        (
          map (walk_all_widgets_recursive translate) windows,
          calls ++ (setlocale w.locale_id ∷ (confirm ∷ [])),
        ),
      )
  ]
]

-- `cc_set_localed_locale`; without the proxy, GLib only warns.
unfoldable pub cc_set_localed_locale : Chooser → Bytes → List Call
cc_set_localed_locale c id =
    if c.localed
    then set_locale (
        (bytes "LANG=" ++ id)
        ∷ ((bytes "LC_TIME=" ++ id)
            ∷ ((bytes "LC_NUMERIC=" ++ id)
                ∷ ((bytes "LC_MONETARY=" ++ id)
                    ∷ ((bytes "LC_MEASUREMENT=" ++ id) ∷ ((bytes "LC_PAPER=" ++ id) ∷ []))))))
      ∷ []
    else []

-- `cc_language_chooser_apply`
unfoldable pub cc_language_chooser_apply : Chooser → List Call
cc_language_chooser_apply c = elim c.language [
  | none ↦ []
  | some id ↦ if c.user then act_user_set_language id ∷ cc_set_localed_locale c id else []
]

-- `localed_proxy_ready`, by whether there is a proxy
unfoldable pub localed_proxy_ready : Bool → Chooser → Chooser
localed_proxy_ready true c = record c { localed = true }
localed_proxy_ready false c = c

-- `cc_language_chooser_constructed`, with the current language
unfoldable pub cc_language_chooser_constructed :
    SortedBox → Names → (Bytes → Fonts) → List Bytes → Table → Bytes → Chooser → Option Chooser
cc_language_chooser_constructed box names fonts_of ids initial current c =
    let filled = add_languages box names fonts_of ids initial c in
    let language = if is_some c.language then c.language else some current in
    do
      entries ← sync_all_checkmarks language filled.entries
      some (record filled { language = language; entries = entries })

-- `cc_language_chooser_init`: nothing is there yet but the user.
unfoldable pub cc_language_chooser_init : Bool → Chooser
cc_language_chooser_init user = record {
  entries = [];
  showing_extra = false;
  language = none;
  user = user;
  localed = false;
}

-- `update_lang`: once the program is idle, the windows are put in the current language.
unfoldable pub update_lang :
    (Bytes → String → String) → Option Bytes → List Widget → Option (List Widget)
update_lang gettext current windows = do
  language ← cc_common_language_get_current_language current
  some (map (walk_all_widgets_recursive (gettext language)) windows)
