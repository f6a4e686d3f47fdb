-- ===== src/Language/Examples.antt =====
-- The language page on given inputs: texts in UTF-8 and in ASCII, and locales that name themselves.
use mathlib.Core.List.Perm
use furios_initial_setup.Common.{
  All, Bool, List, Option, [], arith, false, inl, map, none, refl, some, true, ℕ, ◌++◌, ◌∷◌, ◌≡◌,
}
use furios_initial_setup.Common.Bytes.{Bytes, bytes, bytes_eq}
use furios_initial_setup.Common.Slices.{drop, take}
use furios_initial_setup.Language.Box.{insert_row, insertion, insertion-IsSortedBox}
use furios_initial_setup.Language.Built.{built-IsMarked}
use furios_initial_setup.Language.Chooser.{
  Chooser, Entry, add_initial, add_languages, add_one_language, add_others, append_row,
  cc_language_chooser_constructed, cc_language_chooser_init, compare_entries, sync_all_checkmarks,
}
use furios_initial_setup.Language.Chosen.{
  ChooserEvent, IsMarked, activated, chooser_run, language_set,
}
use furios_initial_setup.Language.Locales.{Table, cc_common_language_has_font, fonts, table_lookup}
use furios_initial_setup.Language.Normalize.{
  IsCharacter, Utf8, cc_util_normalize_casefold_and_unaccent, is_cdm, keep_char, unaccent,
  unaccent_loop, unaccent_round,
}
use furios_initial_setup.Language.Permuted.{add_languages-same}
use furios_initial_setup.Language.Retranslate.{walk-walk, walk_all_widgets_recursive}
use furios_initial_setup.Language.Rows.{
  LanguageWidget, Names, checkmark, g_strcmp0, label, language_item, language_visible,
  language_widget_new, more_item, sort_languages, strcmp,
}
use furios_initial_setup.Language.Sorted.{add_languages-Sorted, ends_in_more, is_more}
use furios_initial_setup.Language.Unaccent.{encode, unaccent_keeps, unmarked}
use furios_initial_setup.Language.Utf8.{utf_8, utf_8-IsUtf8}
use furios_initial_setup.Widgets.{Widget, child, label_widget, no_child, plain, widget}

ascii_char : Bytes → Option (ℕ × ℕ)
ascii_char [] = none
ascii_char (b ∷ bs) = some (b, 1)

-- For texts of which only the ASCII characters are read.
abbrev ascii : Utf8
ascii = record { get_char = ascii_char; utf8 = λ c. c ∷ [] }

-- Of the characters two are combining marks; at the end is a byte that is in no text.
abbrev accented : List ℕ
accented = 65 ∷ 0x0301 ∷ 0xE9 ∷ 0x4E2D ∷ 0x1F600 ∷ 0x0302 ∷ 67 ∷ []

accented-unmarked : unmarked accented ≡ 65 ∷ 0xE9 ∷ 0x4E2D ∷ 0x1F600 ∷ 67 ∷ []
unfolding unmarked is_cdm
accented-unmarked = refl

accented-AllCharacters : All IsCharacter accented
accented-AllCharacters = ground arith

unaccent_keeps_example :
    unaccent utf_8 (encode utf_8 accented ++ (0xFF ∷ [])) ≡ some (encode utf_8 (unmarked accented))
unfolding utf_8
unaccent_keeps_example =
    unaccent_keeps utf_8 utf_8-IsUtf8 accented (0xFF ∷ []) accented-AllCharacters (inl refl)

abbrev plain_names : Names
plain_names = record {
  parse_locale = λ id. some (id, some (bytes "US"));
  language_from_code = λ code translation. some "English";
  country_from_code = λ code translation. some "United States";
  language_from_locale = λ id translation. some id;
  encoding = ascii;
  fold = λ text. text;
}

abbrev english : Bytes
english = bytes "en"

abbrev german : Bytes
german = bytes "de"

abbrev french : Bytes
french = bytes "fr"

abbrev all_locales : List Bytes
all_locales = french ∷ (english ∷ (german ∷ []))

abbrev first_languages : Table
first_languages = (german, some german) ∷ ((english, some english) ∷ [])

-- What a row is about, whether it can be seen and whether it has the check mark.
abbrev row_of : Entry → Bytes × (Bool × Bool)
row_of e = elim e.item [
  | more_item ↦ ([], (e.is_shown, false))
  | language_item w ↦ (w.locale_id, (e.is_shown, w.is_checked))
]

abbrev rows_of : Option Chooser → List (Bytes × (Bool × Bool))
rows_of none = []
rows_of (some c) = map row_of c.entries

abbrev new_chooser : Option Chooser
new_chooser =
    cc_language_chooser_constructed insertion plain_names (λ language. fonts 1) all_locales
      first_languages german (cc_language_chooser_init true)

abbrev chooser_events : List ChooserEvent
chooser_events = activated (some 1) ∷ (activated (some 3) ∷ (language_set (some french) ∷ []))

rows_built :
    rows_of new_chooser
    ≡ (german, (true, true))
      ∷ ((english, (true, false)) ∷ ((french, (false, false)) ∷ (([], (true, false)) ∷ [])))
unfolding cc_language_chooser_constructed cc_language_chooser_init sync_all_checkmarks add_languages
    append_row add_others add_initial add_one_language language_widget_new
    cc_common_language_has_font table_lookup insert_row compare_entries sort_languages g_strcmp0
    strcmp is_more language_visible bytes_eq cc_util_normalize_casefold_and_unaccent unaccent
    ascii_char unaccent_loop unaccent_round drop keep_char is_cdm take
rows_built = refl

add_languages-Sorted_example :
    ends_in_more
      (add_languages insertion plain_names
        (λ language. fonts 1)
        all_locales
        first_languages
        (cc_language_chooser_init true)).entries
    ≡ true
unfolding cc_language_chooser_init
add_languages-Sorted_example =
    (add_languages-Sorted insertion insertion-IsSortedBox plain_names (λ language. fonts 1)
      all_locales first_languages (cc_language_chooser_init true) refl).1

built-IsMarked_example :
    (c : Chooser) × (c' : Chooser) × (new_chooser ≡ some c)
    × (chooser_run plain_names (λ locale text. text) chooser_events c ≡ some c')
    × IsMarked c'
built-IsMarked_example =
    built-IsMarked insertion insertion-IsSortedBox plain_names (λ language. fonts 1)
      (λ locale text. text) chooser_events all_locales first_languages german true
      (tt, (tt, (refl, tt)))

abbrev german_row : LanguageWidget
german_row = record {
  box = label "Deutsch" none ∷ (label "Deutschland" none ∷ (checkmark ∷ []));
  is_checked = false;
  locale_id = german;
  locale_name = some german;
  locale_current_name = some german;
  locale_untranslated_name = some german;
  sort_key = some german;
  is_extra = false;
}

abbrev labelled : Widget
labelled =
    widget 0 "box" plain "" none
      (child (widget 1 "label" label_widget "Welcome" none no_child) no_child)

walk-walk_example :
    walk_all_widgets_recursive
      (λ text. "Bienvenue")
      (walk_all_widgets_recursive (λ text. "Willkommen") labelled)
    ≡ walk_all_widgets_recursive (λ text. "Bienvenue") labelled
walk-walk_example = walk-walk (λ text. "Willkommen") (λ text. "Bienvenue") labelled

abbrev other_order : Table
other_order = (english, some english) ∷ ((german, some german) ∷ [])

add_languages-same_example :
    add_languages insertion plain_names
      (λ language. fonts 1)
      all_locales
      first_languages
      (cc_language_chooser_init true)
    ≡ add_languages insertion plain_names
        (λ language. fonts 1)
        all_locales
        other_order
        (cc_language_chooser_init true)
unfolding cc_language_chooser_init bytes_eq
add_languages-same_example =
    add_languages-same insertion insertion-IsSortedBox plain_names (λ language. fonts 1)
      first_languages other_order all_locales (cc_language_chooser_init true)
      (Perm.swap _ _ [], ((refl, tt), (tt, tt)), ((refl, tt), (tt, tt))) refl
