-- ===== src/Language/Locales.antt =====
-- src/cc-common-language.c: which locales can be shown, and the ones that are offered first.
use furios_initial_setup.Common.{
  Bool, List, Option, [], false, if◌then◌else◌, is_some, ltb, none, not, some, true, ℕ, ◌||◌, ◌∷◌,
}
use furios_initial_setup.Common.Bytes.{Bytes, bytes, bytes_eq}

-- What fontconfig says of a language: it does not know it, a call of it failed, or so many fonts have
-- it.
pub data Fonts : Type 0 where
  unknown_language pattern_failed object_set_failed list_failed : Fonts
  fonts : ℕ → Fonts

-- `cc_common_language_has_font`, by the language that `gnome_parse_locale` finds
unfoldable pub cc_common_language_has_font :
    (Bytes → Option (Bytes × Option Bytes)) → (Bytes → Fonts) → Bytes → Bool
cc_common_language_has_font parse_locale fonts_of locale = elim (parse_locale locale) [
  | none ↦ false
  | some (language, country) ↦ elim (fonts_of language) [
    | unknown_language ↦ true
    | pattern_failed ↦ false
    | object_set_failed ↦ false
    | list_failed ↦ false
    | fonts n ↦ ltb 0 n
  ]
]

-- The table of the first languages: a label, or NULL, for each locale.
abbrev pub Table : Type 0
Table = List (Bytes × Option Bytes)

-- `g_hash_table_insert`: a key that is there gets the new value.
unfoldable pub table_insert : Table → Bytes → Option Bytes → Table
table_insert [] key value = (key, value) ∷ []
table_insert ((k, l) ∷ rest) key value =
    let after = table_insert rest key value in
    if bytes_eq k key then (k, value) ∷ rest else (k, l) ∷ after

-- `g_hash_table_lookup`, which is NULL for a key that is not there and for one with NULL.
unfoldable pub table_lookup : Table → Bytes → Option Bytes
table_lookup [] key = none
table_lookup ((k, l) ∷ rest) key =
    let after = table_lookup rest key in if bytes_eq k key then l else after

-- `g_strcmp0 (a, b) == 0`
unfoldable pub str_equal0 : Option Bytes → Option Bytes → Bool
str_equal0 none none = true
str_equal0 none (some b) = false
str_equal0 (some a) none = false
str_equal0 (some a) (some b) = bytes_eq a b

abbrev pub initial_languages : List Bytes
initial_languages =
    bytes "en_US.UTF-8"
    ∷ bytes "es_ES.UTF-8"
    ∷ bytes "de_DE.UTF-8"
    ∷ bytes "fr_FR.UTF-8"
    ∷ bytes "zh_CN.UTF-8"
    ∷ bytes "ja_JP.UTF-8"
    ∷ bytes "ru_RU.UTF-8"
    ∷ []

module _ (newlocale : Bytes → Bool) (language_from_locale : Bytes → Option Bytes → Option Bytes)
    (current_language : Option Bytes) where
  -- The label of a locale: in its own language, else in the current one, else not translated.
  unfoldable pub label_of : Bytes → Option Bytes
  label_of lang =
      let own = language_from_locale lang (some lang) in
      let current = language_from_locale lang current_language in
      let untranslated = language_from_locale lang (some (bytes "C")) in
      if not (is_some own) || str_equal0 own untranslated
      then if str_equal0 current untranslated then untranslated else current
      else own

  -- `insert_language`
  unfoldable pub insert_language : Table → Bytes → Table
  unfolding label_of
  insert_language table lang =
      if newlocale lang then table_insert table lang (label_of lang) else table

  unfoldable pub insert_all : Table → List Bytes → Table
  insert_all table [] = table
  insert_all table (lang ∷ langs) = insert_all (insert_language table lang) langs

  -- `cc_common_language_get_initial_languages`
  unfoldable pub cc_common_language_get_initial_languages : Table
  unfolding insert_all
  cc_common_language_get_initial_languages = insert_all [] initial_languages

-- `cc_common_language_set_current_language`, where `normalize` is gnome-desktop's, which may be NULL
unfoldable pub cc_common_language_set_current_language :
    (Bytes → Option Bytes) → Bytes → Option Bytes
cc_common_language_set_current_language normalize locale = normalize locale

-- `cc_common_language_get_current_language`: without a current language the program aborts, which is
-- no value.
unfoldable pub cc_common_language_get_current_language : Option Bytes → Option Bytes
cc_common_language_get_current_language current = current
