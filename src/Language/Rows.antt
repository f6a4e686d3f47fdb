-- ===== src/Language/Rows.antt =====
-- src/cc-language-chooser.c: the rows of the list, their order and which of them are shown.
use furios_initial_setup.Common.{
  Bool, List, Option, String, [], false, if◌then◌else◌, ltb, none, not, some, true, ◌&&◌, ◌++◌,
  ◌==◌, ◌∷◌,
}
use furios_initial_setup.Common.Bytes.{Bytes, bytes}
use furios_initial_setup.Language.Normalize.{Utf8, cc_util_normalize_casefold_and_unaccent}

-- What `strcmp` says by the sign of its value.
pub data Sign : Type 0 where
  less same more : Sign

unfoldable pub strcmp : Bytes → Bytes → Sign
strcmp [] [] = same
strcmp [] (y ∷ ys) = less
strcmp (x ∷ xs) [] = more
strcmp (x ∷ xs) (y ∷ ys) =
    let rest = strcmp xs ys in if x == y then rest else if ltb x y then less else more

-- `g_strcmp0`: NULL comes first.
unfoldable pub g_strcmp0 : Option Bytes → Option Bytes → Sign
g_strcmp0 none none = same
g_strcmp0 none (some y) = less
g_strcmp0 (some x) none = more
g_strcmp0 (some x) (some y) = strcmp x y

-- What a row's box holds: labels, each with the text that was put aside as its first, and the check
-- mark at the end.
pub data Part : Type 0 where
  label : String → Option String → Part
  checkmark : Part

-- `LanguageWidget`; `is_checked` is whether the check mark has its full opacity.
pub record LanguageWidget : Type 0 where
  pub box : List Part
  pub is_checked : Bool
  pub locale_id : Bytes
  pub locale_name : Option Bytes
  pub locale_current_name : Option Bytes
  pub locale_untranslated_name : Option Bytes
  pub sort_key : Option Bytes
  pub is_extra : Bool

-- What a row of the list holds: the More item has no `LanguageWidget`.
pub data Item : Type 0 where
  more_item : Item
  language_item : LanguageWidget → Item

-- gnome-desktop's names of languages and countries, by code or locale, in the language of a locale
-- or, where that is NULL, in the one that is set; and what GLib folds a text to.
pub record Names : Type 0 where
  pub parse_locale : Bytes → Option (Bytes × Option Bytes)
  pub language_from_code : Bytes → Option Bytes → Option String
  pub country_from_code : Bytes → Option Bytes → Option String
  pub language_from_locale : Bytes → Option Bytes → Option Bytes
  pub encoding : Utf8
  pub fold : Bytes → Bytes

-- A second try where the first gave NULL.
or_null : Option String → Option String → Option String
or_null none r = r
or_null (some t) r = some t

label_text : Option String → String
label_text none = ""
label_text (some t) = t

country_label : Option String → List Part
country_label none = []
country_label (some t) = label t none ∷ []

-- `gtk_label_set_text`, which leaves the label as it is for NULL
unfoldable pub set_text : Option String → Part → Part
set_text none p = p
set_text (some t) (label old original) = label t original
set_text (some t) checkmark = checkmark

unfoldable pub set_first : Option String → List Part → List Part
unfolding set_text
set_first t [] = []
set_first t (p ∷ ps) = set_text t p ∷ ps

unfoldable pub set_last : Option String → List Part → List Part
unfolding set_text
set_last t [] = []
set_last t (p ∷ []) = set_text t p ∷ []
set_last t (p ∷ (q ∷ ps)) = p ∷ set_last t (q ∷ ps)

module _ (names : Names) where
  unfoldable pub name_of_language : Bytes → Bytes → Option String
  unfolding or_null
  name_of_language language id =
      or_null (names.language_from_code language (some id)) (names.language_from_code language none)

  unfoldable pub name_of_country : Option Bytes → Bytes → Option String
  unfolding or_null
  name_of_country none id = none
  name_of_country (some country) id =
      or_null (names.country_from_code country (some id)) (names.country_from_code country none)

  -- `language_widget_new`
  unfoldable pub language_widget_new : Bytes → Bool → Option LanguageWidget
  unfolding name_of_language name_of_country label_text country_label
  language_widget_new id extra = elim (names.parse_locale id) [
    | none ↦ none
    | some (language, country) ↦
        let locale_name = names.language_from_locale id (some id) in
        some (record {
          box =
              label (label_text (name_of_language language id)) none
              ∷ (country_label (name_of_country country id) ++ (checkmark ∷ []));
          is_checked = true;
          locale_id = id;
          locale_name = locale_name;
          locale_current_name = names.language_from_locale id none;
          locale_untranslated_name = names.language_from_locale id (some (bytes "C"));
          sort_key = cc_util_normalize_casefold_and_unaccent names.encoding names.fold locale_name;
          is_extra = extra;
        })
  ]

  -- `language_widget_update`
  unfoldable pub language_widget_update : LanguageWidget → LanguageWidget
  unfolding name_of_language name_of_country set_first set_last
  language_widget_update w = elim (names.parse_locale w.locale_id) [
    | none ↦ w
    | some (language, country) ↦ record w {
      box =
          set_last (name_of_country country w.locale_id)
            (set_first (name_of_language language w.locale_id) w.box);
    }
  ]

-- `sort_languages`
unfoldable pub sort_languages : Item → Item → Sign
unfolding g_strcmp0
sort_languages more_item b = more
sort_languages (language_item la) more_item = less
sort_languages (language_item la) (language_item lb) =
    if la.is_extra && not lb.is_extra
    then more
    else if not la.is_extra && lb.is_extra
    then less
    else elim (g_strcmp0 la.sort_key lb.sort_key) [
      | same ↦ g_strcmp0 (some la.locale_id) (some lb.locale_id)
      | less ↦ less
      | more ↦ more
    ]

-- `language_visible`, by `showing_extra`
unfoldable pub language_visible : Bool → Item → Bool
language_visible showing_extra more_item = true
language_visible showing_extra (language_item w) =
    if not showing_extra && w.is_extra then false else true
