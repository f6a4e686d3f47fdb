-- ===== src/Language/Properties.antt =====
-- src/cc-language-chooser.c: the properties of the chooser, and its end.
use furios_initial_setup.Common.{
  Bool, Bool-cases, List, Option, Option-cases, arith, bool_eq, false, inl, inr, none, refl, some,
  true, ◌≡◌,
}
use furios_initial_setup.Common.Bytes.{Bytes, bytes_eq_sound}
use furios_initial_setup.Language.Chooser.{
  Call, Chooser, cc_language_chooser_set_showing_extra, set_locale_id, sync_all_checkmarks,
}
use furios_initial_setup.Language.Locales.{str_equal0}

unfoldable pub cc_language_chooser_get_language : Chooser → Option Bytes
cc_language_chooser_get_language c = c.language

unfoldable pub cc_language_chooser_get_showing_extra : Chooser → Bool
cc_language_chooser_get_showing_extra c = c.showing_extra

-- `cc_language_chooser_set_language`; NULL where the list has languages reads a NULL pointer
unfoldable pub cc_language_chooser_set_language :
    Option Bytes → Chooser → Option (Chooser × List Call)
unfolding set_locale_id
cc_language_chooser_set_language language c = set_locale_id language c

-- The properties with the types of their values.
pub data ChooserProperty : Type 0 where
  prop_language prop_showing_extra : ChooserProperty

abbrev pub ValueOf : ChooserProperty → Type 0
ValueOf prop_language = Option Bytes
ValueOf prop_showing_extra = Bool

unfoldable pub cc_language_chooser_get_property : (p : ChooserProperty) → Chooser → ValueOf p
unfolding cc_language_chooser_get_language cc_language_chooser_get_showing_extra
cc_language_chooser_get_property prop_language c = cc_language_chooser_get_language c
cc_language_chooser_get_property prop_showing_extra c = cc_language_chooser_get_showing_extra c

unfoldable pub cc_language_chooser_set_property :
    (p : ChooserProperty) → ValueOf p → Chooser → Option (Chooser × List Call)
unfolding cc_language_chooser_set_language cc_language_chooser_set_showing_extra
cc_language_chooser_set_property prop_language v c = cc_language_chooser_set_language v c
cc_language_chooser_set_property prop_showing_extra v c =
    some (cc_language_chooser_set_showing_extra v c)

-- `cc_language_chooser_finalize`, but for the memory
unfoldable pub cc_language_chooser_finalize : Chooser → Chooser
cc_language_chooser_finalize c = record c { localed = false }

str_equal0_sound : (a b : Option Bytes) → str_equal0 a b ≡ true → a ≡ b
unfolding str_equal0
str_equal0_sound none none h = refl
str_equal0_sound none (some b) h = ground (arith, h)
str_equal0_sound (some a) none h = ground (arith, h)
str_equal0_sound (some a) (some b) h = rw (bytes_eq_sound a b h) refl

bool_eq_sound : (a b : Bool) → bool_eq a b ≡ true → a ≡ b
bool_eq_sound a b h = ground (arith, h)

-- A property that was set, where that is defined, reads as it was set.
pub get_property-set_property :
    (p : ChooserProperty) (v : ValueOf p) (c c' : Chooser) (calls : List Call)
    → cc_language_chooser_set_property p v c ≡ some (c', calls)
    → cc_language_chooser_get_property p c' ≡ v
unfolding cc_language_chooser_get_property cc_language_chooser_set_property set_locale_id
    cc_language_chooser_set_language cc_language_chooser_set_showing_extra
get_property-set_property prop_language v c c' calls h =
    elim (Bool-cases (str_equal0 c.language v)) [
      | inl e ↦ ground (arith, h, e, str_equal0_sound c.language v e)
      | inr e ↦ elim (Option-cases (sync_all_checkmarks v c.entries)) [
        | inl n ↦ ground (arith, h, e, n)
        | inr (entries, n) ↦ ground (arith, h, e, n)
      ]
    ]
get_property-set_property prop_showing_extra v c c' calls h =
    elim (Bool-cases (bool_eq c.showing_extra v)) [
      | inl e ↦ ground (arith, h, e, bool_eq_sound c.showing_extra v e)
      | inr e ↦ ground (arith, h, e)
    ]
