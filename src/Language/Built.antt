-- ===== src/Language/Built.antt =====
-- src/cc-language-chooser.c: a chooser from its construction on.
use furios_initial_setup.Common.{All, Bool, List, String, refl, some, ◌≡◌}
use furios_initial_setup.Common.Bytes.{Bytes}
use furios_initial_setup.Language.Chooser.{
  Chooser, SortedBox, add_languages, cc_language_chooser_constructed, cc_language_chooser_init,
}
use furios_initial_setup.Language.Chosen.{
  AllMarked, ChooserEvent, IsGiven, IsMarked, chooser_run, run-IsMarked, sync_lem,
}
use furios_initial_setup.Language.Locales.{Fonts, Table}
use furios_initial_setup.Language.Rows.{Names}
use furios_initial_setup.Language.Sorted.{IsSortedBox, add_languages-Sorted}

module _ (box : SortedBox) (laws : IsSortedBox box) (names : Names) (fonts_of : Bytes → Fonts) where
  -- A chooser that is built has a chosen language, and its row alone shows the check mark.
  constructed-IsMarked :
      (ids : List Bytes) (table : Table) (current : Bytes) (user : Bool)
      → (c : Chooser) × (cc_language_chooser_constructed box names fonts_of ids table current
            (cc_language_chooser_init user)
          ≡ some c)
        × IsMarked c
  unfolding cc_language_chooser_constructed cc_language_chooser_init IsMarked AllMarked
  constructed-IsMarked ids table current user =
      let filled = add_languages box names fonts_of ids table (cc_language_chooser_init user) in
      let (sorted, ends) =
        add_languages-Sorted box laws names fonts_of ids table (cc_language_chooser_init user)
          refl in
      let (es, synced, (ends', all)) = sync_lem current filled.entries ends in
      (
        record filled { language = some current; entries = es },
        rw synced refl,
        (ends', current, refl, all),
      )

  -- For every set of locales, names and fonts: a chooser can be built, whatever happens to it then goes
  -- through, as long as no language is set to NULL, and at the end a chosen language is there, the More item is the last row, and of the rows
  -- of languages exactly those of the chosen one show the check mark.
  pub built-IsMarked :
      (gettext : Bytes → String → String) (es : List ChooserEvent) (ids : List Bytes)
      (table : Table) (current : Bytes) (user : Bool)
      → All IsGiven es
      → (c : Chooser) × (c' : Chooser) × (cc_language_chooser_constructed box names fonts_of ids
            table current
            (cc_language_chooser_init user)
          ≡ some c)
        × (chooser_run names gettext es c ≡ some c')
        × IsMarked c'
  built-IsMarked gettext es ids table current user given =
      let (c, made, h) = constructed-IsMarked ids table current user in
      let (c', run, h') = run-IsMarked names gettext es c given h in (c, c', made, run, h')
