-- ===== src/Application.antt =====
-- src/pt-application.c: the start of the program.
pub mod Twice
use furios_initial_setup.Common.{Bool, List, Option, if◌then◌else◌, none, some, ℕ, ◌∷◌}
use furios_initial_setup.Common.Bytes.{Bytes, bytes}
use furios_initial_setup.Common.Int.{pos, ℤ}
use furios_initial_setup.Language.Locales.{cc_common_language_set_current_language}

-- The current language of src/cc-common-language.c, the locale of the messages, the window of the
-- application that is active, and the windows in the order in which they were presented, newest first.
pub record Application : Type 0 where
  pub current_language : Option Bytes
  pub lc_messages : Bytes
  pub active_window : Option ℕ
  pub presented : List ℕ

abbrev pub window_or : Option ℕ → ℕ → ℕ
window_or none created = created
window_or (some window) created = window

-- `pt_application_activate`; `normalize` is gnome-desktop's, and `created` the window that
-- `g_object_new` makes
unfoldable pub pt_application_activate : (Bytes → Option Bytes) → ℕ → Application → Application
unfolding cc_common_language_set_current_language
pt_application_activate normalize created s =
    let window = window_or s.active_window created in
    record {
      current_language = cc_common_language_set_current_language normalize s.lc_messages;
      lc_messages = bytes "C";
      active_window = some window;
      presented = window ∷ s.presented;
    }

-- `pt_application_handle_local_options`: the status to exit with, from the parent class without the
-- option for the version
unfoldable pub pt_application_handle_local_options : Bool → ℤ → ℤ
pt_application_handle_local_options version parent = if version then pos 0 else parent
