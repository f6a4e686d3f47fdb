-- ===== src/Setup/State.antt =====
-- src/pt-window.c, src/pt-security-settings.c, src/run-passwd.c, src/cc-language-chooser.c: the state that
-- the window and its pages have together.
use furios_initial_setup.Language.Chooser
use furios_initial_setup.Common.{List, ℕ}
use furios_initial_setup.Common.Bytes.{Bytes}
use furios_initial_setup.Language.Chooser.{Chooser}
use furios_initial_setup.Passwd.State.{Effect}
use furios_initial_setup.Security.Apply.{Handler}
use furios_initial_setup.Security.Entry.{Entries}
use furios_initial_setup.Window.State.{Window}

-- A change of the password that runs: the handler that `pt_security_settings_apply` made, and the page
-- that its callback is told of. The effects of the handler are in the common log.
pub record Change : Type 0 where
  pub page : ℕ
  pub handler : Handler

-- `buffer` is the static buffer of `io_watch_stdout`, which all handlers share.
pub record Setup : Type 0 where
  pub window : Window
  pub entries : Entries
  pub chooser : Chooser
  pub changes : List Change
  pub buffer : Bytes
  pub calls : List Chooser.Call
  pub effects : List Effect
