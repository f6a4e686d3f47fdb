-- ===== src/Security/Examples.antt =====
-- Changes of the password as `passwd` words them, and the theorems at these.
use furios_initial_setup.Common.{Option, [], false, refl, some, true, ◌++◌, ◌∷◌, ◌≡◌}
use furios_initial_setup.Common.Bytes.{Bytes, bytes, bytes_eq, strstr}
use furios_initial_setup.Passwd.Messages.{is_string_complete}
use furios_initial_setup.Passwd.Output.{io_watch_stdout-append}
use furios_initial_setup.Passwd.Process.{not_spawned, running}
use furios_initial_setup.Passwd.State.{Error, applied, spawned, wrote}
use furios_initial_setup.Passwd.Watch.{io_watch_stdout}
use furios_initial_setup.Security.Apply.{
  Callback, Handler, default_password, notify, pt_security_settings_apply,
}
use furios_initial_setup.Security.Entry.{Entries, ready_unmarked, update_password_match}
use furios_initial_setup.Security.Protocol.{line, no_password_stalls, reads, refused_end_to_end}

abbrev page : Entries
page = record {
  password = bytes "secret";
  verify = bytes "secret";
  password_error = false;
  verify_error = false;
  ready = true;
}

abbrev asks : Bytes
asks = bytes "Current password: "

abbrev accepts : Bytes
accepts = bytes "New password: "

abbrev asks_again : Bytes
asks_again = bytes "Retype new password: "

abbrev concludes : Bytes
concludes = bytes "passwd: password updated successfully"

abbrev refuses : Bytes
refuses = bytes "passwd: Authentication token manipulation error"

refused_end_to_end_example :
    (reads page.password not_spawned
      (pt_security_settings_apply page (running 9 1 2) [])
      (asks ∷ refuses ∷ [])).log
    ≡ applied false ∷ wrote (line default_password) ∷ spawned 9 ∷ []
unfolding is_string_complete strstr
refused_end_to_end_example =
    (refused_end_to_end page 9 1 2 refl not_spawned asks refuses accepts asks_again (refl, refl)
      (refl, refl) (refl, refl) refl).0

no_password_stalls_example :
    (reads page.password not_spawned
      (pt_security_settings_apply page (running 9 1 2) [])
      (asks_again ∷ [])).log
    ≡ spawned 9 ∷ []
unfolding is_string_complete strstr
no_password_stalls_example = (no_password_stalls page 9 1 2 refl not_spawned asks_again refl refl).0

ready_unmarked_example : (update_password_match page).password_error ≡ false
unfolding update_password_match bytes_eq
ready_unmarked_example = (ready_unmarked page refl).0

abbrev callback : Callback → Option Error → Handler → Handler
callback = notify page.password not_spawned

abbrev handler : Handler
handler = pt_security_settings_apply page (running 9 1 2) []

io_watch_stdout-append_example :
    io_watch_stdout callback
      (some (bytes "word: "))
      (io_watch_stdout callback (some (bytes "Current pass")) handler)
    ≡ io_watch_stdout callback (some (bytes "Current pass" ++ bytes "word: ")) handler
unfolding is_string_complete strstr pt_security_settings_apply
io_watch_stdout-append_example =
    io_watch_stdout-append callback handler (bytes "Current pass") (bytes "word: ") refl
