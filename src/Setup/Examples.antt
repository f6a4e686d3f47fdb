-- ===== src/Setup/Examples.antt =====
-- The program with a window of three pages, and the theorems at it.
use furios_initial_setup.Common.{
  List, String, [], arith, false, if◌then◌else◌, none, refl, some, suc, true, ℕ, ◌==◌, ◌++◌, ◌∷◌,
  ◌≡◌, ◌≤◌,
}
use furios_initial_setup.Common.Bytes.{Bytes, bytes, strstr}
use furios_initial_setup.Common.Int.{pos}
use furios_initial_setup.Language.Rows.{Names}
use furios_initial_setup.Passwd.Messages.{is_string_complete}
use furios_initial_setup.Passwd.Process.{Spawn, not_spawned, running}
use furios_initial_setup.Passwd.State.{applied, spawned, wrote}
use furios_initial_setup.Security.Apply.{default_password}
use furios_initial_setup.Security.Entry.{Entries}
use furios_initial_setup.Security.Protocol.{line}
use furios_initial_setup.Setup.Conversation.{reads_of}
use furios_initial_setup.Setup.Finish.{Starts, finish_completes, late_edit}
use furios_initial_setup.Setup.Applied.{closed-Asked}
use furios_initial_setup.Setup.Calls.{Asked}
use furios_initial_setup.Setup.Held.{WasHeld}
use furios_initial_setup.Setup.Safety.{closed-Paid}
use furios_initial_setup.Setup.Sent.{Paid}
use furios_initial_setup.Setup.State.{Setup}
use furios_initial_setup.Setup.Step.{
  Happening, finished, passwd_printed, setup_run, typed, windowed,
}
use furios_initial_setup.Update.Provision.{Facts, Library}
use furios_initial_setup.Window.Commits.{Commit, commit_language, commit_security, no_commit}
use furios_initial_setup.Window.Exit.{closes}
use furios_initial_setup.Window.State.{Window}
use furios_initial_setup.Window.Step.{moves}

-- The language is chosen on the page 10, and the password is set on 13.
abbrev commits : ℕ → Commit
commits page =
    if page == 10 then commit_language else if page == 13 then commit_security else no_commit

abbrev window : Window
window = record {
  main_carousel = some (record { pages = 10 ∷ 13 ∷ 14 ∷ []; position = 20000 });
  pending_commits = pos 0;
  last_position = 0;
  update_progress = none;
  update_page = none;
  skip_updates_banner = none;
  password_page = some 13;
  updates_skipped = false;
  log = [];
}

abbrev library : Library
library = record {
  base64_decode = λ text. some text;
  escape = λ text. text;
  ed25519_verify = λ signature message key. true;
}

abbrev nothing_known : Facts
nothing_known = record {
  uname = none;
  sdk_version = none;
  build_date = none;
  build_fingerprint = none;
  furios_version = none;
}

abbrev page : Entries
page = record {
  password = bytes "correct horse";
  verify = bytes "correct horse";
  password_error = false;
  verify_error = false;
  ready = true;
}

abbrev asks : Bytes
asks = bytes "(current) UNIX password: "

abbrev accepts : Bytes
accepts = bytes "New password: "

abbrev asks_again : Bytes
asks_again = bytes "Retype new password: "

abbrev concludes : Bytes
concludes = bytes "passwd: password updated successfully"

abbrev plain_names : Names
plain_names = record {
  parse_locale = λ id. none;
  language_from_code = λ code translation. none;
  country_from_code = λ code translation. none;
  language_from_locale = λ id translation. none;
  encoding = record { get_char = λ text. none; utf8 = λ c. c ∷ [] };
  fold = λ text. text;
}

abbrev setup : Setup
setup = record {
  window = window;
  entries = page;
  chooser = record {
    entries = [];
    showing_extra = false;
    language = some (bytes "de");
    user = true;
    localed = true;
  };
  changes = [];
  buffer = [];
  calls = [];
  effects = [];
}

abbrev translation : Bytes → String → String
translation locale text = text

-- The user turns a page, presses Finish and then empties the password entry, before `passwd` has
-- accepted the default password.
abbrev happenings : List Happening
happenings =
    windowed (moves 40000)
    ∷ finished (running 7 8 9)
    ∷ passwd_printed 0 not_spawned (some asks)
    ∷ typed [] []
    ∷ reads_of not_spawned (accepts ∷ asks_again ∷ concludes ∷ [])

starts : Starts library nothing_known plain_names translation commits setup
starts = (refl, refl, refl, refl)

finish_completes_example :
    let t = setup_run library nothing_known plain_names translation commits setup (
      finished (running 7 8 9)
      ∷ reads_of not_spawned (asks ∷ accepts ∷ asks_again ∷ concludes ∷ [])) in
    (t.effects
      ≡ applied (strstr concludes "successfully")
        ∷ wrote (line page.password)
        ∷ wrote (line page.password)
        ∷ wrote (line default_password)
        ∷ spawned 7
        ∷ [])
    × (closes t.window
        ≡ (if strstr concludes "successfully" then suc (closes window) else closes window))
unfolding is_string_complete strstr
finish_completes_example =
    finish_completes library nothing_known plain_names translation commits setup starts 7 8 9
      not_spawned refl asks accepts asks_again concludes (refl, refl) (refl, refl) refl refl

late_edit_example :
    let t = setup_run library nothing_known plain_names translation commits setup (
      finished (running 7 8 9)
      ∷ passwd_printed 0 not_spawned (some asks)
      ∷ typed [] []
      ∷ reads_of not_spawned (accepts ∷ asks_again ∷ concludes ∷ [])) in
    (t.effects
      ≡ applied (strstr concludes "successfully")
        ∷ wrote (line [])
        ∷ wrote (line [])
        ∷ wrote (line default_password)
        ∷ spawned 7
        ∷ [])
    × (closes t.window
        ≡ (if strstr concludes "successfully" then suc (closes window) else closes window))
unfolding is_string_complete strstr
late_edit_example =
    late_edit library nothing_known plain_names translation commits setup starts 7 8 9 not_spawned
      refl asks accepts asks_again concludes (refl, refl) (refl, refl) refl refl [] []

abbrev conversation : List Happening
conversation =
    finished (running 7 8 9) ∷ reads_of not_spawned (asks ∷ accepts ∷ asks_again ∷ concludes ∷ [])

is_closed :
    1
    ≤ closes
        (setup_run library nothing_known plain_names translation commits setup conversation).window
unfolding is_string_complete strstr
is_closed =
    let closed =
      (finish_completes library nothing_known plain_names translation commits setup starts 7 8 9
        not_spawned refl asks accepts asks_again concludes (refl, refl) (refl, refl) refl refl).1 in
    omega (arith, closed)

closed-Paid_example :
    Paid
      (WasHeld setup conversation)
      (setup_run library nothing_known plain_names translation commits setup conversation).effects
closed-Paid_example =
    closed-Paid library nothing_known plain_names translation commits setup conversation refl
      (ground arith, ground arith) is_closed

closed-Asked_example :
    (before : List Happening) × (spawn : Spawn) × (after : List Happening) × (conversation
      ≡ before ++ finished spawn ∷ after)
    × Asked
        (setup_run library nothing_known plain_names translation commits setup before).chooser
        (setup_run library nothing_known plain_names translation commits setup conversation).calls
closed-Asked_example =
    closed-Asked library nothing_known plain_names translation commits setup conversation refl
      (ground arith, ground arith) (omega arith) is_closed
