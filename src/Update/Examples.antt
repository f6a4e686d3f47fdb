-- ===== src/Update/Examples.antt =====
-- Runs of the update page, and its theorems at concrete inputs.
use furios_initial_setup.Common.{
  List, [], arith, false, if◌then◌else◌, none, refl, some, true, ℕ, ◌*◌, ◌+◌, ◌==◌, ◌∷◌, ◌≡◌, ◌≤◌,
  ◌⊎◌,
}
use furios_initial_setup.Common.Bytes.{Bytes, bytes, bytes_eq, repeat}
use furios_initial_setup.Update.Clock.{ntp_off_never_ends, spin}
use furios_initial_setup.Common.Int.{pos}
use furios_initial_setup.Update.Outcome.{outcome_once}
use furios_initial_setup.Update.Provision.{
  Facts, Files, Library, Response, accepted_script, append_fact, post_data,
}
use furios_initial_setup.Update.Provision.Form.{
  EscapesAmpersand, known_facts, parse-post_data, parse_form,
}
use furios_initial_setup.Update.Provision.Script.{LogIsSafe, SentSigned, run-init-LogIsSafe}
use furios_initial_setup.Update.Repairs.{fixes, run-fixes-le}
use furios_initial_setup.Update.Rounds.{
  IsChecking, Round, all_events, installs_found, rounds_check_again,
}
use furios_initial_setup.Update.State.{
  Env, Progress, begin, check_updates, chmod_script, init, new_aptkit_proxy, notify_ready,
  second_us, spawn_script, update_cache, write_script,
}
use furios_initial_setup.Update.Step.{
  Event, error_read, provision_complete, run, run_returned, signalled, step,
}
use furios_initial_setup.Update.Time.{TimedateProperties}
use furios_initial_setup.Update.Transaction.{
  Packages, Property, aptkit_check_for_updates, aptkit_transaction_signal_cb, details, exit_state,
  packages, progress, property_changed,
}
use furios_initial_setup.Update.Verdict.{nothing_found}

-- A library for the runs: base64 is left as it is, an `&` is escaped as a `+`, and a signature is right
-- if it repeats the first byte of the script.
abbrev escape_ampersand : Bytes → Bytes
escape_ampersand [] = []
escape_ampersand (b ∷ bs) = (if b == b'&' then b'+' else b) ∷ escape_ampersand bs

abbrev toy : Library
toy = record {
  base64_decode = λ text. some text;
  escape = escape_ampersand;
  ed25519_verify = λ signature script key. bytes_eq signature (repeat 64 script);
}

toy_escapes : EscapesAmpersand toy
toy_escapes [] = tt
toy_escapes (b ∷ bs) = ground (arith, toy_escapes bs)

abbrev no_facts : Facts
no_facts = record {
  uname = some (bytes "Linux a&b");
  sdk_version = none;
  build_date = some (bytes "1");
  build_fingerprint = none;
  furios_version = some (bytes "14");
}

abbrev at : ℕ → Env
at second = record { now_us = second_us * second; valid_date = true; source = second + 1 }

abbrev checking_page : Progress
unfolding init
checking_page = record init {
  aptkit_proxy = some 7;
  transaction_proxy = some 3;
  timedate_proxy = some 5;
  ready = false;
  current_transaction = check_updates;
}

checking_page-IsChecking : IsChecking 3 checking_page
unfolding init
checking_page-IsChecking = record {
  checks = refl;
  unhandled = refl;
  current = refl;
  aptkit = refl;
  waits = refl;
}

abbrev some_updates : Packages
some_updates = record { upgrades = "phosh" ∷ []; downgrades = [] }

abbrev no_updates : Packages
no_updates = record { upgrades = []; downgrades = [] }

abbrev good_response : Response
good_response = record {
  http_status = 200;
  has_headers = true;
  signature = some (repeat 64 (b'#' ∷ []));
  body = some (b'#' ∷ []);
}

good_response_accepted : accepted_script toy good_response ≡ some (b'#' ∷ [])
unfolding accepted_script bytes_eq
good_response_accepted = refl

abbrev files_ok : Files
files_ok = record { written = true; executable = true }

abbrev script_events : List (Env × Event)
script_events = (at 0, provision_complete files_ok good_response) ∷ []

-- The effects of a run with a signed answer, newest first, where aptkit is missing.
script_run :
    (run toy no_facts init script_events).log
    ≡ notify_ready ∷ spawn_script ∷ chmod_script ∷ write_script (b'#' ∷ []) ∷ new_aptkit_proxy ∷ []
unfolding run step init accepted_script bytes_eq
script_run = refl

run-init-LogIsSafe_example :
    LogIsSafe (SentSigned toy script_events) (run toy no_facts init script_events).log
run-init-LogIsSafe_example = run-init-LogIsSafe toy no_facts script_events

parse-post_data_example : parse_form (post_data toy no_facts) ≡ known_facts toy no_facts
parse-post_data_example = parse-post_data toy toy_escapes no_facts

-- The body of the request.
post_data_run : post_data toy no_facts ≡ bytes "uname=Linux a+b&build_date=1&furios_version=14"
unfolding post_data append_fact
post_data_run = refl

abbrev broken_events : List (Env × Event)
broken_events =
    (at 2, error_read (details "error-cache-broken" ""))
    ∷ (at 3, error_read (details "error-cache-broken" ""))
    ∷ []

broken_run : fixes (run toy no_facts (begin (at 1) init) broken_events) ≡ 1
unfolding run step init begin
broken_run = refl

run-fixes-le_example : fixes (run toy no_facts (begin (at 1) init) broken_events) ≤ fixes init + 1
run-fixes-le_example =
    run-fixes-le toy no_facts init (at 1) broken_events ((λ e. cc), ((λ e. cc), tt))

abbrev packages_signal : Packages → Property
packages_signal pkgs = packages pkgs (some no_updates)

-- A late answer and a signal of no interest.
abbrev in_between : List (Env × Event)
in_between =
    (at 5, run_returned 3 true) ∷ (at 6, signalled 3 (property_changed (progress (pos 40)))) ∷ []

outcome_once_example :
    let t =
      aptkit_transaction_signal_cb 3
        (property_changed (packages_signal some_updates))
        checking_page in
    let u = run toy no_facts t in_between in
    (t ≡ checking_page)
    ⊎ (aptkit_transaction_signal_cb 3 (property_changed (exit_state "exit-success")) u ≡ u)
outcome_once_example =
    outcome_once toy no_facts 3 3 (packages_signal some_updates) (exit_state "exit-success")
      checking_page in_between tt tt (tt, (tt, tt))

abbrev installing_page : Progress
installing_page = installs_found checking_page

abbrev synchronized : TimedateProperties
synchronized = record { ntp = some true; ntp_synchronized = some true }

abbrev two_rounds : List (Env × Env)
two_rounds = (at 400, at 500) ∷ (at 600, at 700) ∷ []

ntp_off_never_ends_example : (run toy no_facts checking_page (spin two_rounds)).ready ≡ false
unfolding init
ntp_off_never_ends_example =
    (ntp_off_never_ends toy no_facts two_rounds checking_page 5 refl refl refl).0

abbrev one_round : Round
one_round = record {
  env = at 9;
  install_path = "/i";
  check_path = "/c";
  install_proxy = 8;
  check_proxy = 9;
  pkgs = some_updates;
  deps = no_updates;
}

rounds_check_again_example :
    IsChecking 9 (run toy no_facts checking_page (all_events 3 (one_round ∷ [])))
unfolding aptkit_check_for_updates
rounds_check_again_example =
    (rounds_check_again toy no_facts 3 (one_round ∷ []) checking_page checking_page-IsChecking
      (refl, tt)).0

nothing_found_example :
    (step toy no_facts
      (at 9)
      (signalled 3 (property_changed (packages no_updates (some no_updates))))
      checking_page).safe_mode
    ≡ false
unfolding aptkit_check_for_updates init
nothing_found_example =
    ((nothing_found toy no_facts (at 9) 3 no_updates no_updates checking_page
        checking_page-IsChecking refl).0
      refl).2

abbrev refreshing_page : Progress
refreshing_page = record checking_page {
  current_transaction = update_cache;
  tried_safe_mode = true;
}
