-- ===== src/Window/Examples.antt =====
-- src/pt-window.c: a window with five pages, and the theorems at it.
use furios_initial_setup.Common.{
  List, [], arith, false, if◌then◌else◌, none, refl, some, true, ℕ, ◌==◌, ◌∷◌, ◌≡◌, ◌⊎◌, count, ◌≤◌,
}
use furios_initial_setup.Common.Bytes.{bytes}
use furios_initial_setup.Common.Int.{pos}
use furios_initial_setup.Passwd.Process.{running}
use furios_initial_setup.Security.Entry.{Entries}
use furios_initial_setup.Update.Provision.{Facts, Library}
use furios_initial_setup.Window.Appearance.{
  Appearance, blue, init_android_autostart, scale_at, scheme_default,
}
use furios_initial_setup.Window.Commits.{Commit, commit_language, commit_security, no_commit}
use furios_initial_setup.Window.Pages.{goto_page, index_from}
use furios_initial_setup.Window.Scaling.{
  AppearanceEvent, IsOnScale, android_set, appearance_run, due, is_failed, run-due, slider_moved,
  timer_fired,
}
use furios_initial_setup.Window.Skip.{move_to, on_skip_updates_clicked}
use furios_initial_setup.Window.Skipped.{skip_stays}
use furios_initial_setup.Window.State.{Carousel, Window, scroll_to}
use furios_initial_setup.Window.Step.{
  Input, answered, finish_clicked, looks_back, moves, window_run,
}

-- The language is chosen on the page 10, the updates are on 12, and the password is set on 13.
abbrev commits : ℕ → Commit
commits page =
    if page == 10 then commit_language else if page == 13 then commit_security else no_commit

abbrev carousel : Carousel
carousel = record { pages = 10 ∷ 11 ∷ 12 ∷ 13 ∷ 14 ∷ []; position = 20000 }

abbrev window : Window
window = record {
  main_carousel = some carousel;
  pending_commits = pos 0;
  last_position = 0;
  update_progress = none;
  update_page = some 12;
  skip_updates_banner = some true;
  password_page = none;
  updates_skipped = false;
  log = [];
}

abbrev library : Library
library = record {
  base64_decode = λ text. some text;
  escape = λ text. text;
  ed25519_verify = λ signature message key. false;
}

abbrev nothing_known : Facts
nothing_known = record {
  uname = none;
  sdk_version = none;
  build_date = none;
  build_fingerprint = none;
  furios_version = none;
}

abbrev typed : Entries
typed = record {
  password = bytes "secret";
  verify = bytes "secret";
  password_error = false;
  verify_error = false;
  ready = true;
}

abbrev inputs : List Input
inputs =
    looks_back 20000
    ∷ finish_clicked typed (running 7 8 9) []
    ∷ answered 13 false
    ∷ moves 30000
    ∷ finish_clicked typed (running 17 18 19) []
    ∷ []

skip_stays_example :
    let t = window_run library nothing_known commits (on_skip_updates_clicked window) inputs in
    (move_to 20000 t).log ≡ scroll_to 13 false ∷ t.log
unfolding index_from
skip_stays_example =
    (skip_stays library nothing_known commits window carousel 13 20000 inputs refl refl refl refl
        (tt, (tt, (tt, (tt, (tt, tt)))))).0
      (omega arith)

-- The click itself scrolls to the password page.
skip_test : (on_skip_updates_clicked window).log ≡ scroll_to 13 true ∷ []
unfolding on_skip_updates_clicked goto_page
skip_test = refl

abbrev as_started : Appearance
as_started = record {
  color_scheme = scheme_default;
  accent_color = blue;
  scaling_timers = 0;
  commands = [];
  display_scale = none;
  android_autostart = false;
  android_enable = true;
}

abbrev slider_events : List AppearanceEvent
slider_events =
    slider_moved (pos 2) true
    ∷ (slider_moved (pos 3) true
        ∷ (timer_fired (pos 3) true
            ∷ (timer_fired (pos 3) false
                ∷ (timer_fired (pos 3) false ∷ (android_set true false ∷ [])))))

run-due_example :
    let t = appearance_run (init_android_autostart as_started) slider_events in
    (due t ≡ 2) × ((t.android_autostart ≡ t.android_enable) ⊎ (1 ≤ count is_failed slider_events))
unfolding scale_at IsOnScale
run-due_example = run-due as_started slider_events (refl, (refl, (refl, (refl, (refl, (tt, tt))))))
