-- ===== src/Setup/Applied.antt =====
-- src/pt-window.c, src/cc-language-chooser.c: the language, by the time at which the window is closed.
use furios_initial_setup.Common.{
  Bool-cases, List, String, [], ap, arith, false, inl, inr, refl, ℕ, ◌++◌, ◌∷◌, ◌≡◌, ◌≢◌, ◌≤◌, ◌⊎◌,
}
use furios_initial_setup.Common.Bytes.{Bytes}
use furios_initial_setup.Language.Rows.{Names}
use furios_initial_setup.Passwd.Process.{Spawn}
use furios_initial_setup.Setup.Safety.{windowed-IsOpen}
use furios_initial_setup.Setup.State.{Setup}
use furios_initial_setup.Setup.Step.{
  Happening, call_back, chosen, commit_all, finished, is_composed, passwd_ended, passwd_printed,
  setup_run, setup_step, type_password, typed, watched, windowed,
}
use furios_initial_setup.Update.Provision.{Facts, Library}
use furios_initial_setup.Window.Commits.{Commit}
use furios_initial_setup.Window.Exit.{closes, languages}
use furios_initial_setup.Window.Safety.{IsOpen}
use furios_initial_setup.Window.State.{Window, pages_of}
use furios_initial_setup.Window.Step.{
  Input, answered, finish_clicked, flips, looks_back, moves, skip_clicked, told_ready,
  update_begins, updates, window_step,
}
use furios_initial_setup.Setup.Calls.{Asked, Asked-Grows, commit_pages-Asked, run-Grows}

finished-cases :
    (x : Happening)
    → ((spawn : Spawn) × (x ≡ finished spawn)) ⊎ ((spawn : Spawn) → x ≢ finished spawn)
finished-cases (finished spawn) = inl (spawn, refl)
finished-cases (typed password verify) = inr (λ spawn e. cc)
finished-cases (chosen c) = inr (λ spawn e. cc)
finished-cases (passwd_printed n again chunk) = inr (λ spawn e. cc)
finished-cases (passwd_ended n again exit) = inr (λ spawn e. cc)
finished-cases (windowed x) = inr (λ spawn e. cc)

module _ (lib : Library) (facts : Facts) (names : Names) (gettext : Bytes → String → String)
    (commits : ℕ → Commit) where
  -- Nothing was finished yet: no change runs, the window is open, and some page commits the language.
  abbrev IsIdle : Setup → Type 0
  IsIdle s =
      (s.changes ≡ [])
      × IsOpen lib facts commits s.window
      × (1 ≤ languages commits (pages_of s.window.main_carousel))

  window_step-languages :
      (x : Input) (w : Window)
      → is_composed x ≡ false
      → languages commits (pages_of (window_step lib facts commits x w).main_carousel)
        ≡ languages commits (pages_of w.main_carousel)
  unfolding window_step
  window_step-languages (flips offset) w n = ground arith
  window_step-languages (moves position) w n = ground arith
  window_step-languages (looks_back position) w n = ground arith
  window_step-languages (update_begins e page ancestors shown) w n = ground arith
  window_step-languages (updates e v) w n = ground arith
  window_step-languages (told_ready ready) w n = ground arith
  window_step-languages skip_clicked w n = ground arith
  window_step-languages (finish_clicked entries spawn buffer) w n = cc
  window_step-languages (answered page ok) w n = cc

  step-IsIdle :
      (x : Happening) (s : Setup)
      → ((spawn : Spawn) → x ≢ finished spawn)
      → IsIdle s
      → IsIdle (setup_step lib facts names gettext commits x s)
  unfolding setup_step type_password call_back watched
  step-IsIdle (typed password verify) s n h = h
  step-IsIdle (chosen e) s n h = h
  step-IsIdle (finished spawn) s n h = absurd (n spawn refl)
  step-IsIdle (passwd_printed k spawn chunk) s n h = rw (h.0, call_back, watched) h
  step-IsIdle (passwd_ended k spawn exit) s n h = rw (h.0, call_back, watched) h
  step-IsIdle (windowed x) s n h = elim (Bool-cases (is_composed x)) [
    | inl e ↦ rw e h
    | inr e ↦ rw e (
      h.0,
      windowed-IsOpen lib facts commits x s.window e h.1,
      rw (window_step-languages x s.window e) h.2,
    )
  ]

  -- The language is asked for at the button Finish, and that is not taken back.
  finished-Asked :
      (spawn : Spawn) (s : Setup) (xs : List Happening)
      → 1 ≤ languages commits (pages_of s.window.main_carousel)
      → Asked s.chooser (setup_run lib facts names gettext commits s (finished spawn ∷ xs)).calls
  unfolding setup_run setup_step commit_all
  finished-Asked spawn s xs h =
      let next = setup_step lib facts names gettext commits (finished spawn) s in
      Asked-Grows s.chooser next (setup_run lib facts names gettext commits next xs)
        (commit_pages-Asked commits spawn (pages_of s.window.main_carousel) _ h)
        (run-Grows lib facts names gettext commits next xs)

  -- The first press of the button Finish, after which the language was asked for.
  abbrev Pressed : Setup → List Happening → Type 0
  Pressed s xs =
      (before : List Happening) × (spawn : Spawn) × (after : List Happening) × (xs
        ≡ before ++ finished spawn ∷ after)
      × Asked (setup_run lib facts names gettext commits s before).chooser
          (setup_run lib facts names gettext commits s xs).calls

  idle-Pressed :
      (s : Setup) (xs : List Happening)
      → IsIdle s
      → 1 ≤ closes (setup_run lib facts names gettext commits s xs).window
      → Pressed s xs
  unfolding setup_run
  idle-Pressed s [] h closed = absurd (omega (arith, h.1.1))
  idle-Pressed s (x ∷ xs) h closed = elim (finished-cases x) [
    | inl (spawn, e) ↦ rw e ([], spawn, xs, refl, finished-Asked spawn s xs h.2)
    | inr n ↦
        let next = setup_step lib facts names gettext commits x s in
        let (before, spawn, after, e, k) = idle-Pressed next xs (step-IsIdle x s n h) closed in
        (x ∷ before, spawn, after, ap (λ ys. x ∷ ys) e, k)
  ]

  -- Of a window that is open and has pages that commit the language and the password, with no change that
  -- runs: whatever happens, in whatever order, if the window was then closed, the button Finish was
  -- pressed, and the calls by which the chooser, as it was then, applies its language were made.
  pub closed-Asked :
      (s : Setup) (xs : List Happening)
      → s.changes ≡ []
      → IsOpen lib facts commits s.window
      → 1 ≤ languages commits (pages_of s.window.main_carousel)
      → 1 ≤ closes (setup_run lib facts names gettext commits s xs).window
      → (before : List Happening) × (spawn : Spawn) × (after : List Happening) × (xs
          ≡ before ++ finished spawn ∷ after)
        × Asked
            (setup_run lib facts names gettext commits s before).chooser
            (setup_run lib facts names gettext commits s xs).calls
  closed-Asked s xs none_runs shown has closed = idle-Pressed s xs (none_runs, shown, has) closed
