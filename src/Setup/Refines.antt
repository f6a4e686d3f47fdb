-- ===== src/Setup/Refines.antt =====
-- src/pt-window.c, src/pt-security-settings.c, src/run-passwd.c: the program seen from its window.
use furios_initial_setup.Common.{
  Bool-cases, List, Option-cases, String, [], ap, if◌then◌else◌, inl, inr, none, refl, some, sym, ℕ,
  ◌++◌, ◌∙◌, ◌∷◌, ◌≡◌, ◌⊎◌,
}
use furios_initial_setup.Common.Bytes.{Bytes}
use furios_initial_setup.Language.Rows.{Names}
use furios_initial_setup.Passwd.Process.{Spawn}
use furios_initial_setup.Passwd.State.{Effect, applied}
use furios_initial_setup.Passwd.Watch.{child_watch_cb, io_watch_stdout}
use furios_initial_setup.Security.Apply.{Handler, notify}
use furios_initial_setup.Setup.State.{Setup}
use furios_initial_setup.Setup.Step.{
  Happening, call_back, chosen, commit_language_page, commit_page, commit_pages,
  commit_security_page, commit_all, finished, is_composed, passwd_ended, passwd_printed, setup_step,
  type_password, typed, watched, windowed,
}
use furios_initial_setup.Update.Provision.{Facts, Library}
use furios_initial_setup.Window.Commits.{
  Commit, answer_all, commit_each, commit_language, commit_security, emit_apply, no_commit,
  pt_commit_all, pt_commit_security_settings, pt_on_security_settings_applied,
}
use furios_initial_setup.Window.State.{Window, pages_of}
use furios_initial_setup.Window.Step.{Input, answered, finish_clicked, window_run, window_step}

-- What the window is told of by effects, which have the newest first.
unfoldable pub answers : ℕ → List Effect → List Input
answers page [] = []
answers page (applied ok ∷ log) = answers page log ++ (answered page ok ∷ [])
answers page (_ ∷ log) = answers page log

-- The effects of a callback of a running change.
unfoldable pub told : (Handler → ℕ) → (Handler → Handler) → ℕ → Setup → List Input
told watch f n s = elim (watched watch n s.changes) [
  | none ↦ []
  | some change ↦
      answers change.page (f (record change.handler { buffer = s.buffer; log = [] })).log
]

-- The inputs of the window in a step of the program.
unfoldable pub inputs_of : Happening → Setup → List Input
inputs_of (typed password verify) s = []
inputs_of (chosen e) s = []
inputs_of (finished spawn) s = finish_clicked s.entries spawn s.buffer ∷ []
inputs_of (passwd_printed n spawn chunk) s =
    told (λ h. h.backend_stdout_watch_id) (io_watch_stdout (notify s.entries.password spawn) chunk)
      n s
inputs_of (passwd_ended n spawn exit) s =
    told (λ h. h.backend_child_watch_id) (child_watch_cb (notify s.entries.password spawn) exit) n s
inputs_of (windowed x) s = if is_composed x then [] else x ∷ []

pub commit-cases : (c : Commit) → (c ≡ no_commit) ⊎ ((c ≡ commit_language) ⊎ (c ≡ commit_security))
commit-cases no_commit = inl refl
commit-cases commit_language = inr (inl refl)
commit-cases commit_security = inr (inr refl)

module _ (lib : Library) (facts : Facts) (names : Names) (gettext : Bytes → String → String)
    (commits : ℕ → Commit) where
  window_run-append :
      (w : Window) (xs ys : List Input)
      → window_run lib facts commits w (xs ++ ys)
        ≡ window_run lib facts commits (window_run lib facts commits w xs) ys
  unfolding window_run
  window_run-append w [] ys = refl
  window_run-append w (x ∷ xs) ys = window_run-append (window_step lib facts commits x w) xs ys

  answers_run :
      (page : ℕ) (log : List Effect) (w : Window)
      → answer_all page log w ≡ window_run lib facts commits w (answers page log)
  unfolding answer_all answers window_run window_step
  answers_run page [] w = refl
  answers_run page (applied ok ∷ log) w =
      ap (pt_on_security_settings_applied page ok) (answers_run page log w)
      ∙ sym (window_run-append w (answers page log) (answered page ok ∷ []))
  answers_run page (e ∷ log) w = answers_run page log w

  told_run :
      (watch : Handler → ℕ) (f : Handler → Handler) (n : ℕ) (s : Setup)
      → (call_back watch f n s).window ≡ window_run lib facts commits s.window (told watch f n s)
  unfolding call_back told window_run
  told_run watch f n s = elim (Option-cases (watched watch n s.changes)) [
    | inl e ↦ rw (e, call_back, told) refl
    | inr (change, e) ↦ rw (e, call_back, told) (answers_run change.page _ s.window)
  ]

  pub commit_pages-window :
      (spawn : Spawn) (pages : List ℕ) (s : Setup)
      → (commit_pages commits spawn pages s).window
        ≡ commit_each s.entries spawn s.buffer commits pages s.window
  unfolding commit_pages commit_each commit_page emit_apply commit_language_page
      commit_security_page pt_commit_security_settings
  commit_pages-window spawn [] s = refl
  commit_pages-window spawn (page ∷ pages) s = elim (commit-cases (commits page)) [
    | inl e ↦ rw (e, commit_pages, commit_each) (commit_pages-window spawn pages s)
    | inr (inl e) ↦
        rw (e, commit_pages, commit_each) (commit_pages-window spawn pages (commit_language_page s))
    | inr (inr e) ↦
        rw (e, commit_pages, commit_each)
          (commit_pages-window spawn pages (commit_security_page spawn page s))
  ]

  pub step_run :
      (x : Happening) (s : Setup)
      → (setup_step lib facts names gettext commits x s).window
        ≡ window_run lib facts commits s.window (inputs_of x s)
  unfolding setup_step inputs_of window_run commit_all window_step pt_commit_all type_password
  step_run (typed password verify) s = refl
  step_run (chosen e) s = refl
  step_run (finished spawn) s = commit_pages-window spawn (pages_of s.window.main_carousel) _
  step_run (passwd_printed n spawn chunk) s = told_run _ _ n s
  step_run (passwd_ended n spawn exit) s = told_run _ _ n s
  step_run (windowed x) s = elim (Bool-cases (is_composed x)) [
    | inl e ↦ rw e refl
    | inr e ↦ rw e refl
  ]
