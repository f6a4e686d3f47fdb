-- ===== src/Setup/Calls.antt =====
-- src/pt-window.c, src/cc-language-chooser.c: the calls by which a language is applied.
use furios_initial_setup.Common.{
  Bool-cases, List, String, [], ap, arith, inl, inr, refl, sym, ℕ, ◌++◌, ◌∙◌, ◌∷◌, ◌≡◌, ◌≤◌,
}
use furios_initial_setup.Common.Bytes.{Bytes}
use furios_initial_setup.Language.Chooser
use furios_initial_setup.Language.Chooser.{Chooser, cc_language_chooser_apply}
use furios_initial_setup.Language.Rows.{Names}
use furios_initial_setup.Passwd.Process.{Spawn}
use furios_initial_setup.Passwd.Watch.{child_watch_cb, io_watch_stdout}
use furios_initial_setup.Setup.Refines.{commit-cases}
use furios_initial_setup.Security.Apply.{Handler, notify}
use furios_initial_setup.Setup.State.{Setup}
use furios_initial_setup.Setup.Step.{
  Happening, call_back, chosen, commit_all, commit_language_page, commit_page, commit_pages,
  commit_security_page, finished, is_composed, passwd_ended, passwd_printed, setup_run, setup_step,
  type_password, typed, windowed,
}
use furios_initial_setup.Update.Provision.{Facts, Library}
use furios_initial_setup.Window.Commits.{Commit, commit_language, commit_security, no_commit}
use furios_initial_setup.Window.Exit.{languages}
use furios_initial_setup.Window.State.{pages_of}
use mathlib.Core.List.{append_assoc, append-nil}

-- Among the calls are those that the chooser makes when its language is applied, one after the other.
abbrev pub Asked : Chooser → List Chooser.Call → Type 0
Asked c calls =
    (before : List Chooser.Call) × (after : List Chooser.Call) × (calls
      ≡ before ++ (cc_language_chooser_apply c ++ after))

-- No call is taken back.
abbrev pub Grows : Setup → Setup → Type 0
Grows s t = (more : List Chooser.Call) × (t.calls ≡ s.calls ++ more)

Grows-refl : (s : Setup) → Grows s s
Grows-refl s = ([], sym (append-nil s.calls))

Grows-trans : (s t u : Setup) → Grows s t → Grows t u → Grows s u
Grows-trans s t u (m, e) (n, g) = (m ++ n, g ∙ ap (λ x. x ++ n) e ∙ append_assoc s.calls m n)

pub Asked-Grows : (c : Chooser) (s t : Setup) → Asked c s.calls → Grows s t → Asked c t.calls
Asked-Grows c s t (before, after, e) (more, g) =
    (before, after ++ more, g ∙ ap (λ x. x ++ more) e ∙ simp append_assoc)

-- What one commit asks for.
asked : Commit → Chooser → List Chooser.Call
asked no_commit c = []
asked commit_language c = cc_language_chooser_apply c
asked commit_security c = []

module _ (commits : ℕ → Commit) where
  commit_page-calls :
      (c : Commit) (spawn : Spawn) (page : ℕ) (s : Setup)
      → let t = commit_page commits c spawn page s in
        (t.calls ≡ s.calls ++ asked c s.chooser) × (t.chooser ≡ s.chooser)
  unfolding commit_page commit_language_page commit_security_page asked
  commit_page-calls no_commit spawn page s = (sym (append-nil s.calls), refl)
  commit_page-calls commit_language spawn page s = (refl, refl)
  commit_page-calls commit_security spawn page s = (sym (append-nil s.calls), refl)

  commit_page-Grows :
      (c : Commit) (spawn : Spawn) (page : ℕ) (s : Setup)
      → Grows s (commit_page commits c spawn page s)
  commit_page-Grows c spawn page s = (asked c s.chooser, (commit_page-calls c spawn page s).0)

  commit_pages-Grows :
      (spawn : Spawn) (pages : List ℕ) (s : Setup) → Grows s (commit_pages commits spawn pages s)
  unfolding commit_pages
  commit_pages-Grows spawn [] s = Grows-refl s
  commit_pages-Grows spawn (page ∷ pages) s =
      let next = commit_page commits (commits page) spawn page s in
      Grows-trans s next (commit_pages commits spawn pages next)
        (commit_page-Grows (commits page) spawn page s) (commit_pages-Grows spawn pages next)

  -- With a page that commits the language, the commits of the pages ask for it.
  pub commit_pages-Asked :
      (spawn : Spawn) (pages : List ℕ) (s : Setup)
      → 1 ≤ languages commits pages
      → Asked s.chooser (commit_pages commits spawn pages s).calls
  unfolding commit_pages asked
  commit_pages-Asked spawn [] s h = absurd (omega arith)
  commit_pages-Asked spawn (page ∷ pages) s h =
      let next = commit_page commits (commits page) spawn page s in
      let same : next.chooser ≡ s.chooser = (commit_page-calls (commits page) spawn page s).1 in
      let later : 1 ≤ languages commits pages
          → Asked s.chooser (commit_pages commits spawn pages next).calls =
        λ k. rw same at (commit_pages-Asked spawn pages next k) in
      elim (commit-cases (commits page)) [
        | inl e ↦ later (ground (arith, h, e))
        | inr (inl e) ↦
            Asked-Grows s.chooser next (commit_pages commits spawn pages next)
              (
                s.calls,
                [],
                (commit_page-calls (commits page) spawn page s).0
                    ∙ ap (λ c. s.calls ++ asked c s.chooser) e
                    ∙ ap (λ x. s.calls ++ x)
                        (sym (append-nil (cc_language_chooser_apply s.chooser))),
              )
              (commit_pages-Grows spawn pages next)
        | inr (inr e) ↦ later (ground (arith, h, e))
      ]

module _ (lib : Library) (facts : Facts) (names : Names) (gettext : Bytes → String → String)
    (commits : ℕ → Commit) where
  call_back-calls :
      (watch : Handler → ℕ) (f : Handler → Handler) (n : ℕ) (s : Setup)
      → (call_back watch f n s).calls ≡ s.calls
  unfolding call_back
  call_back-calls watch f n s = ground arith

  call_back-Grows :
      (watch : Handler → ℕ) (f : Handler → Handler) (n : ℕ) (s : Setup)
      → Grows s (call_back watch f n s)
  call_back-Grows watch f n s = ([], call_back-calls watch f n s ∙ sym (append-nil s.calls))

  step-Grows :
      (x : Happening) (s : Setup) → Grows s (setup_step lib facts names gettext commits x s)
  unfolding setup_step commit_all type_password
  step-Grows (typed password verify) s = Grows-refl s
  step-Grows (chosen e) s = Grows-refl s
  step-Grows (finished spawn) s =
      commit_pages-Grows commits spawn (pages_of s.window.main_carousel) _
  step-Grows (passwd_printed n spawn chunk) s =
      call_back-Grows (λ h. h.backend_stdout_watch_id)
        (io_watch_stdout (notify s.entries.password spawn) chunk) n s
  step-Grows (passwd_ended n spawn exit) s =
      call_back-Grows (λ h. h.backend_child_watch_id)
        (child_watch_cb (notify s.entries.password spawn) exit) n s
  step-Grows (windowed x) s = elim (Bool-cases (is_composed x)) [
    | inl e ↦ rw e (Grows-refl s)
    | inr e ↦ rw e (Grows-refl s)
  ]

  pub run-Grows :
      (s : Setup) (xs : List Happening) → Grows s (setup_run lib facts names gettext commits s xs)
  unfolding setup_run
  run-Grows s [] = Grows-refl s
  run-Grows s (x ∷ xs) =
      let next = setup_step lib facts names gettext commits x s in
      Grows-trans s next (setup_run lib facts names gettext commits next xs) (step-Grows x s)
        (run-Grows next xs)
