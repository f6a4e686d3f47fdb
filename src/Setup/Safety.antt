-- ===== src/Setup/Safety.antt =====
-- src/pt-window.c, src/pt-security-settings.c, src/run-passwd.c: when the program closes its window.
use furios_initial_setup.Common.{
  All, All-get_elem?, Bool-cases, List, Option-cases, String, [], arith, false, inl, inr, none,
  refl, some, ℕ, ◌++◌, ◌==◌, ◌∷◌, ◌≡◌, ◌≤◌, ◌⊎◌,
}
use furios_initial_setup.Common.Bytes.{Bytes}
use furios_initial_setup.Language.Rows.{Names}
use furios_initial_setup.Passwd.Process.{Spawn}
use furios_initial_setup.Passwd.State.{Effect, applied}
use furios_initial_setup.Passwd.Watch.{child_watch_cb, io_watch_stdout}
use furios_initial_setup.Security.Apply.{Handler, notify}
use furios_initial_setup.Setup.Changes.{
  AllSound, AllSound-append, AllSound-update_nth, Paid-append, commit_pages-AllSound,
  commit_pages-Paid, watched_lem,
}
use furios_initial_setup.Setup.Ends.{ended-Outcome}
use furios_initial_setup.Setup.Held.{
  Types, WasHeld, All-Types, commit_pages-entries, update_password_match-password,
}
use furios_initial_setup.Setup.Reads.{printed-Outcome}
use furios_initial_setup.Setup.Refines.{inputs_of, step_run}
use furios_initial_setup.Setup.Sent.{Outcome, Paid, Sound, Sound-opened, Unsuccessful, opened}
use furios_initial_setup.Setup.State.{Setup}
use furios_initial_setup.Setup.Step.{
  Happening, call_back, chosen, commit_all, finished, is_composed, passwd_ended, passwd_printed,
  setup_run, setup_step, type_password, typed, unlogged, watched, windowed,
}
use furios_initial_setup.Update.Provision.{Facts, Library}
use furios_initial_setup.Window.Commits.{Commit, answer_all, pt_on_security_settings_applied}
use furios_initial_setup.Window.Exit.{closes}
use furios_initial_setup.Window.Safety.{IsOpen, NotAnswered, run-IsOpen}
use furios_initial_setup.Window.State.{Window, pages_of}
use furios_initial_setup.Window.Step.{
  Input, answered, finish_clicked, flips, looks_back, moves, skip_clicked, told_ready,
  update_begins, updates, window_run, window_step,
}

NotAnswered-is_composed : (x : Input) → is_composed x ≡ false → NotAnswered x
NotAnswered-is_composed (answered page ok) h = ground (arith, h)
NotAnswered-is_composed (finish_clicked e p b) h = tt
NotAnswered-is_composed (flips _) h = tt
NotAnswered-is_composed (moves _) h = tt
NotAnswered-is_composed (looks_back _) h = tt
NotAnswered-is_composed (update_begins _ _ _ _) h = tt
NotAnswered-is_composed (updates _ _) h = tt
NotAnswered-is_composed (told_ready _) h = tt
NotAnswered-is_composed skip_clicked h = tt

-- An input that the program does not make itself leaves the window open.
pub windowed-IsOpen :
    (lib : Library) (facts : Facts) (commits : ℕ → Commit) (x : Input) (w : Window)
    → is_composed x ≡ false
    → IsOpen lib facts commits w
    → IsOpen lib facts commits (window_step lib facts commits x w)
unfolding window_run
windowed-IsOpen lib facts commits x w e h =
    run-IsOpen lib facts commits w (x ∷ []) (NotAnswered-is_composed x e, tt) h

module _ (lib : Library) (facts : Facts) (names : Names) (gettext : Bytes → String → String)
    (commits : ℕ → Commit) (P : Bytes → Type 0) where
  -- Each handler has sent what its state says, the window is open unless the password was set, and the
  -- password at hand is one with `P`.
  abbrev IsGuarded : Setup → Type 0
  IsGuarded s =
      AllSound P s.effects s.changes
      × (IsOpen lib facts commits s.window ⊎ Paid P s.effects)
      × P s.entries.password

  -- What the page answers without a success leaves the window open.
  answer_all-IsOpen :
      (page : ℕ) (log : List Effect) (w : Window)
      → All Unsuccessful log
      → IsOpen lib facts commits w
      → IsOpen lib facts commits (answer_all page log w)
  unfolding answer_all pt_on_security_settings_applied
  answer_all-IsOpen page [] w u h = h
  answer_all-IsOpen page (applied ok ∷ log) w (u, us) h = rw u (answer_all-IsOpen page log w us h)
  answer_all-IsOpen page (e ∷ log) w (u, us) h = answer_all-IsOpen page log w us h

  absorbed :
      (page : ℕ) (newer log : List Effect) (w : Window)
      → All Unsuccessful newer ⊎ Paid P (newer ++ log)
      → IsOpen lib facts commits w ⊎ Paid P log
      → IsOpen lib facts commits (answer_all page newer w) ⊎ Paid P (newer ++ log)
  absorbed page newer log w (inl u) (inl h) = inl (answer_all-IsOpen page newer w u h)
  absorbed page newer log w (inr p) h = inr p
  absorbed page newer log w (inl u) (inr p) = inr (Paid-append P newer log p)

  call_back-IsGuarded :
      (watch : Handler → ℕ) (f : Handler → Handler) (n : ℕ) (s : Setup)
      → ((h : Handler)
          → (watch h == 0) ≡ false
          → Sound P s.effects h
          → Outcome P s.effects (f (opened s.buffer h)))
      → IsGuarded s
      → IsGuarded (call_back watch f n s)
  unfolding call_back
  call_back-IsGuarded watch f n s good (sound, open_or_paid, held) =
      elim (Option-cases (watched watch n s.changes)) [
        | inl e ↦ rw (e, call_back) (sound, open_or_paid, held)
        | inr (change, e) ↦
            let (is_change, live) = watched_lem watch n s.changes change e in
            let h : Handler = f (opened s.buffer change.handler) in
            let (kept, fair) = good change.handler live (
              All-get_elem? (λ c. Sound P s.effects c.handler) s.changes n change sound
                is_change) in
            rw (e, call_back)
              (
                AllSound-update_nth P (h.log ++ s.effects) n
                    (record change { handler = unlogged h }) s.changes kept
                    (AllSound-append P h.log s.effects s.changes sound),
                absorbed change.page h.log s.effects s.window fair open_or_paid,
                held,
              )
      ]

  -- A step that does not tell the window of a success leaves it open.
  told-IsOpen :
      (x : Happening) (s : Setup)
      → All NotAnswered (inputs_of x s)
      → IsOpen lib facts commits s.window
      → IsOpen lib facts commits (setup_step lib facts names gettext commits x s).window
  told-IsOpen x s u h =
      rw (step_run lib facts names gettext commits x s)
        (run-IsOpen lib facts commits s.window (inputs_of x s) u h)

  finished-guarded :
      (spawn : Spawn) (s : Setup)
      → IsOpen lib facts commits s.window ⊎ Paid P s.effects
      → let t = setup_step lib facts names gettext commits (finished spawn) s in
        IsOpen lib facts commits t.window ⊎ Paid P t.effects
  unfolding setup_step commit_all inputs_of
  finished-guarded spawn s (inl h) = inl (told-IsOpen (finished spawn) s (tt, tt) h)
  finished-guarded spawn s (inr p) =
      inr (commit_pages-Paid P commits spawn (pages_of s.window.main_carousel) _ p)

  windowed-guarded :
      (x : Input) (s : Setup)
      → is_composed x ≡ false
      → IsOpen lib facts commits s.window ⊎ Paid P s.effects
      → IsOpen lib facts commits (window_step lib facts commits x s.window) ⊎ Paid P s.effects
  windowed-guarded x s e (inl h) = inl (windowed-IsOpen lib facts commits x s.window e h)
  windowed-guarded x s e (inr p) = inr p

  step-IsGuarded :
      (x : Happening) (s : Setup)
      → Types P x
      → IsGuarded s
      → IsGuarded (setup_step lib facts names gettext commits x s)
  unfolding setup_step type_password commit_all io_watch_stdout
  step-IsGuarded (typed password verify) s allowed (sound, open_or_paid, held) = (
    sound,
    open_or_paid,
    rw (update_password_match-password (record s.entries { password = password; verify = verify }))
        allowed,
  )
  step-IsGuarded (chosen e) s allowed h = h
  step-IsGuarded (finished spawn) s allowed (sound, open_or_paid, held) = (
    commit_pages-AllSound P commits spawn (pages_of s.window.main_carousel) _ sound,
    finished-guarded spawn s open_or_paid,
    rw (commit_pages-entries commits spawn (pages_of s.window.main_carousel) _) held,
  )
  step-IsGuarded (passwd_printed n spawn none) s allowed h =
      call_back-IsGuarded (λ t. t.backend_stdout_watch_id)
        (io_watch_stdout (notify s.entries.password spawn) none) n s
        (λ t live sound. (Sound-opened P s.buffer s.effects t sound, inl tt)) h
  step-IsGuarded (passwd_printed n spawn (some chunk)) s allowed h =
      call_back-IsGuarded (λ t. t.backend_stdout_watch_id)
        (io_watch_stdout (notify s.entries.password spawn) (some chunk)) n s
        (λ t live sound.
          printed-Outcome P s.entries.password h.2 spawn s.effects s.buffer t chunk live sound)
        h
  step-IsGuarded (passwd_ended n spawn exit) s allowed h =
      call_back-IsGuarded (λ t. t.backend_child_watch_id)
        (child_watch_cb (notify s.entries.password spawn) exit) n s
        (λ t live sound.
          ended-Outcome P s.effects s.entries.password spawn s.buffer t exit live sound)
        h
  step-IsGuarded (windowed x) s allowed h = elim (Bool-cases (is_composed x)) [
    | inl e ↦ rw e h
    | inr e ↦ rw e (h.0, windowed-guarded x s e h.1, h.2)
  ]

  run-IsGuarded :
      (s : Setup) (xs : List Happening)
      → All (Types P) xs
      → IsGuarded s
      → IsGuarded (setup_run lib facts names gettext commits s xs)
  unfolding setup_run
  run-IsGuarded s [] allowed h = h
  run-IsGuarded s (x ∷ xs) (a, allowed) h =
      run-IsGuarded (setup_step lib facts names gettext commits x s) xs allowed
        (step-IsGuarded x s a h)

module _ (lib : Library) (facts : Facts) (names : Names) (gettext : Bytes → String → String)
    (commits : ℕ → Commit) where
  -- Of a window that is open, has a page that commits the password and no change that runs: whatever
  -- happens, in whatever order, if the window was then closed, then to `passwd` were written the default
  -- password and after it twice one password, which the password entry held at the start or was typed
  -- into it later, and after that a change was reported to have worked.
  pub closed-Paid :
      (s : Setup) (xs : List Happening)
      → s.changes ≡ []
      → IsOpen lib facts commits s.window
      → let t = setup_run lib facts names gettext commits s xs in
        1 ≤ closes t.window → Paid (WasHeld s xs) t.effects
  closed-Paid s xs none_runs h closed =
      let ends =
        run-IsGuarded lib facts names gettext commits (WasHeld s xs) s xs
          (All-Types (WasHeld s xs) xs (λ p. inr)) (rw none_runs tt, inl h, inl refl) in
      elim ends.1 [ inl still_open ↦ ground (arith, still_open, closed) | inr paid ↦ paid ]
