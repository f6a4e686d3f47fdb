-- ===== src/Setup/Conversation.antt =====
-- src/pt-window.c, src/pt-security-settings.c, src/run-passwd.c: the prompts of `passwd` and what the program
-- answers, read by read.
use furios_initial_setup.Common.{
  List, String, [], ap, false, none, refl, some, true, ℕ, ◌++◌, ◌==◌, ◌∙◌, ◌∷◌, ◌≡◌,
}
use furios_initial_setup.Common.Bytes.{Bytes, strstr}
use furios_initial_setup.Language.Rows.{Names}
use furios_initial_setup.Passwd.Process.{Spawn}
use furios_initial_setup.Passwd.State.{Effect, applied, auth, idle, wrote}
use furios_initial_setup.Passwd.Watch.{io_watch_stdout}
use furios_initial_setup.Security.Apply.{Handler, default_password, notify}
use furios_initial_setup.Security.Entry.{Entries}
use furios_initial_setup.Security.Protocol.{
  Accepts, AsksAgain, AsksCurrent, Concludes, course, line, read_accepted, read_again, read_current,
  read_verdict,
}
use furios_initial_setup.Setup.Sent.{opened}
use furios_initial_setup.Setup.State.{Setup}
use furios_initial_setup.Setup.Step.{
  Happening, call_back, passwd_printed, setup_run, setup_step, unlogged, update_nth, watched,
}
use furios_initial_setup.Update.Provision.{Facts, Library}
use furios_initial_setup.Window.Commits.{Commit, answer_all}
use furios_initial_setup.Window.State.{Window}

-- Entries with a password. The callbacks read nothing else of the entries.
abbrev entries_with : Bytes → Entries
entries_with password = record {
  password = password;
  verify = password;
  password_error = false;
  verify_error = false;
  ready = true;
}

-- The handler before the first prompt, and after the answer to it.
abbrev pub unprompted : ℕ → ℕ → ℕ → Spawn → Bytes → Handler
unprompted pid w c again p =
    course (entries_with p) pid w c refl again idle (line default_password ∷ []) [] none none false

abbrev pub prompted : ℕ → ℕ → ℕ → Spawn → Bytes → Handler
prompted pid w c again p = course (entries_with p) pid w c refl again auth [] [] none none false

abbrev pub reads_of : Spawn → List Bytes → List Happening
reads_of again [] = []
reads_of again (o ∷ os) = passwd_printed 0 again (some o) ∷ reads_of again os

module _ (lib : Library) (facts : Facts) (names : Names) (gettext : Bytes → String → String)
    (commits : ℕ → Commit) where
  -- The program with one change that runs, which has the handler `h`.
  abbrev Runs : ℕ → Handler → Setup → Type 0
  Runs page h t = (t.changes ≡ record { page = page; handler = h } ∷ []) × (t.buffer ≡ [])

  -- What a read of the only change does.
  read_step :
      (page : ℕ) (h h' : Handler) (again : Spawn) (o : Bytes) (t : Setup)
      → Runs page h t
      → (h.backend_stdout_watch_id == 0) ≡ false
      → io_watch_stdout (notify t.entries.password again) (some o) (opened [] h) ≡ h'
      → setup_step lib facts names gettext commits (passwd_printed 0 again (some o)) t ≡ record t {
        window = answer_all page h'.log t.window;
        changes = record { page = page; handler = unlogged h' } ∷ [];
        buffer = h'.buffer;
        effects = h'.log ++ t.effects;
      }
  unfolding setup_step call_back watched update_nth
  read_step page h h' again o t (runs, empty) live e =
      rw (runs, call_back, watched, live, call_back, watched, empty, e, runs) refl

  -- The program in the course of its only change: the text of the password entry, the handler, the
  -- window and the effects.
  abbrev pub Stage : ℕ → Bytes → Handler → Window → List Effect → Setup → Type 0
  Stage page password h w log t =
      Runs page h t × (t.entries.password ≡ password) × (t.window ≡ w) × (t.effects ≡ log)

  read-Stage :
      (page : ℕ) (password : Bytes) (h h' : Handler) (w : Window) (log : List Effect)
      (again : Spawn) (o : Bytes) (t : Setup)
      → Stage page password h w log t
      → (h.backend_stdout_watch_id == 0) ≡ false
      → io_watch_stdout (notify password again) (some o) (opened [] h) ≡ h'
      → h'.buffer ≡ []
      → Stage page password
          (unlogged h')
          (answer_all page h'.log w)
          (h'.log ++ log)
          (setup_step lib facts names gettext commits (passwd_printed 0 again (some o)) t)
  read-Stage page password h h' w log again o t (runs, text, shown, sent) live e empty =
      rw
        (read_step page h h' again o t runs live
          (ap (λ x. io_watch_stdout (notify x again) (some o) (opened [] h)) text ∙ e))
        ((refl, empty), text, ap (answer_all page h'.log) shown, ap (λ x. h'.log ++ x) sent)

  -- The last read, of which only what leaves the program is told.
  read_told :
      (page : ℕ) (password : Bytes) (h : Handler) (newer : List Effect) (w : Window)
      (log : List Effect) (again : Spawn) (o : Bytes) (t : Setup)
      → Stage page password h w log t
      → (h.backend_stdout_watch_id == 0) ≡ false
      → (io_watch_stdout (notify password again) (some o) (opened [] h)).log ≡ newer
      → let u = setup_step lib facts names gettext commits (passwd_printed 0 again (some o)) t in
        (u.window ≡ answer_all page newer w) × (u.effects ≡ newer ++ log)
  read_told page password h newer w log again o t (runs, text, shown, sent) live e =
      rw
        (read_step page h _ again o t runs live
          (ap (λ x. io_watch_stdout (notify x again) (some o) (opened [] h)) text))
        (rw (e, shown, sent) (refl, refl))

  module _ (page pid w c : ℕ) (again : Spawn) (live : (w == 0) ≡ false) (shown : Window) where
    pub asked-Stage :
        (p o : Bytes) (log : List Effect) (t : Setup)
        → AsksCurrent o
        → Stage page p (unprompted pid w c again p) shown log t
        → Stage page p
            (prompted pid w c again p)
            shown
            (wrote (line default_password) ∷ log)
            (setup_step lib facts names gettext commits (passwd_printed 0 again (some o)) t)
    unfolding answer_all
    asked-Stage p o log t a at_start =
        read-Stage page p _ _ shown log again o t at_start live
          (read_current (entries_with p) pid w c refl again o [] a) refl

    -- The reads after the first, with all that leaves the program: the password is the text of the
    -- entry at that time.
    pub accepted_reads :
        (p o2 o3 o4 : Bytes) (log : List Effect) (t : Setup)
        → Accepts o2
        → AsksAgain o3
        → Concludes o4
        → Stage page p (prompted pid w c again p) shown log t
        → let u =
            setup_run lib facts names gettext commits t (reads_of again (o2 ∷ o3 ∷ o4 ∷ [])) in
          (u.window ≡ answer_all page (applied (strstr o4 "successfully") ∷ []) shown)
          × (u.effects ≡ applied (strstr o4 "successfully") ∷ wrote (line p) ∷ wrote (line p) ∷ log)
    unfolding setup_run answer_all
    accepted_reads p o2 o3 o4 log t b d e asked =
        let next : Bytes → Setup → Setup =
          λ o. setup_step lib facts names gettext commits (passwd_printed 0 again (some o)) in
        let accepted =
          read-Stage page p _ _ shown _ again o2 t asked live
            (read_accepted (entries_with p) pid w c refl again o2 [] b) refl in
        let retyped =
          read-Stage page p _ _ shown _ again o3 (next o2 t) accepted live
            (read_again (entries_with p) pid w c refl again o3 _ [] d) refl in
        read_told page p _ _ shown _ again o4 (next o3 (next o2 t)) retyped live
          (read_verdict (entries_with p) pid w c refl again o4 [] e)
