-- ===== src/Setup/Finish.antt =====
-- src/pt-window.c, src/pt-security-settings.c, src/run-passwd.c: from the button Finish to the end.
use furios_initial_setup.Common.{
  Bool, String, [], ap, arith, count, false, if◌then◌else◌, refl, some, suc, true, ℕ, ◌==◌, ◌∙◌,
  ◌∷◌, ◌≡◌,
}
use furios_initial_setup.Common.Bytes.{Bytes, strstr}
use furios_initial_setup.Common.Int.{pos}
use furios_initial_setup.Language.Rows.{Names}
use furios_initial_setup.Passwd.Process.{Spawn, running}
use furios_initial_setup.Passwd.State.{applied, spawned, wrote}
use furios_initial_setup.Security.Apply.{default_password}
use furios_initial_setup.Security.Entry.{update_password_match}
use furios_initial_setup.Security.Protocol.{
  Accepts, AsksAgain, AsksCurrent, Concludes, line, started-course,
}
use furios_initial_setup.Setup.Conversation.{
  Stage, accepted_reads, asked-Stage, prompted, reads_of, unprompted,
}
use furios_initial_setup.Setup.OneChange.{commit_pages-one}
use furios_initial_setup.Setup.Refines.{commit_pages-window}
use furios_initial_setup.Setup.State.{Setup}
use furios_initial_setup.Setup.Step.{
  commit_all, finished, passwd_printed, setup_run, setup_step, type_password, typed,
}
use furios_initial_setup.Update.Provision.{Facts, Library}
use furios_initial_setup.Window.Commits.{
  Commit, answer_all, is_connected, pt_commit_all, pt_on_security_settings_applied,
}
use furios_initial_setup.Window.Exit.{closes, finish_closes, is_close, securities}
use furios_initial_setup.Window.State.{Window, close_window, pages_of, unlink_pending}

-- How often the window was closed, after an answer that closes it if it is a success.
answer-closes :
    (page : ℕ) (ok : Bool) (before w : Window)
    → closes w ≡ closes before
    → (pt_on_security_settings_applied page true w).log ≡ close_window ∷ unlink_pending ∷ w.log
    → closes (answer_all page (applied ok ∷ []) w)
      ≡ (if ok then suc (closes before) else closes before)
unfolding answer_all
answer-closes page true before w kept closed = ap (count is_close) closed ∙ ap suc kept
answer-closes page false before w kept closed = kept_lem
  where
    kept_lem : closes (pt_on_security_settings_applied page false w) ≡ closes before
    kept_lem = unfold pt_on_security_settings_applied in kept

typed-password :
    (password verify : Bytes) (s : Setup)
    → (type_password password verify s).entries.password ≡ password
unfolding type_password update_password_match
typed-password password verify s = ground arith

module _ (lib : Library) (facts : Facts) (names : Names) (gettext : Bytes → String → String)
    (commits : ℕ → Commit) where
  -- Where the button Finish leaves the program.
  finish-Stage :
      (s : Setup) (pid w c : ℕ) (again : Spawn)
      → s.entries.ready ≡ true
      → s.changes ≡ []
      → s.buffer ≡ []
      → securities commits (pages_of s.window.main_carousel) ≡ 1
      → (page : ℕ) × Stage lib facts names gettext commits page s.entries.password
          (unprompted pid w c again s.entries.password)
          (pt_commit_all s.entries (running pid w c) s.buffer commits s.window)
          (spawned pid ∷ s.effects)
          (setup_step lib facts names gettext commits (finished (running pid w c)) s)
  unfolding setup_step commit_all pt_commit_all
  finish-Stage s pid w c again ready none_runs empty one =
      let pages = pages_of s.window.main_carousel in
      let armed : Setup = record s {
        window = record s.window {
          pending_commits = pos (count (λ page. is_connected (commits page)) pages);
        };
      } in
      let (page, left) = commit_pages-one commits (running pid w c) pages armed ready one in
      let h = started-course s.entries pid w c ready again in
      (
        page,
        (
          (ap (λ r. r.1.0) left ∙ rw (none_runs, empty, h) refl, ap (λ r. r.1.1.0) left ∙ empty),
          ap (λ r. r.0.password) left,
          commit_pages-window lib facts names gettext commits (running pid w c) pages armed,
          ap (λ r. r.1.1.1) left ∙ rw (empty, h) refl,
        ),
      )

  -- What is asked of the start: the password is ready, no change runs, the static buffer is empty, and
  -- one page commits the password.
  abbrev pub Starts : Setup → Type 0
  Starts s =
      (s.entries.ready ≡ true)
      × (s.changes ≡ [])
      × (s.buffer ≡ [])
      × (securities commits (pages_of s.window.main_carousel) ≡ 1)

  module _ (s : Setup) (starts : Starts s) (pid w c : ℕ) (again : Spawn) (live : (w == 0) ≡ false)
      (o1 o2 o3 o4 : Bytes) (asks : AsksCurrent o1) (accepts : Accepts o2)
      (asks_again : AsksAgain o3) (concludes : Concludes o4) where
    abbrev after_asked : Setup
    after_asked =
        setup_run lib facts names gettext commits s
          (finished (running pid w c) ∷ passwd_printed 0 again (some o1) ∷ [])

    after_asked-Stage :
        (page : ℕ) × Stage lib facts names gettext commits page s.entries.password
          (prompted pid w c again s.entries.password)
          (pt_commit_all s.entries (running pid w c) s.buffer commits s.window)
          (wrote (line default_password) ∷ spawned pid ∷ s.effects)
          after_asked
    unfolding setup_run
    after_asked-Stage =
        let (ready, none_runs, empty, one) = starts in
        let (page, at_start) = finish-Stage s pid w c again ready none_runs empty one in
        (
          page,
          asked-Stage lib facts names gettext commits page pid w c again live _ s.entries.password
              o1 _ _ asks at_start,
        )

    closes_after :
        (page : ℕ) (shown : Window)
        → shown
          ≡ answer_all page
              (applied (strstr o4 "successfully") ∷ [])
              (pt_commit_all s.entries (running pid w c) s.buffer commits s.window)
        → closes shown
          ≡ (if strstr o4 "successfully" then suc (closes s.window) else closes s.window)
    closes_after page shown e =
        let (kept, closed) =
          finish_closes commits s.entries (running pid w c) s.buffer page s.window starts.3 in
        ap closes e ∙ answer-closes page (strstr o4 "successfully") s.window _ kept closed

    -- From the button Finish to the end, with one page that commits the password, a password that is
    -- ready, no change that runs and nothing left in the static buffer: `passwd` asks for the current
    -- password and accepts it, asks for the new one again and gives its verdict. Then the default
    -- password was sent and after it the new one twice, the window is told the verdict, and it is
    -- closed once more if the verdict is a success and not otherwise.
    pub finish_completes :
        let t =
          setup_run lib facts names gettext commits s
            (finished (running pid w c) ∷ reads_of again (o1 ∷ o2 ∷ o3 ∷ o4 ∷ [])) in
        (t.effects
          ≡ applied (strstr o4 "successfully")
            ∷ wrote (line s.entries.password)
            ∷ wrote (line s.entries.password)
            ∷ wrote (line default_password)
            ∷ spawned pid
            ∷ s.effects)
        × (closes t.window
            ≡ (if strstr o4 "successfully" then suc (closes s.window) else closes s.window))
    unfolding setup_run
    finish_completes =
        let (page, asked) = after_asked-Stage in
        let (shown, sent) =
          accepted_reads lib facts names gettext commits page pid w c again live _
            s.entries.password o2 o3 o4 _ after_asked accepts asks_again concludes asked in
        (sent, closes_after page _ shown)

    -- The password that is sent is the text of the entry when `passwd` accepts the current one: if the
    -- user changes the entries after the button Finish, what was changed is sent, whatever it is.
    pub late_edit :
        (password verify : Bytes)
        → let t = setup_run lib facts names gettext commits s (
            finished (running pid w c)
            ∷ passwd_printed 0 again (some o1)
            ∷ typed password verify
            ∷ reads_of again (o2 ∷ o3 ∷ o4 ∷ [])) in
          (t.effects
            ≡ applied (strstr o4 "successfully")
              ∷ wrote (line password)
              ∷ wrote (line password)
              ∷ wrote (line default_password)
              ∷ spawned pid
              ∷ s.effects)
          × (closes t.window
              ≡ (if strstr o4 "successfully" then suc (closes s.window) else closes s.window))
    unfolding setup_run setup_step type_password
    late_edit password verify =
        let (page, (runs, text, shown, sent)) = after_asked-Stage in
        let (shown_after, sent_after) =
          accepted_reads lib facts names gettext commits page pid w c again live _ password o2 o3 o4
            _ (type_password password verify after_asked) accepts asks_again concludes
            (runs, typed-password password verify after_asked, shown, sent) in
        (sent_after, closes_after page _ shown_after)
