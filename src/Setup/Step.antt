-- ===== src/Setup/Step.antt =====
-- src/pt-window.c, src/pt-security-settings.c, src/run-passwd.c, src/cc-language-chooser.c: what happens to
-- the window and its pages, as one step function.
use furios_initial_setup.Common.{
  Bool, List, Option, String, [], count, false, get_elem?, if◌then◌else◌, none, some, suc, true,
  zero, ℕ, ◌++◌, ◌==◌, ◌∷◌,
}
use furios_initial_setup.Common.Bytes.{Bytes}
use furios_initial_setup.Common.Int.{pos}
use furios_initial_setup.Language.Chooser.{Chooser, cc_language_chooser_apply}
use furios_initial_setup.Language.Chosen.{ChooserEvent, chooser_step}
use furios_initial_setup.Language.Rows.{Names}
use furios_initial_setup.Passwd.Process.{Exit, Spawn}
use furios_initial_setup.Passwd.Watch.{child_watch_cb, io_watch_stdout}
use furios_initial_setup.Security.Apply.{Handler, notify, pt_security_settings_apply}
use furios_initial_setup.Security.Entry.{update_password_match}
use furios_initial_setup.Setup.State.{Change, Setup}
use furios_initial_setup.Update.Provision.{Facts, Library}
use furios_initial_setup.Window.Commits.{
  Commit, answer_all, commit_language, commit_security, is_connected, no_commit,
  pt_commit_language_settings,
}
use furios_initial_setup.Window.State.{pages_of}
use furios_initial_setup.Window.Step.{Input, answered, finish_clicked, window_step}

-- What the user does, what `passwd` does, and what the other parts tell the window.
pub data Happening : Type 0 where
  typed : Bytes → Bytes → Happening
  chosen : ChooserEvent → Happening
  finished : Spawn → Happening
  passwd_printed : ℕ → Spawn → Option Bytes → Happening
  passwd_ended : ℕ → Spawn → Exit → Happening
  windowed : Input → Happening

-- The inputs of the window that the step function makes itself.
abbrev pub is_composed : Input → Bool
is_composed (finish_clicked entries spawn buffer) = true
is_composed (answered page ok) = true
is_composed _ = false

unfoldable pub update_nth : {A : Type 0} → ℕ → A → List A → List A
update_nth n a [] = []
update_nth zero a (x ∷ xs) = a ∷ xs
update_nth (suc n) a (x ∷ xs) = x ∷ update_nth n a xs

-- A handler without its effects, which went to the common log.
abbrev pub unlogged : Handler → Handler
unlogged h = record h { log = [] }

-- The handler that `pt_security_settings_apply` leaves, if it makes one.
abbrev pub new_change : Bool → ℕ → Handler → List Change
new_change false page h = []
new_change true page h = record { page = page; handler = unlogged h } ∷ []

-- `pt_commit_language_settings` with what the chooser asks for
unfoldable pub commit_language_page : Setup → Setup
commit_language_page s = record s {
  window = pt_commit_language_settings s.window;
  calls = s.calls ++ cc_language_chooser_apply s.chooser;
}

-- `pt_commit_security_settings` with the handler that it makes and the answer that it gives at once
unfoldable pub commit_security_page : Spawn → ℕ → Setup → Setup
commit_security_page spawn page s =
    let h = pt_security_settings_apply s.entries spawn s.buffer in
    record s {
      window = answer_all page h.log s.window;
      changes = s.changes ++ new_change s.entries.ready page h;
      effects = h.log ++ s.effects;
    }

-- The change with a number while the source has its watch: `watch` gives the handle of the watch, which
-- is 0 when it was removed.
unfoldable pub watched : (Handler → ℕ) → ℕ → List Change → Option Change
watched watch n changes = elim (get_elem? changes n) [
  | none ↦ none
  | some change ↦ if watch change.handler == 0 then none else some change
]

-- A callback of a change that runs, with what the window is then told.
unfoldable pub call_back : (Handler → ℕ) → (Handler → Handler) → ℕ → Setup → Setup
call_back watch f n s = elim (watched watch n s.changes) [
  | none ↦ s
  | some change ↦
      let h = f (record change.handler { buffer = s.buffer; log = [] }) in
      record s {
        window = answer_all change.page h.log s.window;
        changes = update_nth n (record change { handler = unlogged h }) s.changes;
        buffer = h.buffer;
        effects = h.log ++ s.effects;
      }
]

-- `update_password_match`, called when one of the texts changes
unfoldable pub type_password : Bytes → Bytes → Setup → Setup
type_password password verify s = record s {
  entries = update_password_match (record s.entries { password = password; verify = verify });
}

chooser_after : Option Chooser → Chooser → Chooser
chooser_after none c = c
chooser_after (some c') c = c'

module _ (commits : ℕ → Commit) where
  unfoldable pub commit_page : Commit → Spawn → ℕ → Setup → Setup
  unfolding commit_language_page commit_security_page
  commit_page no_commit spawn page s = s
  commit_page commit_language spawn page s = commit_language_page s
  commit_page commit_security spawn page s = commit_security_page spawn page s

  unfoldable pub commit_pages : Spawn → List ℕ → Setup → Setup
  unfolding commit_page
  commit_pages spawn [] s = s
  commit_pages spawn (page ∷ pages) s =
      commit_pages spawn pages (commit_page (commits page) spawn page s)

  -- `pt_commit_all`
  unfoldable pub commit_all : Spawn → Setup → Setup
  unfolding commit_pages
  commit_all spawn s =
      let pages = pages_of s.window.main_carousel in
      commit_pages spawn pages (record s {
        window = record s.window {
          pending_commits = pos (count (λ page. is_connected (commits page)) pages);
        };
      })

module _ (lib : Library) (facts : Facts) (names : Names) (gettext : Bytes → String → String)
    (commits : ℕ → Commit) where
  unfoldable pub setup_step : Happening → Setup → Setup
  unfolding type_password chooser_after commit_all call_back
  setup_step (typed password verify) s = type_password password verify s
  setup_step (chosen e) s = record s {
    chooser = chooser_after (chooser_step names gettext e s.chooser) s.chooser;
  }
  setup_step (finished spawn) s = commit_all commits spawn s
  setup_step (passwd_printed n spawn chunk) s =
      call_back (λ h. h.backend_stdout_watch_id)
        (io_watch_stdout (notify s.entries.password spawn) chunk) n s
  setup_step (passwd_ended n spawn exit) s =
      call_back (λ h. h.backend_child_watch_id)
        (child_watch_cb (notify s.entries.password spawn) exit) n s
  setup_step (windowed x) s =
      if is_composed x then s else record s { window = window_step lib facts commits x s.window }

  unfoldable pub setup_run : Setup → List Happening → Setup
  unfolding setup_step
  setup_run s [] = s
  setup_run s (x ∷ xs) = setup_run (setup_step x s) xs
