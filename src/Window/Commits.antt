-- ===== src/Window/Commits.antt =====
-- src/pt-window.c: the commits. The pages with settings apply them, and the window closes when all have.
use furios_initial_setup.Common.{
  Bool, List, [], count, false, if◌then◌else◌, suc, true, zero, ℕ, ◌∷◌,
}
use furios_initial_setup.Common.Bytes.{Bytes}
use furios_initial_setup.Common.Int.{negsuc, pos, ℤ}
use furios_initial_setup.Passwd.Process.{Spawn}
use furios_initial_setup.Passwd.State.{Effect, applied}
use furios_initial_setup.Security.Apply.{pt_security_settings_apply}
use furios_initial_setup.Security.Entry.{Entries}
use furios_initial_setup.Window.State.{
  Window, apply_language, close_window, pages_of, scroll, unlink_pending,
}

-- What is connected to a page's signal `apply-changes`, as the template of the window has it.
pub data Commit : Type 0 where
  no_commit commit_language commit_security : Commit

abbrev pub is_connected : Commit → Bool
is_connected no_commit = false
is_connected commit_language = true
is_connected commit_security = true

-- `pending_commits--`
abbrev pub decrement : ℤ → ℤ
decrement (pos zero) = negsuc 0
decrement (pos (suc n)) = pos n
decrement (negsuc n) = negsuc (suc n)

abbrev pub is_zero : ℤ → Bool
is_zero (pos zero) = true
is_zero (pos (suc n)) = false
is_zero (negsuc n) = false

-- `pt_check_should_exit`
unfoldable pub pt_check_should_exit : Window → Window
pt_check_should_exit w =
    if is_zero w.pending_commits
    then record w { log = close_window ∷ unlink_pending ∷ w.log }
    else w

abbrev pub committed : Window → Window
committed w = record w { pending_commits = decrement w.pending_commits }

-- `pt_on_security_settings_applied`
unfoldable pub pt_on_security_settings_applied : ℕ → Bool → Window → Window
unfolding pt_check_should_exit
pt_on_security_settings_applied page true w = pt_check_should_exit (committed w)
pt_on_security_settings_applied page false w = scroll page true w

-- The calls of the window's callback in an effect list of the password page, newest first.
unfoldable pub answer_all : ℕ → List Effect → Window → Window
unfolding pt_on_security_settings_applied
answer_all page [] w = w
answer_all page (applied ok ∷ log) w =
    pt_on_security_settings_applied page ok (answer_all page log w)
answer_all page (_ ∷ log) w = answer_all page log w

-- `pt_commit_language_settings`
unfoldable pub pt_commit_language_settings : Window → Window
unfolding pt_check_should_exit
pt_commit_language_settings w =
    pt_check_should_exit (committed (record w { log = apply_language ∷ w.log }))

-- The entries of the password page, what starting `passwd` comes to and what the static buffer holds.
module _ (entries : Entries) (spawn : Spawn) (buffer : Bytes) where
  -- `pt_commit_security_settings`, with the answer that the page gives at once
  unfoldable pub pt_commit_security_settings : ℕ → Window → Window
  unfolding answer_all pt_security_settings_apply
  pt_commit_security_settings page w =
      answer_all page (pt_security_settings_apply entries spawn buffer).log w

  unfoldable pub emit_apply : Commit → ℕ → Window → Window
  unfolding pt_commit_language_settings pt_commit_security_settings
  emit_apply no_commit page w = w
  emit_apply commit_language page w = pt_commit_language_settings w
  emit_apply commit_security page w = pt_commit_security_settings page w

  -- The second loop of `pt_commit_all`.
  unfoldable pub commit_each : (ℕ → Commit) → List ℕ → Window → Window
  unfolding emit_apply
  commit_each commits [] w = w
  commit_each commits (page ∷ pages) w =
      commit_each commits pages (emit_apply (commits page) page w)

  -- `pt_commit_all`
  unfoldable pub pt_commit_all : (ℕ → Commit) → Window → Window
  unfolding commit_each
  pt_commit_all commits w =
      let pages = pages_of w.main_carousel in
      commit_each commits pages
        (record w { pending_commits = pos (count (λ page. is_connected (commits page)) pages) })
