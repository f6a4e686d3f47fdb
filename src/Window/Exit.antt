-- ===== src/Window/Exit.antt =====
-- src/pt-window.c: when the window closes.
use furios_initial_setup.Common.{
  Bool, List, Option, [], ap, arith, count, false, if◌then◌else◌, refl, suc, true, ℕ, ◌+◌, ◌-◌, ◌∙◌,
  ◌∷◌, ◌≡◌, ◌≤◌,
}
use furios_initial_setup.Common.Bytes.{Bytes}
use furios_initial_setup.Common.Int.{pos}
use furios_initial_setup.Passwd.Process.{
  Spawn, free_passwd_resources, not_configured, not_spawned, passwd_authenticate, running,
  spawn_passwd, stop_passwd,
}
use furios_initial_setup.Passwd.State.{passwd_init}
use furios_initial_setup.Security.Apply.{pt_security_settings_apply}
use furios_initial_setup.Security.Entry.{Entries}
use furios_initial_setup.Window.Commits.{
  Commit, answer_all, commit_each, commit_language, commit_security, emit_apply, is_connected,
  no_commit, pt_check_should_exit, pt_commit_all, pt_commit_language_settings,
  pt_commit_security_settings, pt_on_security_settings_applied,
}
use furios_initial_setup.Window.State.{
  Call, Carousel, Window, close_window, pages_of, scroll, unlink_pending,
}

abbrev pub is_close : Call → Bool
is_close close_window = true
is_close _ = false

-- How often the window was closed.
abbrev pub closes : Window → ℕ
closes w = count is_close w.log

abbrev pub is_security : Commit → Bool
is_security commit_security = true
is_security no_commit = false
is_security commit_language = false

abbrev pub is_language : Commit → Bool
is_language commit_language = true
is_language no_commit = false
is_language commit_security = false

-- What the commits leave alone.
abbrev pub view : Window → Option Carousel × (Bool × (Option ℕ × Option Bool))
view w = (w.main_carousel, (w.updates_skipped, (w.password_page, w.skip_updates_banner)))

-- What a page's commit takes off at once.
abbrev weight : Commit → ℕ
weight c = if is_language c then 1 else 0

module _ (entries : Entries) (spawn : Spawn) (buffer : Bytes) where
  -- However passwd starts, a commit of the password changes nothing at once where the entries are
  -- ready, and where they are not it scrolls to the password page.
  security_at_once :
      (page : ℕ) (w : Window)
      → pt_commit_security_settings entries spawn buffer page w
        ≡ (if entries.ready then w else scroll page true w)
  unfolding pt_commit_security_settings answer_all pt_security_settings_apply passwd_authenticate
      stop_passwd spawn_passwd free_passwd_resources passwd_init
  security_at_once page w = elim spawn [
    | not_spawned ↦ ground arith
    | not_configured pid ↦ ground arith
    | running pid a b ↦ ground arith
  ]

module _ (commits : ℕ → Commit) where
  abbrev pub languages : List ℕ → ℕ
  languages pages = count (λ page. is_language (commits page)) pages

  abbrev pub securities : List ℕ → ℕ
  securities pages = count (λ page. is_security (commits page)) pages

  connected-count :
      (pages : List ℕ)
      → count (λ page. is_connected (commits page)) pages ≡ languages pages + securities pages
  connected-count [] = omega arith
  connected-count (page ∷ pages) = ground (arith, connected-count pages)

  module _ (entries : Entries) (spawn : Spawn) (buffer : Bytes) where
    emit_apply-pending :
        (c : Commit) (page n : ℕ) (w : Window)
        → w.pending_commits ≡ pos (weight c + n)
        → (emit_apply entries spawn buffer c page w).pending_commits ≡ pos n
    unfolding emit_apply pt_commit_language_settings pt_check_should_exit
    emit_apply-pending no_commit page n w h = ground arith
    emit_apply-pending commit_language page n w h = ground arith
    emit_apply-pending commit_security page n w h =
        ground (arith, security_at_once entries spawn buffer page w)

    emit_apply-closes :
        (c : Commit) (page n : ℕ) (w : Window)
        → w.pending_commits ≡ pos (weight c + suc n)
        → closes (emit_apply entries spawn buffer c page w) ≡ closes w
    unfolding emit_apply pt_commit_language_settings pt_check_should_exit
    emit_apply-closes no_commit page n w h = ground arith
    emit_apply-closes commit_language page n w h = ground arith
    emit_apply-closes commit_security page n w h =
        ground (arith, security_at_once entries spawn buffer page w)

    -- The commits that are pending beyond those of the language pages stay pending.
    pub commit_each-pending :
        (pages : List ℕ) (k : ℕ) (w : Window)
        → w.pending_commits ≡ pos (languages pages + k)
        → (commit_each entries spawn buffer commits pages w).pending_commits ≡ pos k
    unfolding commit_each
    commit_each-pending [] k w h = ground arith
    commit_each-pending (page ∷ pages) k w h =
        commit_each-pending pages k _
          (emit_apply-pending (commits page) page _ w (ground (arith, h)))

    -- While one is pending, the window is not closed.
    pub commit_each-closes :
        (pages : List ℕ) (k : ℕ) (w : Window)
        → w.pending_commits ≡ pos (languages pages + suc k)
        → closes (commit_each entries spawn buffer commits pages w) ≡ closes w
    unfolding commit_each
    commit_each-closes [] k w h = ground arith
    commit_each-closes (page ∷ pages) k w h =
        commit_each-closes pages k _
          (emit_apply-pending (commits page) page _ w (ground (arith, h)))
        ∙ emit_apply-closes (commits page) page (languages pages + k) w (ground (arith, h))

    emit_apply-view :
        (c : Commit) (page : ℕ) (w : Window)
        → view (emit_apply entries spawn buffer c page w) ≡ view w
    unfolding emit_apply pt_commit_language_settings pt_check_should_exit
    emit_apply-view no_commit page w = refl
    emit_apply-view commit_language page w = ground arith
    emit_apply-view commit_security page w =
        ground (arith, security_at_once entries spawn buffer page w)

    commit_each-view :
        (pages : List ℕ) (w : Window)
        → view (commit_each entries spawn buffer commits pages w) ≡ view w
    unfolding commit_each
    commit_each-view [] w = refl
    commit_each-view (page ∷ pages) w =
        commit_each-view pages _ ∙ emit_apply-view (commits page) page w

    pub commit_all-view :
        (w : Window) → view (pt_commit_all entries spawn buffer commits w) ≡ view w
    unfolding pt_commit_all
    commit_all-view w = commit_each-view (pages_of w.main_carousel) _

    -- When the commits were emitted, as many are pending as there are pages that commit the password.
    commit_all-pending :
        (w : Window)
        → (pt_commit_all entries spawn buffer commits w).pending_commits
          ≡ pos (securities (pages_of w.main_carousel))
    unfolding pt_commit_all
    commit_all-pending w =
        commit_each-pending (pages_of w.main_carousel) _ _
          (ap pos (connected-count (pages_of w.main_carousel)))

    pub commit_all-closes :
        (w : Window)
        → 1 ≤ securities (pages_of w.main_carousel)
        → closes (pt_commit_all entries spawn buffer commits w) ≡ closes w
    unfolding pt_commit_all
    commit_all-closes w h =
        let pages = pages_of w.main_carousel in
        commit_each-closes pages (securities pages - 1) _ (ground (arith, connected-count pages, h))

    -- With one page that commits the password, the commits do not close the window; if the page then
    -- answers that the password was set, the window removes the file that asks for the setup and
    -- closes.
    pub finish_closes :
        (page : ℕ) (w : Window)
        → securities (pages_of w.main_carousel) ≡ 1
        → let t = pt_commit_all entries spawn buffer commits w in
          (closes t ≡ closes w)
          × ((pt_on_security_settings_applied page true t).log
              ≡ close_window ∷ unlink_pending ∷ t.log)
    unfolding pt_on_security_settings_applied pt_check_should_exit
    finish_closes page w h =
        (commit_all-closes w (omega (arith, h)), ground (arith, commit_all-pending w, h))
