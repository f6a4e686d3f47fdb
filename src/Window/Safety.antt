-- ===== src/Window/Safety.antt =====
-- src/pt-window.c: the window closes only after the password was set.
use furios_initial_setup.Common.{All, List, [], arith, false, ℕ, ◌∷◌, ◌≡◌, ◌≤◌}
use furios_initial_setup.Update.Provision.{Facts, Library}
use furios_initial_setup.Window.Commits.{Commit, pt_on_security_settings_applied}
use furios_initial_setup.Window.Exit.{closes, commit_all-closes, commit_all-view, securities}
use furios_initial_setup.Window.State.{Window, pages_of}
use furios_initial_setup.Window.Step.{
  Input, answered, finish_clicked, flips, looks_back, moves, skip_clicked, told_ready,
  update_begins, updates, window_run, window_step,
}

-- The password page does not say that the password was set.
abbrev pub NotAnswered : Input → Type 0
NotAnswered (answered page ok) = ok ≡ false
NotAnswered _ = Unit

module _ (lib : Library) (facts : Facts) (commits : ℕ → Commit) where
  -- There is a password page, and the window is open.
  abbrev pub IsOpen : Window → Type 0
  IsOpen w = (1 ≤ securities commits (pages_of w.main_carousel)) × (closes w ≡ 0)

  step-IsOpen :
      (x : Input) (w : Window)
      → NotAnswered x
      → IsOpen w
      → IsOpen (window_step lib facts commits x w)
  unfolding window_step pt_on_security_settings_applied
  step-IsOpen (flips offset) w n h = ground arith
  step-IsOpen (moves position) w n h = ground arith
  step-IsOpen (looks_back position) w n h = ground arith
  step-IsOpen (update_begins e page ancestors shown) w n h = ground arith
  step-IsOpen (updates e v) w n h = ground arith
  step-IsOpen (told_ready ready) w n h = ground arith
  step-IsOpen skip_clicked w n h = ground arith
  step-IsOpen (finish_clicked entries spawn buffer) w n h = (
    ground (arith, commit_all-view commits entries spawn buffer w),
    ground (arith, commit_all-closes commits entries spawn buffer w),
  )
  step-IsOpen (answered page ok) w n h = ground arith

  -- A window with a page that commits the password stays open, and keeps such a page, as long as no
  -- answer of that page is that the password was set, whatever else happens and in whatever order.
  pub run-IsOpen :
      (w : Window) (xs : List Input)
      → All NotAnswered xs
      → IsOpen w
      → IsOpen (window_run lib facts commits w xs)
  unfolding window_run
  run-IsOpen w [] n h = h
  run-IsOpen w (x ∷ xs) n h =
      run-IsOpen (window_step lib facts commits x w) xs n.1 (step-IsOpen x w n.0 h)
