-- ===== src/Window/Step.antt =====
-- src/pt-window.c: every entry into the window, as one step function.
use furios_initial_setup.Common.{Bool, List, Option, [], none, some, ℕ, ◌∷◌}
use furios_initial_setup.Common.Bytes.{Bytes}
use furios_initial_setup.Common.Int.{ℤ}
use furios_initial_setup.Passwd.Process.{Spawn}
use furios_initial_setup.Security.Entry.{Entries}
use furios_initial_setup.Update.Provision.{Facts, Library}
use furios_initial_setup.Update.State.{Env, Progress}
use furios_initial_setup.Update.Step.{Event, step}
use furios_initial_setup.Window.Commits.{Commit, pt_commit_all, pt_on_security_settings_applied}
use furios_initial_setup.Window.Pages.{get_btn_previous_sensitive, on_flip_page_activated}
use furios_initial_setup.Window.Skip.{
  move_to, on_skip_updates_clicked, on_update_progress_ready, pt_update_begin,
}
use furios_initial_setup.Window.State.{Window}

-- What the user does, what the widgets tell and what the other pages answer.
pub data Input : Type 0 where
  flips : ℤ → Input
  moves : ℕ → Input
  looks_back : ℕ → Input
  update_begins : Env → ℕ → List (ℕ × Bool) → Progress → Input
  updates : Env → Event → Input
  told_ready : Bool → Input
  skip_clicked : Input
  finish_clicked : Entries → Spawn → Bytes → Input
  answered : ℕ → Bool → Input

module _ (lib : Library) (facts : Facts) (commits : ℕ → Commit) where
  -- A callback of the update page that the window holds.
  unfoldable pub update_event : Env → Event → Option Progress → Option Progress
  unfolding step
  update_event e v none = none
  update_event e v (some shown) = some (step lib facts e v shown)

  unfoldable pub window_step : Input → Window → Window
  unfolding on_flip_page_activated move_to get_btn_previous_sensitive pt_update_begin update_event
      on_update_progress_ready on_skip_updates_clicked pt_commit_all pt_on_security_settings_applied
  window_step (flips offset) w = on_flip_page_activated offset w
  window_step (moves position) w = move_to position w
  window_step (looks_back position) w = (get_btn_previous_sensitive position w).0
  window_step (update_begins e page ancestors shown) w = pt_update_begin e page ancestors shown w
  window_step (updates e v) w = record w { update_progress = update_event e v w.update_progress }
  window_step (told_ready ready) w = on_update_progress_ready ready w
  window_step skip_clicked w = on_skip_updates_clicked w
  window_step (finish_clicked entries spawn buffer) w = pt_commit_all entries spawn buffer commits w
  window_step (answered page ok) w = pt_on_security_settings_applied page ok w

  unfoldable pub window_run : Window → List Input → Window
  unfolding window_step
  window_run w [] = w
  window_run w (x ∷ xs) = window_run (window_step x w) xs
