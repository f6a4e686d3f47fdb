-- ===== src/Window/Skipped.antt =====
-- src/pt-window.c: the pages after the updates were skipped.
use furios_initial_setup.Common.{
  All, List, [], arith, false, get_elem?, is_some, some, true, ℕ, ◌+◌, ◌/◌, ◌<◌, ◌∷◌, ◌≡◌, ◌≤◌,
}
use furios_initial_setup.Common.Int.{pos}
use furios_initial_setup.Update.Provision.{Facts, Library}
use furios_initial_setup.Window.Commits.{Commit, pt_on_security_settings_applied}
use furios_initial_setup.Window.Exit.{commit_all-view}
use furios_initial_setup.Window.Pages.{
  get_btn_previous_sensitive, goto_page, index_from, pt_window_get_page_index,
}
use furios_initial_setup.Window.Skip.{
  keep_after_skip, move_to, on_carousel_position_changed, on_skip_updates_clicked,
}
use furios_initial_setup.Window.State.{Carousel, Window, index_of, pages_of, scroll_to, unit}
use furios_initial_setup.Window.Step.{
  Input, answered, finish_clicked, flips, looks_back, moves, skip_clicked, told_ready,
  update_begins, updates, window_run, window_step,
}

-- The updates were skipped, and the password page `page` is the page `n` of the carousel.
abbrev pub Skipped : ℕ → ℕ → Window → Type 0
Skipped page n w =
    (w.updates_skipped ≡ true)
    × (w.password_page ≡ some page)
    × (index_from 0 (pages_of w.main_carousel) page ≡ pos n)
    × (is_some w.skip_updates_banner ≡ true)

-- Another click on the banner is not among the inputs.
abbrev pub NotSkipping : Input → Type 0
NotSkipping skip_clicked = ⊥
NotSkipping _ = Unit

-- A click on the banner, at the page before `page`, skips.
pub click-Skipped :
    (w : Window) (c : Carousel) (page : ℕ)
    → w.main_carousel ≡ some c
    → is_some w.skip_updates_banner ≡ true
    → get_elem? c.pages (index_of c + 1) ≡ some page
    → index_from 0 c.pages page ≡ pos (index_of c + 1)
    → Skipped page (index_of c + 1) (on_skip_updates_clicked w)
unfolding on_skip_updates_clicked goto_page
click-Skipped w c page m b g h = ground arith

module _ (lib : Library) (facts : Facts) (commits : ℕ → Commit) where
  step-Skipped :
      (page n : ℕ) (x : Input) (w : Window)
      → NotSkipping x
      → Skipped page n w
      → Skipped page n (window_step lib facts commits x w)
  unfolding window_step pt_on_security_settings_applied
  step-Skipped page n (flips offset) w k h = ground arith
  step-Skipped page n (moves position) w k h = ground arith
  step-Skipped page n (looks_back position) w k h = ground arith
  step-Skipped page n (update_begins e p ancestors shown) w k h = ground arith
  step-Skipped page n (updates e v) w k h = ground arith
  step-Skipped page n (told_ready ready) w k h = ground arith
  step-Skipped page n skip_clicked w k h = absurd k
  step-Skipped page n (finish_clicked entries spawn buffer) w k h =
      ground (arith, commit_all-view commits entries spawn buffer w)
  step-Skipped page n (answered p ok) w k h = ground arith

  pub run-Skipped :
      (page n : ℕ) (w : Window) (xs : List Input)
      → All NotSkipping xs
      → Skipped page n w
      → Skipped page n (window_run lib facts commits w xs)
  unfolding window_run
  run-Skipped page n w [] k h = h
  run-Skipped page n w (x ∷ xs) k h =
      run-Skipped page n (window_step lib facts commits x w) xs k.1 (step-Skipped page n x w k.0 h)

-- A move to a page before the password page is sent back to it, and any other is left alone.
pub moved_back :
    (page n position : ℕ) (w : Window)
    → Skipped page n w
    → (position / unit < n → (move_to position w).log ≡ scroll_to page false ∷ w.log)
      × (n ≤ position / unit → (move_to position w).log ≡ w.log)
unfolding move_to on_carousel_position_changed keep_after_skip pt_window_get_page_index
moved_back page n position w h = (λ lt. ground arith, λ le. ground arith)

module _ (lib : Library) (facts : Facts) (commits : ℕ → Commit) where
  -- With the banner there, after a click on it where the page that follows, `page`, is in no earlier
  -- place, and whatever else but another such click, a move of the carousel to a page before `page`
  -- scrolls to it, and any other move calls nothing.
  pub skip_stays :
      (w : Window) (c : Carousel) (page position : ℕ) (xs : List Input)
      → w.main_carousel ≡ some c
      → is_some w.skip_updates_banner ≡ true
      → get_elem? c.pages (index_of c + 1) ≡ some page
      → index_from 0 c.pages page ≡ pos (index_of c + 1)
      → All NotSkipping xs
      → let t = window_run lib facts commits (on_skip_updates_clicked w) xs in
        (position / unit < index_of c + 1 → (move_to position t).log ≡ scroll_to page false ∷ t.log)
        × (index_of c + 1 ≤ position / unit → (move_to position t).log ≡ t.log)
  skip_stays w c page position xs m b g h k =
      moved_back page (index_of c + 1) position _
        (run-Skipped lib facts commits page _ _ xs k (click-Skipped w c page m b g h))

-- After a click on the banner at the update page, the button back is not sensitive on the page after
-- it.
back_blocked :
    (w : Window) (c : Carousel) (u position : ℕ)
    → w.main_carousel ≡ some c
    → w.update_page ≡ some u
    → get_elem? c.pages (index_of c) ≡ some u
    → position / unit ≡ index_of c + 1
    → (get_btn_previous_sensitive position (on_skip_updates_clicked w)).1 ≡ false
unfolding on_skip_updates_clicked goto_page get_btn_previous_sensitive
back_blocked w c u position m p g h = ground arith
