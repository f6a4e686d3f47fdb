-- ===== src/Window/State.antt =====
-- src/pt-window.c: the state of the window.
use furios_initial_setup.Common.{Bool, List, Option, [], none, some, ℕ, ◌/◌, ◌∷◌}
use furios_initial_setup.Common.Int.{ℤ}
use furios_initial_setup.Update.State.{Progress}

-- A call that leaves the window. `scroll_to` says whether the carousel moves there step by step.
pub data Call : Type 0 where
  scroll_to : ℕ → Bool → Call
  unfocus : Call
  apply_language : Call
  unlink_pending close_window : Call

-- Widgets are named by numbers. A position is in ten-thousandths of a page: 20000 shows the page 2.
pub record Carousel : Type 0 where
  pub pages : List ℕ
  pub position : ℕ

-- A NULL pointer is `none`. `update_progress` holds the update page's private data, and
-- `skip_updates_banner` whether the banner is revealed.
pub record Window : Type 0 where
  pub main_carousel : Option Carousel
  pub pending_commits : ℤ
  pub last_position : ℕ
  pub update_progress : Option Progress
  pub update_page : Option ℕ
  pub skip_updates_banner : Option Bool
  pub password_page : Option ℕ
  pub updates_skipped : Bool
  pub log : List Call

abbrev pub unit : ℕ
unit = 10000

-- `adw_carousel_get_n_pages`
abbrev pub pages_of : Option Carousel → List ℕ
pages_of none = []
pages_of (some c) = c.pages

-- `adw_carousel_get_position`, as an integer
abbrev pub index_of : Carousel → ℕ
index_of c = c.position / unit

-- `adw_carousel_scroll_to`
abbrev pub scroll : ℕ → Bool → Window → Window
scroll page animate w = record w { log = scroll_to page animate ∷ w.log }
