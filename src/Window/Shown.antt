-- ===== src/Window/Shown.antt =====
-- src/pt-window.c: the button forward, the backdrop of the last page, the properties and the start.
use furios_initial_setup.Common.{
  Bool, List, Option, [], false, get_elem?, if◌then◌else◌, leb, length, none, some, ℕ, ◌%◌, ◌*◌,
  ◌+◌, ◌-◌, ◌/◌, ◌^◌,
}
use furios_initial_setup.Common.Bytes.{Bytes}
use furios_initial_setup.Common.Int.{pos}
use furios_initial_setup.Page.{PtPage}
use furios_initial_setup.Page.Properties.{pt_page_get_can_proceed}
use furios_initial_setup.Window.Appearance.{
  Appearance, Slider, Toggle, init_android_autostart, init_slider, set_android_autostart,
  setup_accent_color_toggles,
}
use furios_initial_setup.Window.State.{Carousel, Window, unit}

-- `pages` has the private data of the pages by their number. A position behind the last page names no
-- page, and NULL is no page that one can proceed from.
unfoldable pub get_btn_next_sensitive : (ℕ → PtPage) → Carousel → ℕ → Bool
unfolding pt_page_get_can_proceed
get_btn_next_sensitive pages carousel position = elim (get_elem? carousel.pages (position / unit)) [
  | none ↦ false
  | some page ↦ pt_page_get_can_proceed (pages page)
]

-- `page_count - 1`, for a guint
unfoldable pub last_index : ℕ → ℕ
last_index n = (n + (2 ^ 32 - 1)) % 2 ^ 32

-- `get_success_backdrop_opacity`, in ten-thousandths
unfoldable pub get_success_backdrop_opacity : Option Carousel → ℕ → ℕ
unfolding last_index
get_success_backdrop_opacity none position = 0
get_success_backdrop_opacity (some c) position =
    let last = last_index (length c.pages) * unit in
    if leb last (position + unit) then position + unit - last else 0

-- `pt_window_set_property` and `pt_window_get_property`, of which android-autostart is the only one
unfoldable pub pt_window_set_property : Bool → Bool → Appearance → Appearance
unfolding set_android_autostart
pt_window_set_property worked value s = set_android_autostart worked value s

unfoldable pub pt_window_get_property : Appearance → Bool
pt_window_get_property s = s.android_autostart

-- `pt_window_init`, for the window; the carousel is the template's, and zero is what GObject fills in
unfoldable pub pt_window_init : Option Carousel → Option Bool → Window
pt_window_init carousel banner = record {
  main_carousel = carousel;
  pending_commits = pos 0;
  last_position = 0;
  update_progress = none;
  update_page = none;
  skip_updates_banner = banner;
  password_page = none;
  updates_skipped = false;
  log = [];
}

-- `pt_window_init`, for what the user sets: the toggles, the file that starts Android and the slider.
unfoldable pub init_appearance :
    Option Bytes → Option Slider → Appearance → Appearance × (List Toggle × Option Slider)
unfolding init_slider init_android_autostart setup_accent_color_toggles
init_appearance codename slider s =
    let started = init_android_autostart s in
    (started, (setup_accent_color_toggles started, init_slider codename slider))
