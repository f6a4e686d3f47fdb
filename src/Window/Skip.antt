-- ===== src/Window/Skip.antt =====
-- src/pt-window.c: the update page as the window sees it, and the banner that skips it.
use furios_initial_setup.Common.{
  Bool, List, Option, [], false, get_elem?, if◌then◌else◌, is_pointer, ltb, none, not, some, true,
  ℕ, ◌+◌, ◌||◌, ◌∷◌,
}
use furios_initial_setup.Common.Int.{negsuc, pos, ℤ}
use furios_initial_setup.Update.State.{Env, Progress, begin, skip}
use furios_initial_setup.Window.Pages.{goto_page, pt_window_get_page_index}
use furios_initial_setup.Window.State.{Carousel, Window, index_of, scroll}

-- The ancestors of `w`, from its parent up, each with whether it is a carousel: the one right below the
-- first carousel.
unfoldable pub page_above : ℕ → List (ℕ × Bool) → Option ℕ
page_above w [] = none
page_above w ((parent, is_carousel) ∷ rest) =
    let above = page_above parent rest in if is_carousel then some w else above

abbrev pub reveal : Bool → Option Bool → Option Bool
reveal b none = none
reveal b (some _) = some b

-- `pt_update_begin`; `w` is the update page's widget
unfoldable pub pt_update_begin : Env → ℕ → List (ℕ × Bool) → Progress → Window → Window
unfolding page_above begin
pt_update_begin e w ancestors shown self = record self {
  update_progress = some (begin e shown);
  update_page = page_above w ancestors;
  skip_updates_banner = reveal true self.skip_updates_banner;
}

-- `on_update_progress_ready`, for the object's property
unfoldable pub on_update_progress_ready : Bool → Window → Window
on_update_progress_ready ready w =
    if ready then record w { skip_updates_banner = reveal false w.skip_updates_banner } else w

-- Whether the update page `u` is the one that the carousel shows.
unfoldable pub is_shown : ℕ → Option Carousel → Bool
is_shown u none = false
is_shown u (some c) = is_pointer u (get_elem? c.pages (index_of c))

-- Whether the banner is revealed at the carousel's position.
unfoldable pub shows_banner : Window → Bool
unfolding is_shown
shows_banner w = elim w.update_progress [
  | none ↦ false
  | some shown ↦ elim w.update_page [
    | none ↦ false
    | some u ↦ if shown.ready || w.updates_skipped then false else is_shown u w.main_carousel
  ]
]

back_to_password : ℕ → ℤ → ℕ → Window → Window
back_to_password page (negsuc n) current_index w = w
back_to_password page (pos n) current_index w =
    if ltb current_index n then scroll page false w else w

-- After a skip the password page is the first that can be shown.
unfoldable pub keep_after_skip : Window → Window
unfolding back_to_password pt_window_get_page_index
keep_after_skip w = if not w.updates_skipped then w else elim w.password_page [
  | none ↦ w
  | some page ↦ elim w.main_carousel [
    | none ↦ w
    | some c ↦ back_to_password page (pt_window_get_page_index w (some page)) (index_of c) w
  ]
]

-- `on_carousel_position_changed`
unfoldable pub on_carousel_position_changed : Window → Window
unfolding shows_banner keep_after_skip
on_carousel_position_changed w = elim w.skip_updates_banner [
  | none ↦ w
  | some _ ↦ keep_after_skip (record w { skip_updates_banner = some (shows_banner w) })
]

-- The carousel moves, and says so.
unfoldable pub move_to : ℕ → Window → Window
unfolding on_carousel_position_changed
move_to position w = elim w.main_carousel [
  | none ↦ w
  | some c ↦
      on_carousel_position_changed
        (record w { main_carousel = some (record c { position = position }) })
]

skipping : Option Progress → Option Progress
unfolding skip
skipping none = none
skipping (some shown) = some (skip shown)

-- `on_skip_updates_clicked`, on the window's banner
unfoldable pub on_skip_updates_clicked : Window → Window
unfolding skipping goto_page
on_skip_updates_clicked w =
    let skipped = record w {
      update_progress = skipping w.update_progress;
      skip_updates_banner = reveal false w.skip_updates_banner;
    } in
    elim w.main_carousel [
      | none ↦ skipped
      | some c ↦
          goto_page
            (record skipped {
              updates_skipped = true;
              password_page = get_elem? c.pages (index_of c + 1);
            })
            (pos (index_of c + 1))
    ]
