-- ===== src/Window/Pages.antt =====
-- src/pt-window.c: the pages by their index, and the buttons that turn them.
use furios_initial_setup.Common.{
  Bool, List, Option, [], get_elem?, if◌then◌else◌, is_pointer, leb, length, ltb, none, not, some,
  suc, true, zero, ℕ, ◌*◌, ◌+◌, ◌-◌, ◌/◌, ◌==◌, ◌∷◌,
}
use furios_initial_setup.Common.Int.{negsuc, pos, ℤ}
use furios_initial_setup.Window.State.{Window, index_of, scroll, unfocus, unit}

-- The sum of a natural number and an integer.
unfoldable pub add_offset : ℕ → ℤ → ℤ
add_offset m (pos n) = pos (m + n)
add_offset m (negsuc n) = if leb (suc n) m then pos (m - suc n) else negsuc (n - m)

scroll_found : Option ℕ → Window → Window
scroll_found none w = w
scroll_found (some page) w = scroll page true w

-- `goto_page`
unfoldable pub goto_page : Window → ℤ → Window
unfolding scroll_found
goto_page w (negsuc n) = w
goto_page w (pos n) = elim w.main_carousel [
  | none ↦ w
  | some c ↦ if leb (length c.pages) n then w else scroll_found (get_elem? c.pages n) w
]

-- `on_flip_page_activated`
unfoldable pub on_flip_page_activated : ℤ → Window → Window
unfolding goto_page add_offset
on_flip_page_activated offset w = elim w.main_carousel [
  | none ↦ goto_page w (add_offset 0 offset)
  | some c ↦ goto_page w (add_offset (index_of c) offset)
]

-- The loop of `pt_window_get_page_index`, from the index `i` on.
unfoldable pub index_from : ℕ → List ℕ → ℕ → ℤ
index_from i [] page = negsuc 0
index_from i (x ∷ xs) page = if x == page then pos i else index_from (i + 1) xs page

-- `pt_window_get_page_index`
unfoldable pub pt_window_get_page_index : Window → Option ℕ → ℤ
unfolding index_from
pt_window_get_page_index w none = negsuc 0
pt_window_get_page_index w (some page) = elim w.main_carousel [
  | none ↦ negsuc 0
  | some c ↦ index_from 0 c.pages page
]

-- `get_btn_next_visible`; the source adds 0.5 to the position
unfoldable pub get_btn_next_visible : ℕ → ℕ → Bool
get_btn_next_visible position n_pages = not (ltb (n_pages * unit) (position + 5000 + unit))

-- `get_btn_previous_visible`
unfoldable pub get_btn_previous_visible : ℕ → Bool
get_btn_previous_visible position = not (ltb position 5000)

-- The difference of two positions, which `G_APPROX_VALUE` compares with 0.0001.
abbrev pub is_same_position : ℕ → ℕ → Bool
is_same_position a b = ltb ((a - b) + (b - a)) 1

-- Whether the page before the one at `cur_index` may be shown again.
unfoldable pub may_go_back : ℕ → Window → Bool
may_go_back zero w = true
may_go_back (suc i) w = if not w.updates_skipped then true else elim w.update_page [
  | none ↦ true
  | some u ↦ elim w.main_carousel [
    | none ↦ true
    | some c ↦ not (is_pointer u (get_elem? c.pages i))
  ]
]

-- `get_btn_previous_sensitive`
unfoldable pub get_btn_previous_sensitive : ℕ → Window → Window × Bool
unfolding may_go_back
get_btn_previous_sensitive position w = (
  if is_same_position w.last_position position
      then w
      else record w { last_position = position; log = unfocus ∷ w.log },
  may_go_back (position / unit) w,
)
