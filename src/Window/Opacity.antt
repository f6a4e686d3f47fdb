-- ===== src/Window/Opacity.antt =====
-- src/pt-window.c: the opacity of the backdrop of the last page.
use furios_initial_setup.Common.{arith, length, some, ℕ, ◌*◌, ◌+◌, ◌<◌, ◌^◌, ◌↔◌, ◌≡◌, ◌≤◌}
use furios_initial_setup.Window.Shown.{get_success_backdrop_opacity, last_index}
use furios_initial_setup.Window.State.{Carousel, unit}

last_index_lem : (n : ℕ) → 2 ≤ n → n < 2 ^ 32 → last_index n + 1 ≡ n
unfolding last_index
last_index_lem n two small = omega arith

-- In a carousel of two pages or more, and for a position on its pages, the opacity is between zero and
-- one, it is one exactly at the last page, and zero up to the page before it.

pub opacity_bounds :
    (c : Carousel) (position : ℕ)
    → 2 ≤ length c.pages
    → length c.pages < 2 ^ 32
    → position + unit ≤ length c.pages * unit
    → let opacity = get_success_backdrop_opacity (some c) position in
      (opacity ≤ unit)
      × ((opacity ≡ unit) ↔ (position + unit ≡ length c.pages * unit))
      × ((opacity ≡ 0) ↔ (position + 2 * unit ≤ length c.pages * unit))
unfolding get_success_backdrop_opacity
opacity_bounds c position two small on =
    let last = last_index_lem (length c.pages) two small in
    (
      ground (arith, last),
      (ground (arith, last), ground (arith, last)),
      (ground (arith, last), ground (arith, last)),
    )
