-- ===== src/Window/Buttons.antt =====
-- src/pt-window.c: the index of a page, and the buttons beside what they do.
use furios_initial_setup.Common.{
  Bool-cases, List, [], arith, false, get_elem?, inl, inr, length, refl, some, suc, true, zero, ℕ,
  ◌*◌, ◌+◌, ◌<◌, ◌==◌, ◌∷◌, ◌≡◌, ◌≤◌,
}
use furios_initial_setup.Common.Int.{pos}
use furios_initial_setup.Window.Pages.{
  add_offset, get_btn_next_visible, goto_page, index_from, on_flip_page_activated,
  pt_window_get_page_index,
}
use furios_initial_setup.Window.State.{Carousel, Window, scroll, unit}

-- An index that is found is one of the page, and none after another of it.
index_from-found :
    (i : ℕ) (xs : List ℕ) (page j : ℕ)
    → get_elem? xs j ≡ some page
    → (k : ℕ) × (index_from i xs page ≡ pos (i + k)) × (k ≤ j) × (get_elem? xs k ≡ some page)
unfolding index_from
index_from-found i [] page j h = ground arith
index_from-found i (x ∷ xs) page j h = elim (Bool-cases (x == page)) [
  | inl same ↦ (0, ground (arith, same), ground arith, ground (arith, same))
  | inr other ↦
      elim j
          as (λ j.
            get_elem? (x ∷ xs) j ≡ some page
            → (k : ℕ) × (index_from i (x ∷ xs) page ≡ pos (i + k))
              × (k ≤ j)
              × (get_elem? (x ∷ xs) k ≡ some page)) [
                | zero ↦ λ g. ground (arith, g, other)
                | suc j' ↦ λ g.
                    (let (k, found_at, le, elem) = index_from-found (i + 1) xs page j' g in
                      (suc k, ground (arith, found_at, other), ground (arith, le), elem))
              ]
        h
]

-- For a page at some place of the carousel, the index that is found is a place of the page, and no
-- later one.
page_index_first :
    (w : Window) (c : Carousel) (page j : ℕ)
    → w.main_carousel ≡ some c
    → get_elem? c.pages j ≡ some page
    → (k : ℕ) × (pt_window_get_page_index w (some page) ≡ pos k)
      × (k ≤ j)
      × (get_elem? c.pages k ≡ some page)
unfolding pt_window_get_page_index
page_index_first w c page j h g =
    let (k, found_at, le, elem) = index_from-found 0 c.pages page j g in
    (k, ground (arith, h, found_at), le, elem)

get_elem?-lt : (xs : List ℕ) (i : ℕ) → i < length xs → (x : ℕ) × (get_elem? xs i ≡ some x)
get_elem?-lt [] i h = ground (arith, h)
get_elem?-lt (x ∷ xs) zero h = (x, refl)
get_elem?-lt (x ∷ xs) (suc i) h = get_elem?-lt xs i (ground (arith, h))

module _ (w : Window) (c : Carousel) (i : ℕ) (shown : w.main_carousel ≡ some c)
    (at : c.position ≡ i * unit) where
  -- Where the carousel stands at a page, the button forward is visible only if a page follows, and
  -- flipping by one then scrolls to that page; where it is not visible flipping by one does nothing.
  next_flips :
      (get_btn_next_visible c.position (length c.pages) ≡ true
        → (page : ℕ) × (get_elem? c.pages (suc i) ≡ some page)
          × (on_flip_page_activated (pos 1) w ≡ scroll page true w))
      × (get_btn_next_visible c.position (length c.pages) ≡ false
          → on_flip_page_activated (pos 1) w ≡ w)
  unfolding get_btn_next_visible on_flip_page_activated goto_page add_offset
  next_flips = (visible, hidden)
    where
      visible :
          get_btn_next_visible c.position (length c.pages) ≡ true
          → (page : ℕ) × (get_elem? c.pages (suc i) ≡ some page)
            × (on_flip_page_activated (pos 1) w ≡ scroll page true w)
      visible h =
          let (page, elem) = get_elem?-lt c.pages (suc i) (ground (arith, at)) in
          (page, elem, ground (arith, shown, at, elem))

      hidden :
          get_btn_next_visible c.position (length c.pages) ≡ false
          → on_flip_page_activated (pos 1) w ≡ w
      hidden h = ground (arith, shown, at)
