-- ===== src/Page/Examples.antt =====
-- src/pt-page.c: a page with a subpage, and the theorem at it.
use furios_initial_setup.Common.{List, Option, [], arith, none, refl, some, ℕ, ◌∷◌, ◌≡◌}
use furios_initial_setup.Common.Bytes.{bytes}
use furios_initial_setup.Common.Slices.{drop}
use furios_initial_setup.Page.{PtPage, pt_page_init}
use furios_initial_setup.Page.Laws.{get-set}
use furios_initial_setup.Page.Properties.{
  prop_subpage, prop_summary, prop_widget, pt_page_get_property, pt_page_set_property,
  resource_path,
}

abbrev first_named : List ℕ → Option ℕ
first_named [] = none
first_named (page ∷ pages) = some page

abbrev page : PtPage
page = record pt_page_init { subpages = 7 ∷ []; visible_subpage = some 7; widget = some 3 }

get-set_example :
    (pt_page_get_property first_named prop_widget
        (pt_page_set_property first_named prop_subpage none page)
      ≡ pt_page_get_property first_named prop_widget page)
    × (pt_page_get_property first_named prop_subpage
          (pt_page_set_property first_named prop_subpage none page)
        ≡ none)
get-set_example =
    let (other, kept) =
      get-set first_named refl (λ page. refl) prop_subpage prop_widget none page in
    (other (λ e. ground (arith, e)), kept (omega arith))

-- A label that is set to NULL reads as the empty text.
null_label :
    pt_page_get_property first_named prop_summary
      (pt_page_set_property first_named prop_summary none page)
    ≡ some []
unfolding pt_page_get_property pt_page_set_property
null_label = refl

-- The path of a resource begins behind the scheme; a text that is shorter than the scheme has none.
resource_paths :
    (resource_path (bytes "resource:///a.svg") ≡ some (bytes "/a.svg"))
    × (resource_path (bytes "a.svg") ≡ none)
unfolding resource_path drop
resource_paths = (refl, refl)
