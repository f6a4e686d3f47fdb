-- ===== src/Page/Properties.antt =====
-- src/pt-page.c: the properties of a page.
use furios_initial_setup.Common.{
  Bool, List, Option, [], if◌then◌else◌, is_pointer, leb, length, none, some, ℕ, ◌++◌, ◌==◌, ◌∷◌,
}
use furios_initial_setup.Common.Bytes.{Bytes}
use furios_initial_setup.Common.Slices.{drop}
use furios_initial_setup.Page.{
  PtPage, no_picture, pt_page_set_widget, resource, set_property_can_proceed,
}

-- `g_string_new (text)->str`
abbrev label_text : Option Bytes → Bytes
label_text none = []
label_text (some text) = text

-- `pt_page_set_summary`
unfoldable pub pt_page_set_summary : Option Bytes → PtPage → PtPage
pt_page_set_summary summary s = record s { lbl_summary = label_text summary }

-- `pt_page_set_explanation`
unfoldable pub pt_page_set_explanation : Option Bytes → PtPage → PtPage
pt_page_set_explanation explanation s = record s { lbl_explanation = label_text explanation }

-- `&uri[strlen ("resource://")]`, where it is in the text or at its end
unfoldable pub resource_path : Bytes → Option Bytes
unfolding drop
resource_path uri = if leb 11 (length uri) then some (drop 11 uri) else none

-- `pt_page_set_image_uri`
unfoldable pub pt_page_set_image_uri : Option Bytes → PtPage → PtPage
unfolding resource_path
pt_page_set_image_uri none s = record s { image_uri = none; image = no_picture }
pt_page_set_image_uri (some uri) s = record s {
  image_uri = some uri;
  image = resource (resource_path uri);
}

-- `pt_page_finalize`
unfoldable pub pt_page_finalize : PtPage → PtPage
pt_page_finalize s = record s { image_uri = none }

-- `pt_page_get_can_proceed` and `pt_page_get_widget`
unfoldable pub pt_page_get_can_proceed : PtPage → Bool
pt_page_get_can_proceed s = s.can_proceed

unfoldable pub pt_page_get_widget : PtPage → Option ℕ
pt_page_get_widget s = s.widget

-- The properties, and the type of the values of each.
pub data Property : Type 0 where
  prop_summary prop_explanation prop_image_uri prop_widget prop_subpage prop_can_proceed : Property

abbrev pub ValueOf : Property → Type 0
ValueOf prop_summary = Option Bytes
ValueOf prop_explanation = Option Bytes
ValueOf prop_image_uri = Option Bytes
ValueOf prop_widget = Option ℕ
ValueOf prop_subpage = Option ℕ
ValueOf prop_can_proceed = Bool

-- `gtk_stack_remove`, for a child with the name "subpage"
abbrev stack_remove : ℕ → List ℕ → List ℕ
stack_remove page [] = []
stack_remove page (q ∷ qs) = let rest = stack_remove page qs in if page == q then qs else q ∷ rest

abbrev unless_removed : ℕ → Option ℕ → Option ℕ
unless_removed page visible = if is_pointer page visible then none else visible

module _ (named : List ℕ → Option ℕ) where
  -- `pt_page_get_subpage`
  unfoldable pub pt_page_get_subpage : PtPage → Option ℕ
  pt_page_get_subpage s = named s.subpages

  -- `pt_page_set_subpage`
  unfoldable pub pt_page_set_subpage : Option ℕ → PtPage → PtPage
  pt_page_set_subpage (some subpage) s = record s { subpages = s.subpages ++ subpage ∷ [] }
  pt_page_set_subpage none s = elim (named s.subpages) [
    | none ↦ s
    | some page ↦ record s {
      subpages = stack_remove page s.subpages;
      visible_subpage = unless_removed page s.visible_subpage;
    }
  ]

  -- `pt_page_get_property`
  unfoldable pub pt_page_get_property : (p : Property) → PtPage → ValueOf p
  unfolding pt_page_get_can_proceed pt_page_get_widget pt_page_get_subpage
  pt_page_get_property prop_summary s = some s.lbl_summary
  pt_page_get_property prop_explanation s = some s.lbl_explanation
  pt_page_get_property prop_image_uri s = s.image_uri
  pt_page_get_property prop_widget s = pt_page_get_widget s
  pt_page_get_property prop_subpage s = pt_page_get_subpage s
  pt_page_get_property prop_can_proceed s = s.can_proceed

  -- `pt_page_set_property`
  unfoldable pub pt_page_set_property : (p : Property) → ValueOf p → PtPage → PtPage
  unfolding pt_page_set_summary pt_page_set_explanation pt_page_set_image_uri pt_page_set_widget
      pt_page_set_subpage set_property_can_proceed
  pt_page_set_property prop_summary v s = pt_page_set_summary v s
  pt_page_set_property prop_explanation v s = pt_page_set_explanation v s
  pt_page_set_property prop_image_uri v s = pt_page_set_image_uri v s
  pt_page_set_property prop_widget v s = pt_page_set_widget v s
  pt_page_set_property prop_subpage v s = pt_page_set_subpage v s
  pt_page_set_property prop_can_proceed v s = set_property_can_proceed v s
