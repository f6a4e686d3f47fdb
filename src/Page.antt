-- ===== src/Page.antt =====
-- src/pt-page.c: a page, with what it can show in its place.
pub mod Properties
pub mod Laws
pub mod Examples
use furios_initial_setup.Common.{
  Bool, List, Option, [], if◌then◌else◌, is_pointer, none, some, true, ℕ, ◌∷◌,
}
use furios_initial_setup.Common.Bytes.{Bytes}

-- A call that leaves the page.
pub data PageCall : Type 0 where
  notify_can_proceed : PageCall
  notify_position : PageCall
  activated : ℕ → PageCall
  unfocus : PageCall

-- What the picture shows: nothing, or a resource by its path, which is `none` where the path would begin
-- behind the end of the text.
pub data Picture : Type 0 where
  no_picture : Picture
  resource : Option Bytes → Picture

-- `PtPagePrivate`: the labels, the image, the children of the stack that have the name "subpage", in the
-- order in which they were added, the one of them that is visible, and the widget of the page.
pub record PtPage : Type 0 where
  pub lbl_summary : Bytes
  pub lbl_explanation : Bytes
  pub image_uri : Option Bytes
  pub image : Picture
  pub subpages : List ℕ
  pub visible_subpage : Option ℕ
  pub can_proceed : Bool
  pub widget : Option ℕ
  pub page_log : List PageCall

-- `pt_page_init`
unfoldable pub pt_page_init : PtPage
pt_page_init = record {
  lbl_summary = [];
  lbl_explanation = [];
  image_uri = none;
  image = no_picture;
  subpages = [];
  visible_subpage = none;
  can_proceed = true;
  widget = none;
  page_log = [];
}

-- `pt_page_set_can_proceed`
unfoldable pub pt_page_set_can_proceed : Bool → PtPage → PtPage
pt_page_set_can_proceed b s = record s {
  can_proceed = b;
  page_log = notify_can_proceed ∷ s.page_log;
}

-- `pt_page_set_property` for the property can-proceed
unfoldable pub set_property_can_proceed : Bool → PtPage → PtPage
set_property_can_proceed b s = record s {
  can_proceed = b;
  page_log = notify_position ∷ (notify_can_proceed ∷ s.page_log);
}

-- `pt_page_set_widget`
unfoldable pub pt_page_set_widget : Option ℕ → PtPage → PtPage
pt_page_set_widget none s = s
pt_page_set_widget (some w) s = record s { widget = some w }

-- `named` is `gtk_stack_get_child_by_name` for the name "subpage", on the children that have it.
module _ (named : List ℕ → Option ℕ) where
  -- `pt_page_switch_to_subpage`
  unfoldable pub pt_page_switch_to_subpage : PtPage → PtPage
  pt_page_switch_to_subpage s = elim (named s.subpages) [
    | none ↦ s
    | some page ↦ if is_pointer page s.visible_subpage then s else record s {
      visible_subpage = some page;
      page_log = unfocus ∷ (activated page ∷ s.page_log);
    }
  ]
