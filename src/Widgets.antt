-- ===== src/Widgets.antt =====
-- The tree of widgets, as GTK shows it: what the pages search and walk through.
pub mod Preorder
use furios_initial_setup.Common.{
  Bool, Option, String, false, if◌then◌else◌, none, some, str_eq, true, ℕ,
}

pub data Kind : Type 0 where
  plain stack_widget label_widget : Kind

-- A widget is named by a number, and has its name, its kind, the text of a label with the one that it
-- had first, if that was put aside, and its children from first to last.
mutual
  pub data Widget : Type 0 where
    widget : ℕ → String → Kind → String → Option String → Children → Widget

  pub data Children : Type 0 where
    no_child : Children
    child : Widget → Children → Children

abbrev pub is_stack : Kind → Bool
is_stack stack_widget = true
is_stack plain = false
is_stack label_widget = false

abbrev pub id_of : Widget → ℕ
id_of (widget id name kind text original children) = id

abbrev pub text_of : Widget → String
text_of (widget id name kind text original children) = text

abbrev pub children_of : Widget → Children
children_of (widget id name kind text original children) = children

abbrev pub name_of : Widget → String
name_of (widget id name kind text original children) = name

abbrev pub kind_of : Widget → Kind
kind_of (widget id name kind text original children) = kind

abbrev pub is_label : Kind → Bool
is_label label_widget = true
is_label plain = false
is_label stack_widget = false

-- `gtk_widget_get_first_child`
abbrev pub first_child : Widget → Option Widget
first_child (widget id name kind text original no_child) = none
first_child (widget id name kind text original (child w ws)) = some w

abbrev pub or_else : Option Widget → Option Widget → Option Widget
or_else none r = r
or_else (some found) r = some found

-- `find_child_by_name`
unfoldable mutual
  pub find_child_by_name : String → Widget → Option Widget
  find_child_by_name key (widget id name kind text original children) =
      let below = find_in_children key children in
      if str_eq key name then some (widget id name kind text original children) else below

  pub find_in_children : String → Children → Option Widget
  find_in_children key no_child = none
  find_in_children key (child w ws) = or_else (find_child_by_name key w) (find_in_children key ws)

-- `find_first_stack`
unfoldable mutual
  pub find_first_stack : Widget → Option Widget
  find_first_stack (widget id name kind text original children) =
      let below = first_stack_in children in
      if is_stack kind then some (widget id name kind text original children) else below

  pub first_stack_in : Children → Option Widget
  first_stack_in no_child = none
  first_stack_in (child w ws) = or_else (find_first_stack w) (first_stack_in ws)
