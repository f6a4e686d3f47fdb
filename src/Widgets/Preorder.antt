-- ===== src/Widgets/Preorder.antt =====
-- src/pt-security-settings-fingerprint.c, src/pt-security-settings-face.c: the searches in the tree of
-- widgets, against the list of the widgets in preorder.
use furios_initial_setup.Common.{
  Bool, List, Option, String, [], arith, if◌then◌else◌, none, refl, some, str_eq, ◌++◌, ◌∷◌, ◌≡◌,
}
use furios_initial_setup.Widgets.{
  Children, Widget, child, find_child_by_name, find_first_stack, find_in_children, first_stack_in,
  is_stack, kind_of, name_of, no_child, or_else, widget,
}

-- A widget comes before its children, and they before its next sibling.
mutual
  pub preorder : Widget → List Widget
  preorder (widget id name kind text original children) =
      widget id name kind text original children ∷ preorder_children children

  preorder_children : Children → List Widget
  preorder_children no_child = []
  preorder_children (child w ws) = preorder w ++ preorder_children ws

-- The first widget of a list that passes a test.
pub first : (Widget → Bool) → List Widget → Option Widget
first p [] = none
first p (w ∷ ws) = if p w then some w else first p ws

first-append :
    (p : Widget → Bool) (xs ys : List Widget)
    → first p (xs ++ ys) ≡ or_else (first p xs) (first p ys)
unfolding first
first-append p [] ys = refl
first-append p (x ∷ xs) ys = ground (arith, first-append p xs ys)

mutual
  unfolding find_child_by_name preorder first

  by_name :
      (key : String) (w : Widget)
      → find_child_by_name key w ≡ first (λ v. str_eq key (name_of v)) (preorder w)
  by_name key (widget id name kind text original children) = ground (arith, by_name_in key children)

  by_name_in :
      (key : String) (ws : Children)
      → find_in_children key ws ≡ first (λ v. str_eq key (name_of v)) (preorder_children ws)
  by_name_in key no_child = refl
  by_name_in key (child w ws) = rw (
    first-append (λ v. str_eq key (name_of v)) (preorder w) (preorder_children ws),
    by_name key w,
    by_name_in key ws,
  )

mutual
  unfolding find_first_stack preorder first

  by_kind : (w : Widget) → find_first_stack w ≡ first (λ v. is_stack (kind_of v)) (preorder w)
  by_kind (widget id name kind text original children) = ground (arith, by_kind_in children)

  by_kind_in :
      (ws : Children) → first_stack_in ws ≡ first (λ v. is_stack (kind_of v)) (preorder_children ws)
  by_kind_in no_child = refl
  by_kind_in (child w ws) = rw (
    first-append (λ v. is_stack (kind_of v)) (preorder w) (preorder_children ws),
    by_kind w,
    by_kind_in ws,
  )

-- Both searches find the first widget in preorder that they look for, and none exactly where there is
-- none: the search by name the first of that name, the other the first stack.
pub searches_preorder :
    (key : String) (w : Widget)
    → (find_child_by_name key w ≡ first (λ v. str_eq key (name_of v)) (preorder w))
      × (find_first_stack w ≡ first (λ v. is_stack (kind_of v)) (preorder w))
searches_preorder key w = (by_name key w, by_kind w)
