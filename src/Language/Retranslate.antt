-- ===== src/Language/Retranslate.antt =====
-- src/cc-language-chooser.c: every label of the windows in the language that was chosen.
use furios_initial_setup.Common.{
  Option, String, ap, arith, if◌then◌else◌, none, refl, some, str_eq, ◌≡◌,
}
use furios_initial_setup.Widgets.{
  Children, Widget, child, is_label, label_widget, no_child, plain, stack_widget, widget,
}

-- The text that is put aside for a label, the first time that it is met.
first_text : Option String → String → String
first_text none text = text
first_text (some original) text = original

-- `walk_all_widgets_recursive`, where `translate` is gettext in the locale that is set; a label
-- without a text ends the walk below it.
unfoldable mutual
  unfolding first_text

  pub walk_all_widgets_recursive : (String → String) → Widget → Widget
  walk_all_widgets_recursive translate (widget id name kind text original children) =
      let below = walk_siblings translate children in
      let put_aside = first_text original text in
      if is_label kind
      then if str_eq put_aside ""
        then widget id name kind text (some put_aside) children
        else widget id name kind (translate put_aside) (some put_aside) below
      else widget id name kind text original below

  pub walk_siblings : (String → String) → Children → Children
  walk_siblings translate no_child = no_child
  walk_siblings translate (child w ws) =
      child (walk_all_widgets_recursive translate w) (walk_siblings translate ws)

mutual
  unfolding walk_all_widgets_recursive first_text

  walk_again :
      (t u : String → String) (w : Widget)
      → walk_all_widgets_recursive u (walk_all_widgets_recursive t w)
        ≡ walk_all_widgets_recursive u w
  walk_again t u (widget id name label_widget text none children) =
      ground (arith, siblings_again t u children)
  walk_again t u (widget id name label_widget text (some o) children) =
      ground (arith, siblings_again t u children)
  walk_again t u (widget id name plain text original children) =
      ap (widget id name plain text original) (siblings_again t u children)
  walk_again t u (widget id name stack_widget text original children) =
      ap (widget id name stack_widget text original) (siblings_again t u children)

  siblings_again :
      (t u : String → String) (ws : Children)
      → walk_siblings u (walk_siblings t ws) ≡ walk_siblings u ws
  siblings_again t u no_child = refl
  siblings_again t u (child w ws) = rw (walk_again t u w, siblings_again t u ws) refl

-- The labels after a choice do not depend on the languages that were chosen before: a walk in one
-- language and then a walk in another leave what the second alone does.
pub walk-walk :
    (t u : String → String) (w : Widget)
    → walk_all_widgets_recursive u (walk_all_widgets_recursive t w) ≡ walk_all_widgets_recursive u w
walk-walk = walk_again
