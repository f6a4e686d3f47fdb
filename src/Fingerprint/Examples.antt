-- ===== src/Fingerprint/Examples.antt =====
-- src/pt-security-settings-fingerprint.c: a page with its subpage, and the theorems at it.
use furios_initial_setup.Common.{
  List, String, [], false, none, not, refl, some, true, ℕ, ◌&&◌, ◌∷◌, ◌≡◌,
}
use furios_initial_setup.Common.Int.{pos}
use furios_initial_setup.Fingerprint.Fingers.{has_row, refresh_has_row}
use furios_initial_setup.Fingerprint.Shown.{OneShown, run-OneShown}
use furios_initial_setup.Fingerprint.Signals.{enrollment_progress, error_canceled, error_info}
use furios_initial_setup.Fingerprint.State.{
  FingerNames, Fingerprint, create_finger_row, enroll_finger, finger_toast,
  refresh_fingerprint_list, show_child, show_subpage, strv_contains, timed_out, watch_fingerprint,
}
use furios_initial_setup.Fingerprint.Step.{
  FingerEvent, both_proxies, enroll_failed, enroll_returned, finger_activated, finger_run,
  finger_signalled, registers,
}
use furios_initial_setup.Widgets.{
  Children, Widget, child, find_child_by_name, find_first_stack, is_stack, kind_of, no_child, plain,
  stack_widget, widget,
}
use furios_initial_setup.Widgets.Preorder.{first, preorder, searches_preorder}

-- A widget with a name, and one that is a stack.
abbrev named : ℕ → String → Children → Widget
named id name children = widget id name plain "" none children

abbrev main_page : Widget
main_page = named 2 "main" no_child

abbrev stack : Widget
stack = widget 1 "" stack_widget "" none (
    child main_page (
      child
        (named 3 "toast_overlay" (
          child (named 4 "finger_list" no_child) (
            child (named 5 "enroll_step" (child (named 6 "enroll_progress" no_child) no_child))
              no_child)))
        no_child))

abbrev page : Widget
page = named 0 "page" (child stack no_child)

abbrev finger_names : FingerNames
finger_names = record {
  valid_names = some ("thumb" ∷ "index" ∷ "ring" ∷ []);
  enrolled_names = some ("index" ∷ []);
}

abbrev no_fingers : Fingerprint
no_fingers = record {
  fingerprint_proxy = false;
  props_proxy = false;
  finger_list = none;
  finger_rows = [];
  enroll_step = none;
  enroll_progress = none;
  finger_list_row_activated_id = 0;
  log = [];
}

abbrev ready_fingers : Fingerprint
ready_fingers = record no_fingers {
  fingerprint_proxy = true;
  props_proxy = true;
  finger_list = some true;
  enroll_step = some false;
  enroll_progress = some (pos 0);
}

abbrev finger_events : List FingerEvent
finger_events =
    registers finger_names page 7 both_proxies
    ∷ finger_activated (enroll_returned true) (create_finger_row "ring")
    ∷ finger_signalled finger_names page (enrollment_progress (pos 40))
    ∷ finger_signalled finger_names page (error_info error_canceled)
    ∷ finger_activated enroll_failed (create_finger_row "thumb")
    ∷ finger_signalled finger_names page (enrollment_progress (pos 100))
    ∷ []

finger_events_run :
    (finger_run no_fingers finger_events).log
    ≡ show_child 2
      ∷ enroll_finger "thumb"
      ∷ finger_toast timed_out
      ∷ enroll_finger "ring"
      ∷ show_subpage
      ∷ watch_fingerprint
      ∷ []
unfolding finger_run create_finger_row find_first_stack
finger_events_run = refl

refresh_has_row_example :
    has_row "ring" (refresh_fingerprint_list finger_names ready_fingers).finger_rows ≡ (
      strv_contains ("thumb" ∷ "index" ∷ "ring" ∷ []) "ring"
      && not (strv_contains ("index" ∷ []) "ring"))
refresh_has_row_example =
    refresh_has_row finger_names ("thumb" ∷ "index" ∷ "ring" ∷ []) ("index" ∷ []) ready_fingers
      "ring" refl refl refl refl

run-OneShown_example : OneShown (finger_run no_fingers finger_events)
unfolding find_child_by_name
run-OneShown_example =
    run-OneShown no_fingers finger_events ((refl, refl), (tt, (tt, (tt, (tt, (tt, tt)))))) refl

searches_preorder_example :
    find_first_stack page ≡ first (λ v. is_stack (kind_of v)) (preorder page)
searches_preorder_example = (searches_preorder "finger_list" page).1
