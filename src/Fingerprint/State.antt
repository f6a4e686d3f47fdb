-- ===== src/Fingerprint/State.antt =====
-- src/pt-security-settings-fingerprint.c: the part of the password page's private data that the
-- enrolment of a finger uses, and the list of the fingers.
use furios_initial_setup.Common.{
  Bool, List, Option, String, [], false, if◌then◌else◌, none, some, str_eq, true, ℕ, ◌||◌, ◌∷◌,
}
use furios_initial_setup.Common.Int.{pos, ℤ}
use furios_initial_setup.Widgets.{Widget, child, label_widget, no_child, plain, widget}

-- What a toast says.
pub data FingerToast : Type 0 where
  no_space hw_unavailable unable_to_process timed_out unable_to_remove : FingerToast
  locked general_error : FingerToast
  partial imager_dirty too_fast too_slow insufficient : FingerToast

-- A call that leaves the program. `show_child` is the child that a stack comes to show.
pub data FingerCall : Type 0 where
  finger_toast : FingerToast → FingerCall
  enroll_finger : String → FingerCall
  show_child : ℕ → FingerCall
  show_subpage : FingerCall
  watch_fingerprint : FingerCall

-- A widget that is NULL is `none`; `finger_list` and `enroll_step` come with whether they are visible,
-- and the bar with its fraction, in hundredths. `log` has the newest call first.
pub record Fingerprint : Type 0 where
  pub fingerprint_proxy : Bool
  pub props_proxy : Bool
  pub finger_list : Option Bool
  pub finger_rows : List Widget
  pub enroll_step : Option Bool
  pub enroll_progress : Option ℤ
  pub finger_list_row_activated_id : ℕ
  pub log : List FingerCall

-- What biomd answers to requests for `ValidFingerNames` and `EnrolledFingers`; `none` is a failure.
pub record FingerNames : Type 0 where
  pub valid_names : Option (List String)
  pub enrolled_names : Option (List String)

abbrev pub setting {ℓ} : {A : Type ℓ} → A → Option A → Option A
setting a none = none
setting a (some _) = some a

-- `show_toast`
abbrev pub show_finger_toast : FingerToast → Fingerprint → Fingerprint
show_finger_toast text s = record s { log = finger_toast text ∷ s.log }

-- `reset_fingerprint_subpage_ui`
unfoldable pub reset_fingerprint_subpage_ui : Fingerprint → Fingerprint
reset_fingerprint_subpage_ui s = record s {
  finger_list = setting true s.finger_list;
  enroll_step = setting false s.enroll_step;
  enroll_progress = setting (pos 0) s.enroll_progress;
}

-- `get_enrolled_fingers`
unfoldable pub get_enrolled_fingers : FingerNames → Fingerprint → Option (List String)
get_enrolled_fingers names s = if s.props_proxy then names.enrolled_names else none

-- `get_valid_finger_names`
unfoldable pub get_valid_finger_names : FingerNames → Fingerprint → Option (List String)
get_valid_finger_names names s = if s.props_proxy then names.valid_names else none

-- `create_finger_row`: a box with an icon and a label; new widgets have no name
unfoldable pub create_finger_row : String → Widget
create_finger_row finger_name = widget 0 "" plain "" none (
    child (widget 1 "" plain "" none no_child)
      (child (widget 2 "" label_widget finger_name none no_child) no_child))

-- `g_strv_contains`
unfoldable pub strv_contains : List String → String → Bool
strv_contains [] key = false
strv_contains (k ∷ ks) key = str_eq k key || strv_contains ks key

unfoldable pub is_enrolled : Option (List String) → String → Bool
unfolding strv_contains
is_enrolled none finger_name = false
is_enrolled (some enrolled) finger_name = strv_contains enrolled finger_name

-- The loop of `refresh_fingerprint_list`.
unfoldable pub free_rows : Option (List String) → List String → List Widget
unfolding is_enrolled create_finger_row
free_rows enrolled [] = []
free_rows enrolled (finger_name ∷ rest) =
    let rows = free_rows enrolled rest in
    if is_enrolled enrolled finger_name then rows else create_finger_row finger_name ∷ rows

-- GTK refuses to change a list that is NULL.
with_rows : Option (List String) → Option (List String) → Fingerprint → Fingerprint
unfolding free_rows
with_rows none enrolled s = s
with_rows (some valid) enrolled s = elim s.finger_list [
  | none ↦ s
  | some _ ↦ record s { finger_rows = free_rows enrolled valid }
]

-- `refresh_fingerprint_list`
unfoldable pub refresh_fingerprint_list : FingerNames → Fingerprint → Fingerprint
unfolding with_rows get_valid_finger_names get_enrolled_fingers
refresh_fingerprint_list names s =
    with_rows (get_valid_finger_names names s) (get_enrolled_fingers names s) s
