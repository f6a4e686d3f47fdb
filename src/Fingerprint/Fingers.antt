-- ===== src/Fingerprint/Fingers.antt =====
-- src/pt-security-settings-fingerprint.c: the fingers that can be chosen.
use text.Mathlib.TextEquality.{eq_iff}
use furios_initial_setup.Common.{
  Bool, List, Option, String, [], ap, arith, false, is_some, none, not, refl, some, str_eq, true,
  ◌&&◌, ◌||◌, ◌∷◌, ◌≡◌, ◌≢◌,
}
use furios_initial_setup.Fingerprint.State.{
  FingerNames, Fingerprint, create_finger_row, enroll_finger, free_rows, is_enrolled,
  refresh_fingerprint_list, strv_contains,
}
use furios_initial_setup.Fingerprint.Step.{
  EnrollReply, first_label, is_started, on_finger_activated,
}
use furios_initial_setup.Widgets.{Widget, children_of}

-- Whether a row is there whose activation enrols the finger.
abbrev is_for : String → Option String → Bool
is_for key none = false
is_for key (some finger_name) = str_eq finger_name key

abbrev pub has_row : String → List Widget → Bool
has_row key [] = false
has_row key (row ∷ rows) = is_for key (first_label (children_of row)) || has_row key rows

-- `strcmp` says that two names are equal only where they are.
is_enrolled_eq :
    (enrolled : Option (List String)) (a b : String)
    → str_eq a b ≡ true
    → is_enrolled enrolled a ≡ is_enrolled enrolled b
is_enrolled_eq enrolled a b h = ap (is_enrolled enrolled) ((eq_iff a b).0 h)

has_row-free_rows :
    (enrolled : Option (List String)) (valid : List String) (key : String)
    → has_row key (free_rows enrolled valid)
      ≡ (strv_contains valid key && not (is_enrolled enrolled key))
unfolding free_rows strv_contains first_label
has_row-free_rows enrolled [] key = refl
has_row-free_rows enrolled (a ∷ valid) key =
    ground (arith, is_enrolled_eq enrolled a key, has_row-free_rows enrolled valid key)

-- After a refresh, with the list there and an answer of biomd to both requests, a finger has a row to
-- choose it by exactly when biomd knows it and does not have it among those that are enrolled.
pub refresh_has_row :
    (names : FingerNames) (valid enrolled : List String) (s : Fingerprint) (key : String)
    → s.props_proxy ≡ true
    → is_some s.finger_list ≡ true
    → names.valid_names ≡ some valid
    → names.enrolled_names ≡ some enrolled
    → has_row key (refresh_fingerprint_list names s).finger_rows
      ≡ (strv_contains valid key && not (strv_contains enrolled key))
unfolding refresh_fingerprint_list is_enrolled
refresh_has_row names valid enrolled s key p l v e =
    ground (arith, has_row-free_rows (some enrolled) valid key)

-- The row of a finger, when it is activated, asks biomd to enrol that finger, and shows the step of the
-- enrolment if biomd starts it, the list of the fingers if not.
activate_row :
    (reply : EnrollReply) (finger_name : String) (s : Fingerprint)
    → s.fingerprint_proxy ≡ true
    → s.finger_list ≢ none
    → let t = on_finger_activated reply (create_finger_row finger_name) s in
      (t.log ≡ enroll_finger finger_name ∷ s.log) × (t.finger_list ≡ some (not (is_started reply)))
unfolding on_finger_activated create_finger_row
activate_row reply finger_name s p n = ground arith
