-- ===== src/Fingerprint/Shown.antt =====
-- src/pt-security-settings-fingerprint.c: what the subpage shows.
use furios_initial_setup.Common.{
  All, Bool, Bool-cases, List, Option, String, [], arith, false, inl, inr, is_some, none, some,
  true, ℕ, ◌∷◌, ◌≡◌, ◌≢◌,
}
use furios_initial_setup.Common.Int.{pos}
use furios_initial_setup.Fingerprint.Signals.{
  FingerSignal, acquisition_info, enrolled_fingers_changed, enrollment_progress, error_info,
  first_child_of, handle_signal, is_hundred, other_finger_signal, show_main,
}
use furios_initial_setup.Fingerprint.State.{
  FingerNames, Fingerprint, refresh_fingerprint_list, reset_fingerprint_subpage_ui, setting,
  show_child,
}
use furios_initial_setup.Fingerprint.Step.{
  EnrollReply, FingerEvent, FingerProxies, enroll_named, finger_activated, finger_run,
  finger_signalled, finger_step, first_label, found_widgets, init_dbus_proxies, open_subpage,
  registers,
}
use furios_initial_setup.Widgets.{
  Widget, children_of, find_child_by_name, find_first_stack, first_child, id_of,
}

-- The list of the fingers and the step of the enrolment: one of them is visible, and not the other, or
-- neither was looked up.
abbrev pub shows_one : Option Bool → Option Bool → Bool
shows_one none none = true
shows_one (some true) (some false) = true
shows_one (some false) (some true) = true
shows_one _ _ = false

abbrev pub OneShown : Fingerprint → Type 0
OneShown s = shows_one s.finger_list s.enroll_step ≡ true

-- The page has the widgets that the subpage looks up.
abbrev pub FindsWidgets : FingerEvent → Type 0
FindsWidgets (registers names page handler p) =
    (is_some (find_child_by_name "finger_list" page) ≡ true)
    × (is_some (find_child_by_name "enroll_step" page) ≡ true)
FindsWidgets (finger_activated reply w) = Unit
FindsWidgets (finger_signalled names page sig) = Unit

reset-OneShown : (s : Fingerprint) → OneShown s → OneShown (reset_fingerprint_subpage_ui s)
unfolding reset_fingerprint_subpage_ui
reset-OneShown s h = ground arith

refresh-OneShown :
    (names : FingerNames) (s : Fingerprint)
    → OneShown s
    → OneShown (refresh_fingerprint_list names s)
unfolding refresh_fingerprint_list
refresh-OneShown names s h = ground arith

main-OneShown : (o : Option Widget) (s : Fingerprint) → OneShown s → OneShown (show_main o s)
main-OneShown none s h = h
main-OneShown (some w) s h = h

signal-OneShown :
    (names : FingerNames) (page : Widget) (sig : FingerSignal) (s : Fingerprint)
    → OneShown s
    → OneShown (handle_signal names page sig s)
unfolding handle_signal
signal-OneShown names page (enrollment_progress n) s h =
    let shown = record s { enroll_progress = setting n s.enroll_progress } in
    let refreshed = refresh_fingerprint_list names shown in
    let kept = reset-OneShown refreshed (refresh-OneShown names shown h) in
    elim (Bool-cases (is_hundred n)) [
      | inl e ↦ rw e (
          main-OneShown (first_child_of (find_first_stack page))
            (reset_fingerprint_subpage_ui refreshed) kept)
      | inr e ↦ rw e h
    ]
signal-OneShown names page enrolled_fingers_changed s h = refresh-OneShown names s h
signal-OneShown names page (error_info e) s h = ground arith
signal-OneShown names page (acquisition_info a) s h = ground arith
signal-OneShown names page other_finger_signal s h = h

activate-OneShown :
    (reply : EnrollReply) (o : Option String) (s : Fingerprint)
    → OneShown s
    → OneShown (enroll_named reply o s)
unfolding enroll_named
activate-OneShown reply none s h = h
activate-OneShown reply (some finger_name) s h = ground arith

found-OneShown :
    (page : Widget) (handler : ℕ) (s : Fingerprint)
    → is_some (find_child_by_name "finger_list" page) ≡ true
    → is_some (find_child_by_name "enroll_step" page) ≡ true
    → OneShown s
    → OneShown (found_widgets page handler s)
unfolding found_widgets
found-OneShown page handler s l e h = ground arith

init-OneShown :
    (p : FingerProxies) (s : Fingerprint) → OneShown s → OneShown (init_dbus_proxies p s).0
unfolding init_dbus_proxies
init-OneShown p s h = ground arith

open-OneShown :
    (names : FingerNames) (r : Fingerprint × Bool) → OneShown r.0 → OneShown (open_subpage names r)
open-OneShown names (s, true) h =
    reset-OneShown (refresh_fingerprint_list names s) (refresh-OneShown names s h)
open-OneShown names (s, false) h = h

step-OneShown :
    (v : FingerEvent) (s : Fingerprint) → FindsWidgets v → OneShown s → OneShown (finger_step v s)
unfolding finger_step
step-OneShown (registers names page handler p) s f h =
    open-OneShown names (init_dbus_proxies p (found_widgets page handler s))
      (init-OneShown p (found_widgets page handler s) (found-OneShown page handler s f.0 f.1 h))
step-OneShown (finger_activated reply w) s f h =
    activate-OneShown reply (first_label (children_of w)) s h
step-OneShown (finger_signalled names page sig) s f h = signal-OneShown names page sig s h

-- Where the page has the widgets, and whatever the user chooses and biomd tells, the subpage shows
-- either the list of the fingers or the step of the enrolment, where it did so before.
pub run-OneShown :
    (s : Fingerprint) (vs : List FingerEvent)
    → All FindsWidgets vs
    → OneShown s
    → OneShown (finger_run s vs)
unfolding finger_run
run-OneShown s [] f h = h
run-OneShown s (v ∷ vs) f h = run-OneShown (finger_step v s) vs f.1 (step-OneShown v s f.0 h)

-- When the enrolment is at 100 of 100, the list of the fingers is shown again, and the stack of the
-- page goes back to its first child.
complete_returns :
    (names : FingerNames) (page stack main : Widget) (s : Fingerprint)
    → find_first_stack page ≡ some stack
    → first_child stack ≡ some main
    → OneShown s
    → let t = handle_signal names page (enrollment_progress (pos 100)) s in
      OneShown t × (t.finger_list ≢ some false) × (t.log ≡ show_child (id_of main) ∷ s.log)
unfolding handle_signal
complete_returns names page stack main s f m h = ground arith
