-- ===== src/Fingerprint/Signals.antt =====
-- src/pt-security-settings-fingerprint.c: the signals of biomd.
use furios_initial_setup.Common.{Bool, Option, false, if◌then◌else◌, none, some, true, ◌==◌, ◌∷◌}
use furios_initial_setup.Common.Int.{negsuc, pos, ℤ}
use furios_initial_setup.Fingerprint.State.{
  FingerNames, FingerToast, Fingerprint, general_error, hw_unavailable, imager_dirty, insufficient,
  locked, no_space, partial, refresh_fingerprint_list, reset_fingerprint_subpage_ui, setting,
  show_child, show_finger_toast, timed_out, too_fast, too_slow, unable_to_process, unable_to_remove,
}
use furios_initial_setup.Widgets.{Widget, find_first_stack, first_child, id_of}

-- The errors and the acquisitions of biomd_enums.h; a number that is none of them is the last one.
pub data BiometricError : Type 0 where
  error_no_space error_hw_unavailable error_unable_to_process error_timeout : BiometricError
  error_canceled error_remove error_lockout error_general : BiometricError
  error_finger_not_recognized error_none error_other : BiometricError

pub data BiometricAcquisition : Type 0 where
  acquisition_partial acquisition_imager_dirty acquisition_too_fast : BiometricAcquisition
  acquisition_too_slow acquisition_insufficient acquisition_none : BiometricAcquisition
  acquisition_good acquisition_other : BiometricAcquisition

-- A signal; `StateChanged` is only logged.
pub data FingerSignal : Type 0 where
  enrollment_progress : ℤ → FingerSignal
  enrolled_fingers_changed : FingerSignal
  error_info : BiometricError → FingerSignal
  acquisition_info : BiometricAcquisition → FingerSignal
  other_finger_signal : FingerSignal

abbrev pub show_main : Option Widget → Fingerprint → Fingerprint
show_main none s = s
show_main (some w) s = record s { log = show_child (id_of w) ∷ s.log }

abbrev pub first_child_of : Option Widget → Option Widget
first_child_of none = none
first_child_of (some stack) = first_child stack

-- `switch_parent_page_to_main`, for the page
unfoldable pub switch_parent_page_to_main : Widget → Fingerprint → Fingerprint
switch_parent_page_to_main page s = show_main (first_child_of (find_first_stack page)) s

unfoldable pub error_toast : BiometricError → Option FingerToast
error_toast error_no_space = some no_space
error_toast error_hw_unavailable = some hw_unavailable
error_toast error_unable_to_process = some unable_to_process
error_toast error_timeout = some timed_out
error_toast error_canceled = some timed_out
error_toast error_remove = some unable_to_remove
error_toast error_lockout = some locked
error_toast error_general = some general_error
error_toast error_finger_not_recognized = none
error_toast error_none = none
error_toast error_other = none

abbrev pub ends_enrolment : BiometricError → Bool
ends_enrolment error_finger_not_recognized = false
ends_enrolment error_none = false
ends_enrolment _ = true

unfoldable pub acquisition_toast : BiometricAcquisition → Option FingerToast
acquisition_toast acquisition_partial = some partial
acquisition_toast acquisition_imager_dirty = some imager_dirty
acquisition_toast acquisition_too_fast = some too_fast
acquisition_toast acquisition_too_slow = some too_slow
acquisition_toast acquisition_insufficient = some insufficient
acquisition_toast acquisition_none = none
acquisition_toast acquisition_good = none
acquisition_toast acquisition_other = none

abbrev pub toasted : Option FingerToast → Fingerprint → Fingerprint
toasted none s = s
toasted (some text) s = show_finger_toast text s

abbrev pub is_hundred : ℤ → Bool
is_hundred (pos n) = n == 100
is_hundred (negsuc n) = false

-- `handle_signal`; `names` is what biomd answers, and `page` the page
unfoldable pub handle_signal : FingerNames → Widget → FingerSignal → Fingerprint → Fingerprint
unfolding refresh_fingerprint_list reset_fingerprint_subpage_ui switch_parent_page_to_main
    error_toast acquisition_toast
handle_signal names page (enrollment_progress n) s =
    let shown = record s { enroll_progress = setting n s.enroll_progress } in
    if is_hundred n
    then switch_parent_page_to_main page
        (reset_fingerprint_subpage_ui (refresh_fingerprint_list names shown))
    else shown
handle_signal names page enrolled_fingers_changed s = refresh_fingerprint_list names s
handle_signal names page (error_info e) s =
    let told = toasted (error_toast e) s in
    if ends_enrolment e then reset_fingerprint_subpage_ui told else told
handle_signal names page (acquisition_info a) s = toasted (acquisition_toast a) s
handle_signal names page other_finger_signal s = s
