-- ===== src/Fingerprint/Step.antt =====
-- src/pt-security-settings-fingerprint.c: the choice of a finger, the start and the end, and every entry
-- as one step function.
use furios_initial_setup.Biomd.{SyncReply, answer_or_false}
use furios_initial_setup.Common.{
  Bool, List, Option, String, [], false, if◌then◌else◌, is_some, none, not, some, true, ℕ, ◌&&◌,
  ◌==◌, ◌∷◌,
}
use furios_initial_setup.Common.Int.{pos}
use furios_initial_setup.Fingerprint.Signals.{FingerSignal, handle_signal}
use furios_initial_setup.Fingerprint.State.{
  FingerNames, Fingerprint, enroll_finger, refresh_fingerprint_list, reset_fingerprint_subpage_ui,
  setting, show_subpage, watch_fingerprint,
}
use furios_initial_setup.Widgets.{
  Children, Widget, child, children_of, find_child_by_name, is_label, kind_of, no_child, text_of,
}

-- The answer to the request to enrol.
pub data EnrollReply : Type 0 where
  enroll_failed : EnrollReply
  enroll_returned : Bool → EnrollReply

-- The first label among the children.
unfoldable pub first_label : Children → Option String
first_label no_child = none
first_label (child w ws) =
    let rest = first_label ws in if is_label (kind_of w) then some (text_of w) else rest

-- `fingerprint_enroll`: the state, and whether the enrolment was started
unfoldable pub fingerprint_enroll : EnrollReply → String → Fingerprint → Fingerprint × Bool
fingerprint_enroll reply finger_name s = if not s.fingerprint_proxy then (s, false) else (
  record s { log = enroll_finger finger_name ∷ s.log },
  elim reply [ enroll_failed ↦ false | enroll_returned b ↦ b ],
)

abbrev pub begin_step : Fingerprint → Fingerprint
begin_step s = record s {
  enroll_progress = setting (pos 0) s.enroll_progress;
  finger_list = setting false s.finger_list;
  enroll_step = setting true s.enroll_step;
}

abbrev pub after_enroll : Fingerprint × Bool → Fingerprint
after_enroll (s, true) = s
after_enroll (s, false) = reset_fingerprint_subpage_ui s

unfoldable pub enroll_named : EnrollReply → Option String → Fingerprint → Fingerprint
unfolding fingerprint_enroll reset_fingerprint_subpage_ui
enroll_named reply none s = s
enroll_named reply (some finger_name) s =
    after_enroll (fingerprint_enroll reply finger_name (begin_step s))

-- `on_finger_activated`, for the child of the row
unfoldable pub on_finger_activated : EnrollReply → Widget → Fingerprint → Fingerprint
unfolding enroll_named first_label
on_finger_activated reply w s = enroll_named reply (first_label (children_of w)) s

-- How creating the two proxies goes.
pub data FingerProxies : Type 0 where
  no_fingerprint_proxy no_props_proxy both_proxies : FingerProxies

-- `init_dbus_proxies`
unfoldable pub init_dbus_proxies : FingerProxies → Fingerprint → Fingerprint × Bool
init_dbus_proxies p s = if s.fingerprint_proxy && s.props_proxy then (s, true) else elim p [
  | no_fingerprint_proxy ↦ (record s { fingerprint_proxy = false }, false)
  | no_props_proxy ↦ (record s { fingerprint_proxy = false; props_proxy = false }, false)
  | both_proxies ↦ (
    record s { fingerprint_proxy = true; props_proxy = true; log = watch_fingerprint ∷ s.log },
    true,
  )
]

-- A widget that is found keeps what it shows.
found_widget {ℓ} : {A : Type ℓ} → A → Option Widget → Option A → Option A
found_widget a none old = none
found_widget a (some w) none = some a
found_widget a (some w) (some b) = some b

-- The widgets of the subpage, looked up by their names.
unfoldable pub found_widgets : Widget → ℕ → Fingerprint → Fingerprint
unfolding found_widget find_child_by_name
found_widgets page handler s =
    let list = found_widget true (find_child_by_name "finger_list" page) s.finger_list in
    record s {
      finger_list = list;
      enroll_step = found_widget false (find_child_by_name "enroll_step" page) s.enroll_step;
      enroll_progress =
          found_widget (pos 0) (find_child_by_name "enroll_progress" page) s.enroll_progress;
      finger_list_row_activated_id =
          if is_some list && s.finger_list_row_activated_id == 0
          then handler
          else s.finger_list_row_activated_id;
    }

abbrev pub open_subpage : FingerNames → Fingerprint × Bool → Fingerprint
open_subpage names (s, true) =
    let t = reset_fingerprint_subpage_ui (refresh_fingerprint_list names s) in
    record t { log = show_subpage ∷ t.log }
open_subpage names (s, false) = s

-- `pt_security_settings_register_fingerprint`; `handler` is the handle of the signal handler
unfoldable pub pt_security_settings_register_fingerprint :
    FingerNames → Widget → ℕ → FingerProxies → Fingerprint → Fingerprint
unfolding found_widgets init_dbus_proxies refresh_fingerprint_list reset_fingerprint_subpage_ui
pt_security_settings_register_fingerprint names page handler p s =
    open_subpage names (init_dbus_proxies p (found_widgets page handler s))

-- `ping_biomd`
unfoldable pub ping_biomd : SyncReply → Bool
ping_biomd reply = answer_or_false reply

-- `fingerprint_hardware_available`
unfoldable pub fingerprint_hardware_available : SyncReply → Bool
fingerprint_hardware_available reply = answer_or_false reply

-- `pt_security_settings_fingerprint_available`
unfoldable pub pt_security_settings_fingerprint_available : SyncReply → SyncReply → Bool
unfolding ping_biomd fingerprint_hardware_available
pt_security_settings_fingerprint_available ping hardware =
    ping_biomd ping && fingerprint_hardware_available hardware

-- `pt_security_settings_fingerprint_finalize`
unfoldable pub pt_security_settings_fingerprint_finalize : Fingerprint → Fingerprint
pt_security_settings_fingerprint_finalize s = record s {
  finger_list_row_activated_id =
      if is_some s.finger_list then 0 else s.finger_list_row_activated_id;
  fingerprint_proxy = false;
  props_proxy = false;
}

-- What the user does, and what biomd tells.
pub data FingerEvent : Type 0 where
  registers : FingerNames → Widget → ℕ → FingerProxies → FingerEvent
  finger_activated : EnrollReply → Widget → FingerEvent
  finger_signalled : FingerNames → Widget → FingerSignal → FingerEvent

unfoldable pub finger_step : FingerEvent → Fingerprint → Fingerprint
unfolding pt_security_settings_register_fingerprint on_finger_activated handle_signal
finger_step (registers names page handler p) s =
    pt_security_settings_register_fingerprint names page handler p s
finger_step (finger_activated reply w) s = on_finger_activated reply w s
finger_step (finger_signalled names page sig) s = handle_signal names page sig s

unfoldable pub finger_run : Fingerprint → List FingerEvent → Fingerprint
unfolding finger_step
finger_run s [] = s
finger_run s (v ∷ vs) = finger_run (finger_step v s) vs

abbrev pub is_started : EnrollReply → Bool
is_started enroll_failed = false
is_started (enroll_returned b) = b
