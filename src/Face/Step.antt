-- ===== src/Face/Step.antt =====
-- src/pt-security-settings-face.c: the start and the end of the page, and every entry as one step
-- function.
use furios_initial_setup.Biomd.{SyncReply, answer_or_false}
use furios_initial_setup.Common.{
  Bool, List, Option, String, [], false, if◌then◌else◌, none, not, some, suc, true, zero, ℕ, ◌&&◌,
  ◌+◌, ◌||◌, ◌∷◌,
}
use furios_initial_setup.Common.Int.{negsuc, pos}
use furios_initial_setup.Face.Agent.{
  AgentSignal, CameraStart, FaceSignal, agent_proxy_created_cb, close_camera_step, create_agent_cb,
  destroy_face_agent, on_agent_signal, on_face_enroll_clicked, on_face_signal, register_agent_cb,
  start_enrollment_cb,
}
use furios_initial_setup.Face.Frames.{Frame, Memory, on_new_sample, submit_frame_cb}
use furios_initial_setup.Face.State.{
  EnrollmentState, Face, PropertyReply, Reply, boolean_value, int32_value, other_value,
  property_failed, update_face_enrolled, update_face_row,
}

-- How creating the two proxies goes.
pub data FaceProxies : Type 0 where
  no_face_proxy no_face_props_proxy both_face_proxies : FaceProxies

-- `init_face_dbus_proxies`
unfoldable pub init_face_dbus_proxies : FaceProxies → Face → Face × Bool
init_face_dbus_proxies p s = if s.face_proxy && s.face_props_proxy then (s, true) else elim p [
  | no_face_proxy ↦ (record s { face_proxy = false }, false)
  | no_face_props_proxy ↦ (record s { face_proxy = false; face_props_proxy = false }, false)
  | both_face_proxies ↦ (record s { face_proxy = true; face_props_proxy = true }, true)
]

is_implemented : PropertyReply → Bool
is_implemented (int32_value (pos zero)) = false
is_implemented (int32_value (pos (suc n))) = true
is_implemented (int32_value (negsuc n)) = true
is_implemented property_failed = false
is_implemented (boolean_value b) = false
is_implemented other_value = false

-- `update_face_available`
unfoldable pub update_face_available : PropertyReply → Face → Face × Bool
unfolding is_implemented
update_face_available reply s =
    if s.face_props_proxy
    then (record s { face_available = is_implemented reply }, is_implemented reply)
    else (s, false)

-- `ping_biomd`
unfoldable pub ping_biomd : SyncReply → Bool
ping_biomd reply = answer_or_false reply

-- `pt_security_settings_face_available`
unfoldable pub pt_security_settings_face_available :
    SyncReply → FaceProxies → PropertyReply → PropertyReply → Face → Face × Bool
unfolding ping_biomd init_face_dbus_proxies update_face_available update_face_enrolled
    update_face_row
pt_security_settings_face_available ping p implementation enrolled s =
    if not (ping_biomd ping)
    then (s, false)
    else let (connected, ok) = init_face_dbus_proxies p s in
      if not ok
      then (connected, false)
      else let (asked, available) = update_face_available implementation connected in
        if available
        then (update_face_row (update_face_enrolled enrolled asked), true)
        else (asked, false)

-- The widgets that are found by their names.
pub record FaceWidgets : Type 0 where
  pub has_overlay : Bool
  pub has_sheet : Bool
  pub has_cancel_button : Bool

found_sheet : Bool → Option Bool → Option Bool
found_sheet false old = none
found_sheet true none = some false
found_sheet true (some is_open) = some is_open

-- `pt_security_settings_register_face`
unfoldable pub pt_security_settings_register_face :
    FaceWidgets → PropertyReply → CameraStart → Face → Face
unfolding found_sheet
pt_security_settings_register_face w enrolled c s = on_face_enroll_clicked enrolled c (record s {
  toast_overlay = s.toast_overlay || w.has_overlay;
  face_bottom_sheet = found_sheet w.has_sheet s.face_bottom_sheet;
  cancel_handlers = if w.has_cancel_button then s.cancel_handlers + 1 else s.cancel_handlers;
})

-- The handlers of the button that cancels, each of them `on_face_cancel_clicked`.
unfoldable pub cancel_each : ℕ → Face → Face
cancel_each zero s = s
cancel_each (suc n) s = cancel_each n (close_camera_step s)

-- `pt_security_settings_face_finalize`
unfoldable pub pt_security_settings_face_finalize : Face → Face
unfolding destroy_face_agent
pt_security_settings_face_finalize s = record (destroy_face_agent s) {
  face_camera_pipeline = none;
  face_appsink = false;
  face_proxy = false;
  face_props_proxy = false;
}

-- A callback with what it is told, or an input of the user.
pub data FaceEvent : Type 0 where
  row_clicked : FaceWidgets → PropertyReply → CameraStart → FaceEvent
  cancel_clicked : FaceEvent
  agent_created : Option String → FaceEvent
  agent_proxy_created : Option ℕ → FaceEvent
  agent_registered : Reply → FaceEvent
  enrollment_called : Reply → FaceEvent
  agent_signalled : AgentSignal → FaceEvent
  face_signalled : FaceSignal → FaceEvent
  new_sample : ℕ → Memory → Option Frame → FaceEvent
  frame_answered : FaceEvent

module _ (decode : ℕ → EnrollmentState) where
  unfoldable pub face_step : FaceEvent → Face → Face
  unfolding pt_security_settings_register_face create_agent_cb agent_proxy_created_cb
      register_agent_cb start_enrollment_cb on_agent_signal on_face_signal on_new_sample
      submit_frame_cb
  face_step (row_clicked w enrolled c) s = pt_security_settings_register_face w enrolled c s
  face_step cancel_clicked s = cancel_each s.cancel_handlers s
  face_step (agent_created p) s = create_agent_cb p s
  face_step (agent_proxy_created p) s = agent_proxy_created_cb p s
  face_step (agent_registered reply) s = register_agent_cb reply s
  face_step (enrollment_called reply) s = start_enrollment_cb reply s
  face_step (agent_signalled sig) s = on_agent_signal decode sig s
  face_step (face_signalled sig) s = on_face_signal sig s
  face_step (new_sample now m f) s = on_new_sample now m f s
  face_step frame_answered s = submit_frame_cb s

  unfoldable pub face_run : Face → List FaceEvent → Face
  unfolding face_step
  face_run s [] = s
  face_run s (v ∷ vs) = face_run (face_step v s) vs

abbrev pub is_sample : FaceEvent → Bool
is_sample (new_sample now m f) = true
is_sample _ = false
