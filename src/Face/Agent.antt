-- ===== src/Face/Agent.antt =====
-- src/pt-security-settings-face.c: the agent of biomd that enrols the face, from the click on the row to
-- the end of the enrolment.
use furios_initial_setup.Common.{
  Bool, List, Option, String, false, if◌then◌else◌, is_some, leb, none, not, some, true, ℕ, ◌&&◌,
  ◌==◌, ◌||◌, ◌∷◌,
}
use furios_initial_setup.Common.Int.{negsuc, pos, ℤ}
use furios_initial_setup.Face.State.{
  Call, EnrollmentState, Face, PropertyReply, Reply, access_revoked, agent_not_created,
  agent_not_registered, agent_proxy_not_created, boolean_reply, camera_not_started, cancel_agent,
  create_agent, destroy_agent, emit, enrollment_fail, enrollment_idle, enrollment_in_progress,
  enrollment_not_started, enrollment_started, face_enrolled_toast, failed_reply,
  frame_sink_not_created, is_success, new_agent_proxy, other_reply, register_agent, show_toast,
  start_enrollment, state_message, unregister_agent, update_face_enrolled, update_face_row,
  viewfinder_not_created,
}

-- What starting the camera comes to.
pub data CameraStart : Type 0 where
  not_launched no_viewsink no_appsink camera_runs : CameraStart

-- A signal of the agent.
pub data AgentSignal : Type 0 where
  access_changed : Bool → AgentSignal
  enrollment_progress_changed : ℤ → AgentSignal
  enrollment_state_changed : ℕ → AgentSignal
  other_agent_signal : AgentSignal

-- A signal of the face interface; `StateChanged` is only logged.
pub data FaceSignal : Type 0 where
  face_enrolled_changed : Bool → FaceSignal
  other_face_signal : FaceSignal

abbrev pub cancelling : Option ℕ → List Call → List Call
cancelling none log = log
cancelling (some proxy) log = cancel_agent proxy ∷ log

abbrev pub destroying : Option String → List Call → List Call
destroying none log = log
destroying (some object_path) log = destroy_agent object_path ∷ log

-- `destroy_face_agent`
unfoldable pub destroy_face_agent : Face → Face
destroy_face_agent s =
    let cancelled = cancelling s.face_agent_proxy s.log in
    record s {
      face_submit_frames_enabled = false;
      face_operation_started = false;
      face_start_call_in_flight = false;
      face_agent_has_access = false;
      face_agent_proxy = none;
      face_agent_path = none;
      log =
          if s.face_proxy
          then destroying s.face_agent_path (unregister_agent ∷ cancelled)
          else cancelled;
    }

abbrev pub setting {ℓ} : {A : Type ℓ} → A → Option A → Option A
setting a none = none
setting a (some _) = some a

-- `close_camera_step`
unfoldable pub close_camera_step : Face → Face
unfolding destroy_face_agent
close_camera_step s = destroy_face_agent (record s {
  face_submit_frames_enabled = false;
  face_operation_started = false;
  face_start_call_in_flight = false;
  face_last_submit_us = 0;
  face_camera_pipeline = setting false s.face_camera_pipeline;
  face_bottom_sheet = setting false s.face_bottom_sheet;
})

-- `finish_face_enrollment`
unfoldable pub finish_face_enrollment : Face → Face
unfolding close_camera_step update_face_row
finish_face_enrollment s = close_camera_step (update_face_row s)

launch_camera : CameraStart → Face → Face × Bool
unfolding show_toast
launch_camera not_launched s = (show_toast camera_not_started s, false)
launch_camera no_viewsink s = (show_toast viewfinder_not_created s, false)
launch_camera no_appsink s =
    (show_toast frame_sink_not_created (record s { face_appsink = false }), false)
launch_camera camera_runs s =
    (record s { face_camera_pipeline = some true; face_appsink = true }, true)

-- `start_camera`
unfoldable pub start_camera : CameraStart → Face → Face × Bool
unfolding launch_camera
start_camera c s = elim s.face_camera_pipeline [
  | some _ ↦ (record s { face_camera_pipeline = some true }, true)
  | none ↦ launch_camera c s
]

-- `start_enrollment_cb`
unfoldable pub start_enrollment_cb : Reply → Face → Face
unfolding is_success show_toast close_camera_step
start_enrollment_cb reply s =
    let returned = record s { face_start_call_in_flight = false } in
    if is_success reply
    then show_toast enrollment_started (record returned {
      face_operation_started = true;
      face_submit_frames_enabled = true;
      face_last_submit_us = 0;
    })
    else close_camera_step (show_toast enrollment_not_started returned)

-- `start_pending_enrollment`
unfoldable pub start_pending_enrollment : Face → Face
start_pending_enrollment s = elim s.face_agent_proxy [
  | none ↦ s
  | some proxy ↦
      if not s.face_agent_has_access || s.face_operation_started || s.face_start_call_in_flight
      then s
      else record s { face_start_call_in_flight = true; log = start_enrollment proxy ∷ s.log }
]

-- `CLAMP (progress, 0, 100)`
abbrev pub clamped : ℤ → ℕ
clamped (pos n) = if leb n 100 then n else 100
clamped (negsuc n) = 0

-- Whether a new state of the enrolment is told to the user.
abbrev pub is_told : EnrollmentState → Bool
is_told enrollment_idle = false
is_told enrollment_in_progress = false
is_told enrollment_fail = false
is_told _ = true

-- `on_agent_signal`; `decode` reads the number of a state as fart_enums.h does
unfoldable pub on_agent_signal : (ℕ → EnrollmentState) → AgentSignal → Face → Face
unfolding start_pending_enrollment show_toast
on_agent_signal decode (access_changed has_access) s =
    let told = record s { face_agent_has_access = has_access } in
    if has_access && not s.face_operation_started
    then start_pending_enrollment told
    else if not has_access
    then show_toast access_revoked told
    else told
on_agent_signal decode (enrollment_progress_changed n) s = record s {
  enroll_fraction = clamped n;
  face_last_enrollment_progress = pos (clamped n);
}
on_agent_signal decode (enrollment_state_changed code) s =
    if code == s.face_last_enrollment_state
    then s
    else let noted = record s { face_last_enrollment_state = code } in
      if is_told (decode code) then show_toast (state_message (decode code)) noted else noted
on_agent_signal decode other_agent_signal s = s

-- `register_agent_cb`
unfoldable pub register_agent_cb : Reply → Face → Face
unfolding start_pending_enrollment show_toast close_camera_step is_success
register_agent_cb (failed_reply true) s = s
register_agent_cb (failed_reply false) s = close_camera_step (show_toast agent_not_registered s)
register_agent_cb (boolean_reply false) s = close_camera_step (show_toast agent_not_registered s)
register_agent_cb (boolean_reply true) s =
    if s.face_agent_has_access then start_pending_enrollment s else s
register_agent_cb other_reply s = if s.face_agent_has_access then start_pending_enrollment s else s

-- `continue_face_enrollment`
unfoldable pub continue_face_enrollment : Face → Face
continue_face_enrollment s = record s {
  face_operation_started = false;
  face_start_call_in_flight = false;
  face_submit_frames_enabled = false;
  log = register_agent s.face_agent_path ∷ s.log;
}

-- `agent_proxy_created_cb`
unfoldable pub agent_proxy_created_cb : Option ℕ → Face → Face
unfolding continue_face_enrollment show_toast close_camera_step
agent_proxy_created_cb none s =
    close_camera_step (show_toast agent_proxy_not_created (record s { face_agent_proxy = none }))
agent_proxy_created_cb (some proxy) s =
    continue_face_enrollment (record s { face_agent_proxy = some proxy })

-- `create_agent_cb`; `none` is a failed call
unfoldable pub create_agent_cb : Option String → Face → Face
unfolding show_toast close_camera_step
create_agent_cb none s = close_camera_step (show_toast agent_not_created s)
create_agent_cb (some object_path) s = record s {
  face_agent_path = some object_path;
  face_agent_has_access = false;
  log = new_agent_proxy object_path ∷ s.log;
}

-- `ensure_face_agent`
unfoldable pub ensure_face_agent : Face → Face
unfolding continue_face_enrollment
ensure_face_agent s =
    if is_some s.face_agent_proxy && is_some s.face_agent_path
    then continue_face_enrollment s
    else emit create_agent s

-- `on_face_signal`
unfoldable pub on_face_signal : FaceSignal → Face → Face
unfolding update_face_row show_toast finish_face_enrollment
on_face_signal (face_enrolled_changed enrolled) s =
    let noted = update_face_row (record s { face_enrolled = enrolled }) in
    if enrolled then finish_face_enrollment (show_toast face_enrolled_toast noted) else noted
on_face_signal other_face_signal s = s

-- `G_MAXUINT32`
abbrev pub max_uint32 : ℕ
max_uint32 = 4294967295

-- A new enrolment: the flags are reset and the sheet opens.
unfoldable pub prepared : Face → Face
prepared s = record s {
  face_agent_has_access = false;
  face_operation_started = false;
  face_start_call_in_flight = false;
  face_submit_frames_enabled = false;
  face_last_enrollment_state = max_uint32;
  face_last_enrollment_progress = negsuc 0;
  enroll_fraction = 0;
  face_bottom_sheet = setting true s.face_bottom_sheet;
}

-- What follows the start of the camera.
unfoldable pub with_camera : Face × Bool → Face
with_camera (s, true) = ensure_face_agent s
with_camera (s, false) = close_camera_step s

-- `on_face_enroll_clicked`, for the answers that it gets
unfoldable pub on_face_enroll_clicked : PropertyReply → CameraStart → Face → Face
on_face_enroll_clicked enrolled c s =
    let noted = update_face_row (update_face_enrolled enrolled s) in
    if noted.face_enrolled then noted else with_camera (start_camera c (prepared noted))
