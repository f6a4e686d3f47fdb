-- ===== src/Face/Closed.antt =====
-- src/pt-security-settings-face.c: the end of an enrolment.
use furios_initial_setup.Common.{
  Bool, arith, false, none, refl, some, suc, true, zero, ℕ, ◌≡◌, ◌≢◌, ◌≤◌,
}
use furios_initial_setup.Face.Agent.{
  CameraStart, close_camera_step, ensure_face_agent, face_enrolled_changed, on_face_enroll_clicked,
  on_face_signal, prepared, start_camera, with_camera,
}
use furios_initial_setup.Face.State.{
  EnrollmentState, Face, FaceRow, PropertyReply, update_face_enrolled, update_face_row,
}
use furios_initial_setup.Face.Step.{
  FaceEvent, agent_proxy_created, cancel_clicked, cancel_each, face_step, new_sample, row_clicked,
}

-- The sheet is closed, the camera does not play, and nothing is left of the agent.
pub record IsClosed (s : Face) : Type 0 where
  pub sheet_closed : s.face_bottom_sheet ≢ some true
  pub camera_stopped : s.face_camera_pipeline ≢ some true
  pub no_agent_proxy : s.face_agent_proxy ≡ none
  pub no_agent_path : s.face_agent_path ≡ none
  pub not_started : s.face_operation_started ≡ false
  pub not_enabled : s.face_submit_frames_enabled ≡ false
  pub no_access : s.face_agent_has_access ≡ false

close-IsClosed : (s : Face) → IsClosed (close_camera_step s)
unfolding close_camera_step
close-IsClosed s = ground arith

-- Once biomd says that the face is enrolled, everything is closed, and the row says that it is enrolled.
enrolled_closes :
    (s : Face)
    → let t = on_face_signal (face_enrolled_changed true) s in
      IsClosed t
      × (t.face_enrolled ≡ true)
      × ((row : FaceRow) → t.face_row ≡ some row → row.already_enrolled ≡ true)
unfolding on_face_signal
enrolled_closes s = (ground arith, ground arith, λ row e. ground arith)

abbrev pub is_new_proxy : FaceEvent → Bool
is_new_proxy (agent_proxy_created (some proxy)) = true
is_new_proxy _ = false

abbrev pub NoAgent : Face → Type 0
NoAgent s = s.face_agent_proxy ≡ none

with_camera-NoAgent : (r : Face × Bool) → NoAgent r.0 → NoAgent (with_camera r)
unfolding with_camera ensure_face_agent close_camera_step
with_camera-NoAgent (s, true) h = ground arith
with_camera-NoAgent (s, false) h = ground arith

start_camera-NoAgent : (c : CameraStart) (s : Face) → NoAgent s → NoAgent (start_camera c s).0
unfolding start_camera
start_camera-NoAgent c s h = ground arith

click-NoAgent :
    (enrolled : PropertyReply) (c : CameraStart) (s : Face)
    → NoAgent s
    → NoAgent (on_face_enroll_clicked enrolled c s)
unfolding on_face_enroll_clicked update_face_row update_face_enrolled prepared
click-NoAgent enrolled c s h =
    let start = start_camera c (prepared (update_face_row (update_face_enrolled enrolled s))) in
    ground (
      arith,
      start_camera-NoAgent c (prepared (update_face_row (update_face_enrolled enrolled s))),
      with_camera-NoAgent start,
    )

cancel_each-NoAgent : (n : ℕ) (s : Face) → NoAgent s → NoAgent (cancel_each n s)
unfolding cancel_each close_camera_step
cancel_each-NoAgent zero s h = h
cancel_each-NoAgent (suc n) s h = cancel_each-NoAgent n (close_camera_step s) refl

pub cancel-NoAgent : (n : ℕ) (s : Face) → 1 ≤ n → NoAgent (cancel_each n s)
unfolding cancel_each close_camera_step
cancel-NoAgent zero s h = absurd (omega arith)
cancel-NoAgent (suc n) s h = cancel_each-NoAgent n (close_camera_step s) refl

pub step-NoAgent :
    (decode : ℕ → EnrollmentState) (v : FaceEvent) (s : Face)
    → is_new_proxy v ≡ false
    → NoAgent s
    → NoAgent (face_step decode v s)
unfolding face_step
step-NoAgent decode (row_clicked w enrolled c) s n h = click-NoAgent enrolled c _ h
step-NoAgent decode cancel_clicked s n h = cancel_each-NoAgent s.cancel_handlers s h
step-NoAgent decode (agent_proxy_created (some proxy)) s n h = cc
step-NoAgent decode (agent_proxy_created none) s n h = ground arith
step-NoAgent decode (new_sample now m f) s n h = ground arith
step-NoAgent decode _ s n h = ground arith
