-- ===== src/Face/Guarded.antt =====
-- src/pt-security-settings-face.c: when a frame is sent.
use furios_initial_setup.Common.{
  Bool, arith, count, false, is_some, none, refl, some, suc, true, zero, ℕ, ◌+◌, ◌≡◌, ◌≢◌,
}
use furios_initial_setup.Face.Agent.{
  CameraStart, close_camera_step, ensure_face_agent, on_face_enroll_clicked, prepared, start_camera,
  with_camera,
}
use furios_initial_setup.Face.Frames.{Frame, Memory, submit_frame, submit_to}
use furios_initial_setup.Face.State.{
  Call, EnrollmentState, Face, PropertyReply, submit_frame_call, update_face_enrolled,
  update_face_row,
}
use furios_initial_setup.Face.Step.{
  FaceEvent, cancel_clicked, cancel_each, face_step, frame_answered, is_sample, new_sample,
  row_clicked,
}

abbrev pub is_frame : Call → Bool
is_frame (submit_frame_call proxy now size) = true
is_frame _ = false

-- How many frames were sent.
abbrev pub frames : Face → ℕ
frames s = count is_frame s.log

-- Frames may be sent: biomd has given access, the enrolment runs, and no frame is unanswered.
pub record MaySend (s : Face) : Type 0 where
  pub enabled : s.face_submit_frames_enabled ≡ true
  pub started : s.face_operation_started ≡ true
  pub access : s.face_agent_has_access ≡ true
  pub agent : is_some s.face_agent_proxy ≡ true
  pub none_in_flight : s.face_submit_in_flight ≡ 0

cancel_each-frames :
    (n : ℕ) (s : Face)
    → (frames (cancel_each n s) ≡ frames s)
      × ((cancel_each n s).face_submit_in_flight ≡ s.face_submit_in_flight)
unfolding cancel_each close_camera_step
cancel_each-frames zero s = (refl, refl)
cancel_each-frames (suc n) s = ground (arith, cancel_each-frames n (close_camera_step s))

-- What the other events leave alone: the frames that were sent, and those without an answer.
abbrev pub Same : Face → Face → Type 0
Same t s = (frames t ≡ frames s) × (t.face_submit_in_flight ≡ s.face_submit_in_flight)

with_camera-Same : (r : Face × Bool) → Same (with_camera r) r.0
unfolding with_camera ensure_face_agent close_camera_step
with_camera-Same (s, true) = ground arith
with_camera-Same (s, false) = ground arith

start_camera-Same : (c : CameraStart) (s : Face) → Same (start_camera c s).0 s
unfolding start_camera
start_camera-Same c s = ground arith

click-Same :
    (enrolled : PropertyReply) (c : CameraStart) (s : Face)
    → Same (on_face_enroll_clicked enrolled c s) s
unfolding on_face_enroll_clicked update_face_row update_face_enrolled prepared
click-Same enrolled c s =
    let noted = update_face_row (update_face_enrolled enrolled s) in
    ground (
      arith,
      start_camera-Same c (prepared noted),
      with_camera-Same (start_camera c (prepared noted)),
    )

pub step-Same :
    (decode : ℕ → EnrollmentState) (v : FaceEvent) (s : Face)
    → is_sample v ≡ false
    → v ≢ frame_answered
    → Same (face_step decode v s) s
unfolding face_step
step-Same decode (row_clicked w enrolled c) s h n = click-Same enrolled c _
step-Same decode cancel_clicked s h n = cancel_each-frames s.cancel_handlers s
step-Same decode (new_sample now m f) s h n = cc
step-Same decode frame_answered s h n = absurd (n refl)
step-Same decode _ s h n = ground arith

sent :
    (now : ℕ) (m : Memory) (f : Frame) (s : Face)
    → frames (submit_frame now m f s) ≢ frames s
    → MaySend s
      × (frames (submit_frame now m f s) ≡ frames s + 1)
      × ((submit_frame now m f s).face_submit_in_flight ≡ 1)
unfolding submit_frame submit_to
sent now m f s h = ground arith

-- The frames that were sent, counted, grow by one at most; where they do the state was one in which
-- a frame may be sent, and the frame is then the only one without an answer.
step-MaySend :
    (decode : ℕ → EnrollmentState) (v : FaceEvent) (s : Face)
    → frames (face_step decode v s) ≢ frames s
    → MaySend s
      × (frames (face_step decode v s) ≡ frames s + 1)
      × ((face_step decode v s).face_submit_in_flight ≡ 1)
unfolding face_step
step-MaySend decode (new_sample now m (some f)) s h = sent now m f s h
step-MaySend decode (new_sample now m none) s h = absurd (h refl)
step-MaySend decode frame_answered s h = absurd (h (ground arith))
step-MaySend decode (row_clicked w enrolled c) s h =
    absurd (h (step-Same decode (row_clicked w enrolled c) s refl (λ e. cc)).0)
step-MaySend decode cancel_clicked s h =
    absurd (h (step-Same decode cancel_clicked s refl (λ e. cc)).0)
step-MaySend decode v s h = absurd (h (step-Same decode v s refl (λ e. cc)).0)
