-- ===== src/Face/Races.antt =====
-- src/pt-security-settings-face.c: the frames, with the thread of the camera beside the main loop.
use furios_initial_setup.Common.{
  All, Bool, Bool-cases, List, [], arith, false, if◌then◌else◌, inl, inr, is_some, none, not, refl,
  some, true, ℕ, ◌&&◌, ◌==◌, ◌+◌, ◌∙◌, ◌∷◌, ◌≡◌, ◌≤◌,
}
use furios_initial_setup.Face.Closed.{NoAgent, cancel-NoAgent, is_new_proxy, step-NoAgent}
use furios_initial_setup.Face.Agent.{access_changed}
use furios_initial_setup.Face.Frames.{Frame, Memory, expected_size, is_stored}
use furios_initial_setup.Face.Guarded.{frames, step-Same}
use furios_initial_setup.Face.State.{EnrollmentState, Face}
use furios_initial_setup.Face.Step.{
  FaceEvent, agent_signalled, cancel_clicked, face_step, frame_answered, is_sample, new_sample,
}
use furios_initial_setup.Face.Thread.{
  Storing, ThreadEvent, Threads, call_frame, frame_called, frame_stored, frame_taken, is_playing,
  looped, send_frame, store_frame, take_frame, wait_for_thread, thread_run, thread_step,
}

-- The frames that are on their way.
abbrev pub pending : Threads → ℕ
pending t = elim t.storing [ none ↦ 0 | some job ↦ 1 ]

-- The frames that are on their way and not yet counted.
abbrev pub uncounted : Threads → ℕ
uncounted t = elim t.storing [ none ↦ 0 | some job ↦ if job.is_counted then 0 else 1 ]

-- No more than one frame is without an answer or on its way.
abbrev pub AtMostOne : Threads → Type 0
AtMostOne t = t.face.face_submit_in_flight + uncounted t ≤ 1

-- Sending was enabled, biomd had said that the enrolment started, the agent is there and has access, and
-- no frame is without an answer.
abbrev is_chance : Face → Bool
is_chance s = elim s.face_agent_proxy [
  | none ↦ false
  | some proxy ↦
      s.face_submit_in_flight == 0
      && s.face_agent_has_access
      && s.face_operation_started
      && s.face_submit_frames_enabled
]

-- Whether the thread looks at a frame when one may be sent.
abbrev chance : ThreadEvent → Threads → ℕ
chance (frame_taken now m f) t = if is_chance t.face then 1 else 0
chance (looped v) t = 0
chance frame_stored t = 0
chance frame_called t = 0

-- How often, in a run, the thread looked at a frame when one might be sent.
pub chances : (ℕ → EnrollmentState) → Threads → List ThreadEvent → ℕ
chances decode t [] = 0
chances decode t (v ∷ vs) = chance v t + chances decode (thread_step decode v t) vs

-- A callback of the main loop sends no frame, and adds none that waits for an answer.
looped-le :
    (decode : ℕ → EnrollmentState) (v : FaceEvent) (s : Face)
    → is_sample v ≡ false
    → (frames (face_step decode v s) ≡ frames s)
      × ((face_step decode v s).face_submit_in_flight ≤ s.face_submit_in_flight)
unfolding face_step
looped-le decode (new_sample now m f) s h = cc
looped-le decode frame_answered s h = ground arith
looped-le decode v s h = omega (arith, step-Same decode v s h (λ e. cc))

take_frame-fair :
    (now : ℕ) (m : Memory) (f : Frame) (t : Threads)
    → AtMostOne t
    → let u = take_frame now m f t in
      AtMostOne u
      × (frames u.face + pending u
          ≤ (if is_chance t.face then 1 else 0) + frames t.face + pending t)
unfolding take_frame
take_frame-fair now m f t h = ground arith

-- What the end of a frame keeps: the bound, and the frames with the one on its way.
abbrev IsFair : Threads → Threads → Type 0
IsFair t u = AtMostOne u × (frames u.face + pending u ≤ frames t.face + pending t)

store_frame-IsFair : (t : Threads) → AtMostOne t → IsFair t (store_frame t)
unfolding store_frame
store_frame-IsFair t h = ground arith

call_frame-IsFair : (t : Threads) → AtMostOne t → IsFair t (call_frame t)
unfolding call_frame send_frame
call_frame-IsFair t h = ground arith

wait-IsFair :
    (decode : ℕ → EnrollmentState) (v : FaceEvent) (t : Threads)
    → AtMostOne t
    → IsFair t (wait_for_thread decode v t)
unfolding wait_for_thread
wait-IsFair decode v t h =
    let (kept, le) = store_frame-IsFair t h in
    let (called, sent) = call_frame-IsFair (store_frame t) kept in
    let stops = is_playing t.face && not (is_playing (face_step decode v t.face)) in
    elim (Bool-cases stops) [ inl e ↦ rw e (called, omega arith) | inr e ↦ rw e (h, omega arith) ]

step-fair :
    (decode : ℕ → EnrollmentState) (v : ThreadEvent) (t : Threads)
    → AtMostOne t
    → let u = thread_step decode v t in
      AtMostOne u × (frames u.face + pending u ≤ chance v t + frames t.face + pending t)
unfolding thread_step
step-fair decode (looped v) t h = elim (Bool-cases (is_sample v)) [
  | inl e ↦ rw e (h, omega arith)
  | inr e ↦
      let u = wait_for_thread decode v t in
      rw e (omega (arith, wait-IsFair decode v t h, looped-le decode v u.face e))
]
step-fair decode (frame_taken now m f) t h = take_frame-fair now m f t h
step-fair decode frame_stored t h = omega (arith, store_frame-IsFair t h)
step-fair decode frame_called t h = omega (arith, call_frame-IsFair t h)

-- With no more than one frame without an answer or on its way, and whatever the main loop and the thread
-- do, in whatever order: there is no more than one at the end, and no more frames were sent than the
-- thread looked at, at moments when sending was enabled, biomd had said that the enrolment started, the
-- agent was there and had access, and no frame was without an answer.
pub run-frames-le :
    (decode : ℕ → EnrollmentState) (t : Threads) (vs : List ThreadEvent)
    → AtMostOne t
    → let u = thread_run decode t vs in
      AtMostOne u × (frames u.face + pending u ≤ chances decode t vs + frames t.face + pending t)
unfolding thread_run chances
run-frames-le decode t [] h = (h, omega arith)
run-frames-le decode t (v ∷ vs) h =
    let (kept, one) = step-fair decode v t h in
    let (all_kept, rest) = run-frames-le decode (thread_step decode v t) vs kept in
    (all_kept, omega arith)

-- A proxy of an agent that is created.
abbrev pub BringsNone : ThreadEvent → Type 0
BringsNone (looped v) = is_new_proxy v ≡ false
BringsNone (frame_taken now m f) = Unit
BringsNone frame_stored = Unit
BringsNone frame_called = Unit

-- Without an agent the end of a frame sends nothing, and brings none.
store_frame-quiet :
    (t : Threads)
    → NoAgent t.face
    → NoAgent (store_frame t).face × (frames (store_frame t).face ≡ frames t.face)
unfolding store_frame
store_frame-quiet t h = ground arith

call_frame-quiet :
    (t : Threads)
    → NoAgent t.face
    → NoAgent (call_frame t).face × (frames (call_frame t).face ≡ frames t.face)
unfolding call_frame send_frame
call_frame-quiet t h = ground arith

wait-quiet :
    (decode : ℕ → EnrollmentState) (v : FaceEvent) (t : Threads)
    → NoAgent t.face
    → let u = wait_for_thread decode v t in NoAgent u.face × (frames u.face ≡ frames t.face)
unfolding wait_for_thread
wait-quiet decode v t h =
    let (kept, same) = store_frame-quiet t h in
    let (called, sent) = call_frame-quiet (store_frame t) kept in
    let stops = is_playing t.face && not (is_playing (face_step decode v t.face)) in
    elim (Bool-cases stops) [ inl e ↦ rw e (called, sent ∙ same) | inr e ↦ rw e (h, refl) ]

-- Without an agent nothing is sent, and none comes by itself.
step-quiet :
    (decode : ℕ → EnrollmentState) (v : ThreadEvent) (t : Threads)
    → BringsNone v
    → NoAgent t.face
    → NoAgent (thread_step decode v t).face × (frames (thread_step decode v t).face ≡ frames t.face)
unfolding thread_step take_frame
step-quiet decode (looped v) t n h = elim (Bool-cases (is_sample v)) [
  | inl e ↦ rw e (h, refl)
  | inr e ↦
      let (kept, same) = wait-quiet decode v t h in
      let u = wait_for_thread decode v t in
      rw e (step-NoAgent decode v u.face n kept, (looped-le decode v u.face e).0 ∙ same)
]
step-quiet decode (frame_taken now m f) t n h = ground arith
step-quiet decode frame_stored t n h = store_frame-quiet t h
step-quiet decode frame_called t n h = call_frame-quiet t h

run-quiet :
    (decode : ℕ → EnrollmentState) (t : Threads) (vs : List ThreadEvent)
    → All BringsNone vs
    → NoAgent t.face
    → frames (thread_run decode t vs).face ≡ frames t.face
unfolding thread_run
run-quiet decode t [] n h = refl
run-quiet decode t (v ∷ vs) (n, ns) h =
    let (kept, same) = step-quiet decode v t n h in
    run-quiet decode (thread_step decode v t) vs ns kept ∙ same

wait-handlers :
    (decode : ℕ → EnrollmentState) (t : Threads)
    → (wait_for_thread decode cancel_clicked t).face.cancel_handlers ≡ t.face.cancel_handlers
unfolding wait_for_thread store_frame call_frame send_frame
wait-handlers decode t = ground arith

cancelled-NoAgent :
    (decode : ℕ → EnrollmentState) (t : Threads)
    → 1 ≤ t.face.cancel_handlers
    → NoAgent (thread_step decode (looped cancel_clicked) t).face
unfolding thread_step face_step
cancelled-NoAgent decode t h =
    let u = wait_for_thread decode cancel_clicked t in
    cancel-NoAgent u.face.cancel_handlers u.face (rw (wait-handlers decode t) h)

-- When a click on the button that cancels, which has a handler, was handled, no frame is sent until the
-- proxy of an agent is created, whatever else comes in; up to then no more were sent than before and the
-- one, if any, that was on its way at the click.
pub cancelled_run :
    (decode : ℕ → EnrollmentState) (t : Threads) (vs : List ThreadEvent)
    → 1 ≤ t.face.cancel_handlers
    → AtMostOne t
    → All BringsNone vs
    → let u = thread_step decode (looped cancel_clicked) t in
      (frames (thread_run decode u vs).face ≡ frames u.face)
      × (frames u.face ≤ frames t.face + pending t)
cancelled_run decode t vs h one n =
    let u = thread_step decode (looped cancel_clicked) t in
    (
      run-quiet decode u vs n (cancelled-NoAgent decode t h),
      omega (arith, step-fair decode (looped cancel_clicked) t one),
    )

-- Access that is taken back while a frame is being stored does not keep the frame from being sent.
pub revoked_while_stored :
    (decode : ℕ → EnrollmentState) (t : Threads) (job : Storing)
    → t.storing ≡ some job
    → job.is_counted ≡ false
    → is_stored job.memory (expected_size job.frame) ≡ true
    → is_some t.face.face_agent_proxy ≡ true
    → let u =
        thread_run decode t
          (looped (agent_signalled (access_changed false)) ∷ frame_stored ∷ frame_called ∷ []) in
      (u.face.face_agent_has_access ≡ false) × (frames u.face ≡ frames t.face + 1)
unfolding thread_run thread_step wait_for_thread store_frame call_frame send_frame face_step
revoked_while_stored decode t job e begun stored agent = ground arith
