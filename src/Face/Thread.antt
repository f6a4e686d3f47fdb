-- ===== src/Face/Thread.antt =====
-- src/pt-security-settings-face.c: a frame on its way through `submit_frame`, which the thread of the
-- camera runs while the main loop goes on.
use furios_initial_setup.Common.{
  Bool, List, Option, [], arith, false, if◌then◌else◌, is_some, ltb, none, not, some, true, ℕ, ◌&&◌,
  ◌+◌, ◌-◌, ◌==◌, ◌∷◌, ◌≡◌,
}
use furios_initial_setup.Face.Frames.{
  Frame, Memory, expected_size, is_stored, submit_frame, submit_interval_us, submit_to,
}
use furios_initial_setup.Face.State.{EnrollmentState, Face, submit_frame_call}
use furios_initial_setup.Face.Step.{FaceEvent, face_step, is_sample}

-- The flags, the proxy and the count by which `submit_frame` decides.
unfoldable pub may_send : Face → Bool
may_send s =
    s.face_submit_frames_enabled
    && s.face_operation_started
    && s.face_agent_has_access
    && is_some s.face_agent_proxy
    && not (ltb 0 s.face_submit_in_flight)

-- Whether the last frame was sent too short a time before.
unfoldable pub is_early : ℕ → Face → Bool
is_early now s =
    not (s.face_last_submit_us == 0) && ltb (now - s.face_last_submit_us) submit_interval_us

-- `submit_frame` up to where it notes the time: whether the frame goes on its way.
unfoldable pub is_taken : ℕ → Frame → Face → Bool
unfolding may_send is_early
is_taken now f s = may_send s && not (is_early now s) && not (ltb f.size (expected_size f))

-- A frame that was taken and is being written into its file in memory; at the end it is counted as one
-- without an answer, and then sent.
pub record Storing : Type 0 where
  pub time : ℕ
  pub memory : Memory
  pub frame : Frame
  pub is_counted : Bool

-- The main loop's state, and what the thread of the camera does.
pub record Threads : Type 0 where
  pub face : Face
  pub storing : Option Storing

-- What happens next: the main loop runs a callback, or the thread of the camera looks at a frame, ends
-- the file that it began and counts the frame, or makes the call.
pub data ThreadEvent : Type 0 where
  looped : FaceEvent → ThreadEvent
  frame_taken : ℕ → Memory → Frame → ThreadEvent
  frame_stored frame_called : ThreadEvent

-- The flags are read at one moment here.
unfoldable pub take_frame : ℕ → Memory → Frame → Threads → Threads
unfolding is_taken
take_frame now m f t =
    if not (is_some t.storing) && is_taken now f t.face
    then record {
      face = record t.face { face_last_submit_us = now };
      storing = some (record { time = now; memory = m; frame = f; is_counted = false });
    }
    else t

-- `submit_frame` from the file in memory up to `face_submit_in_flight++`.
unfoldable pub store_frame : Threads → Threads
store_frame t = elim t.storing [
  | none ↦ t
  | some job ↦
      if job.is_counted
      then t
      else if is_stored job.memory (expected_size job.frame)
      then record {
        face = record t.face { face_submit_in_flight = t.face.face_submit_in_flight + 1 };
        storing = some (record job { is_counted = true });
      }
      else record t { storing = none }
]

-- The call by the proxy that is then there. A call by a proxy that is NULL is refused by GLib and gets no
-- answer.
unfoldable pub send_frame : ℕ → Frame → Face → Face
send_frame now f s = elim s.face_agent_proxy [
  | none ↦ s
  | some proxy ↦ record s { log = submit_frame_call proxy now (expected_size f) ∷ s.log }
]

unfoldable pub call_frame : Threads → Threads
unfolding send_frame
call_frame t = elim t.storing [
  | none ↦ t
  | some job ↦
      if job.is_counted
      then record { face = send_frame job.time job.frame t.face; storing = none }
      else t
]

abbrev pub is_playing : Face → Bool
is_playing s = elim s.face_camera_pipeline [ none ↦ false | some playing ↦ playing ]

module _ (decode : ℕ → EnrollmentState) where
  -- `gst_element_set_state` with GST_STATE_NULL waits for the thread of the camera: a callback that stops
  -- the camera goes on when the frame that is on its way is sent. Of what the rest of `submit_frame`
  -- reads, the callback changes the proxy alone, which `close_camera_step` clears after the wait, so the
  -- frame may be ended before the callback.
  unfoldable pub wait_for_thread : FaceEvent → Threads → Threads
  unfolding store_frame call_frame
  wait_for_thread v t =
      if is_playing t.face && not (is_playing (face_step decode v t.face))
      then call_frame (store_frame t)
      else t

  -- The samples of the main loop's steps are those of the thread.
  unfoldable pub thread_step : ThreadEvent → Threads → Threads
  unfolding take_frame wait_for_thread
  thread_step (looped v) t =
      if is_sample v
      then t
      else let ready = wait_for_thread v t in record ready { face = face_step decode v ready.face }
  thread_step (frame_taken now m f) t = take_frame now m f t
  thread_step frame_stored t = store_frame t
  thread_step frame_called t = call_frame t

  unfoldable pub thread_run : Threads → List ThreadEvent → Threads
  unfolding thread_step
  thread_run t [] = t
  thread_run t (v ∷ vs) = thread_run (thread_step v t) vs

-- With nothing in between, the three parts are `submit_frame`.
pub submit_frame-parts :
    (now : ℕ) (m : Memory) (f : Frame) (s : Face)
    → call_frame (store_frame (take_frame now m f (record { face = s; storing = none })))
      ≡ record { face = submit_frame now m f s; storing = none }
unfolding take_frame store_frame call_frame submit_frame submit_to is_taken may_send is_early
    send_frame
submit_frame-parts now m f s = ground arith
