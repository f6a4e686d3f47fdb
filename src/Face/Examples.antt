-- ===== src/Face/Examples.antt =====
-- src/pt-security-settings-face.c: an enrolment, and the theorems at it.
use furios_initial_setup.Common.{
  Bool, List, [], arith, false, none, refl, some, true, ℕ, ◌+◌, ◌∷◌, ◌≡◌, ◌≤◌,
}
use furios_initial_setup.Common.Int.{pos}
use furios_initial_setup.Face.Agent.{
  access_changed, camera_runs, ensure_face_agent, on_face_enroll_clicked, prepared, start_camera,
  with_camera,
}
use furios_initial_setup.Face.Closed.{IsClosed}
use furios_initial_setup.Face.Frames.{Frame, Memory, expected_size, is_stored, submit_to}
use furios_initial_setup.Face.Guarded.{MaySend, frames}
use furios_initial_setup.Face.Handover.{closed_goes_on, stale_start}
use furios_initial_setup.Face.Paced.{Spaced, frames-Spaced, times}
use furios_initial_setup.Face.Races.{AtMostOne, cancelled_run, chances, pending, run-frames-le}
use furios_initial_setup.Face.State.{
  EnrollmentState, Face, boolean_reply, boolean_value, create_agent, enrollment_started,
  enrollment_unknown, new_agent_proxy, register_agent, start_enrollment, submit_frame_call, toast,
  update_face_enrolled,
}
use furios_initial_setup.Face.Step.{
  FaceEvent, FaceWidgets, agent_created, agent_proxy_created, agent_registered, agent_signalled,
  cancel_clicked, enrollment_called, face_run, face_step, frame_answered, new_sample, row_clicked,
}
use furios_initial_setup.Face.Thread.{
  ThreadEvent, Threads, frame_called, frame_stored, frame_taken, looped, thread_run, thread_step,
}
use furios_initial_setup.Face.Write.{Complete, interrupted, write_all, write_all-Complete, wrote}

-- A page that found its widgets, before the row is clicked.
abbrev idle_face : Face
idle_face = record {
  toast_overlay = true;
  face_proxy = true;
  face_props_proxy = true;
  face_agent_proxy = none;
  face_agent_path = none;
  face_row = some (record { already_enrolled = false; group_visible = true });
  face_bottom_sheet = some false;
  face_camera_pipeline = none;
  face_appsink = false;
  enroll_fraction = 0;
  face_available = true;
  face_enrolled = false;
  face_agent_has_access = false;
  face_operation_started = false;
  face_start_call_in_flight = false;
  face_submit_frames_enabled = false;
  face_submit_in_flight = 0;
  face_last_submit_us = 0;
  face_last_enrollment_state = 0;
  face_last_enrollment_progress = pos 0;
  cancel_handlers = 0;
  log = [];
}

abbrev all_widgets : FaceWidgets
all_widgets = record { has_overlay = true; has_sheet = true; has_cancel_button = true }

abbrev small_frame : Frame
small_frame = record { size = 12; width = pos 2; height = pos 2 }

abbrev in_memory : Memory
in_memory = record {
  created = true;
  truncated = true;
  writes = wrote 5 ∷ interrupted ∷ wrote 7 ∷ [];
  rewound = true;
  appended = true;
}

abbrev no_state : ℕ → EnrollmentState
no_state code = enrollment_unknown

-- From the click to the first frame.
abbrev enrolment : List FaceEvent
enrolment =
    row_clicked all_widgets (boolean_value false) camera_runs
    ∷ agent_created (some "/agent/1")
    ∷ agent_proxy_created (some 4)
    ∷ agent_registered (boolean_reply true)
    ∷ agent_signalled (access_changed true)
    ∷ enrollment_called (boolean_reply true)
    ∷ new_sample 1000 in_memory (some small_frame)
    ∷ []

enrolment_run :
    (face_run no_state idle_face enrolment).log
    ≡ submit_frame_call 4 1000 12
      ∷ toast enrollment_started
      ∷ start_enrollment 4
      ∷ register_agent (some "/agent/1")
      ∷ new_agent_proxy "/agent/1"
      ∷ create_agent
      ∷ []
unfolding face_run on_face_enroll_clicked submit_to with_camera start_camera prepared
    ensure_face_agent update_face_enrolled
enrolment_run = refl

abbrev sending : Face
sending = record idle_face {
  face_agent_proxy = some 4;
  face_agent_path = some "/agent/1";
  face_bottom_sheet = some true;
  face_camera_pipeline = some true;
  face_agent_has_access = true;
  face_operation_started = true;
  face_submit_frames_enabled = true;
  cancel_handlers = 2;
}

abbrev samples : List FaceEvent
samples =
    new_sample 1000 in_memory (some small_frame)
    ∷ frame_answered
    ∷ new_sample 150000 in_memory (some small_frame)
    ∷ new_sample 201000 in_memory (some small_frame)
    ∷ []

samples_run : times (face_run no_state sending samples).log ≡ 201000 ∷ 1000 ∷ []
unfolding face_run submit_to
samples_run = refl

-- A frame is taken, stored and answered, one comes too early, and the access is taken back while the next
-- is being stored.
abbrev camera_thread : List ThreadEvent
camera_thread =
    frame_taken 1000 in_memory small_frame
    ∷ frame_stored
    ∷ frame_called
    ∷ looped frame_answered
    ∷ frame_taken 150000 in_memory small_frame
    ∷ frame_taken 201000 in_memory small_frame
    ∷ looped (agent_signalled (access_changed false))
    ∷ frame_stored
    ∷ frame_called
    ∷ []

abbrev at_rest : Face → Threads
at_rest s = record { face = s; storing = none }

camera_thread_run :
    times (thread_run no_state (at_rest sending) camera_thread).face.log ≡ 201000 ∷ 1000 ∷ []
unfolding thread_run expected_size face_step is_stored
camera_thread_run = refl

frames-Spaced_example :
    Spaced (times (thread_run no_state (at_rest sending) camera_thread).face.log)
frames-Spaced_example =
    frames-Spaced no_state (at_rest sending) camera_thread
      (omega arith, (tt, (tt, (tt, (omega arith, (omega arith, (tt, (tt, (tt, tt))))))))) refl refl

run-frames-le_example :
    let u = thread_run no_state (at_rest sending) camera_thread in
    AtMostOne u
    × (frames u.face + pending u ≤ chances no_state (at_rest sending) camera_thread + 0 + 0)
run-frames-le_example = run-frames-le no_state (at_rest sending) camera_thread (omega arith)

write_all-Complete_example :
    (r : Bool × ℕ) × (write_all (wrote 1 ∷ interrupted ∷ wrote 1 ∷ wrote 1 ∷ []) 3 ≡ some r)
    × Complete 3 r
write_all-Complete_example =
    write_all-Complete (wrote 1 ∷ interrupted ∷ wrote 1 ∷ wrote 1 ∷ []) 3 (omega arith)
      (omega arith)

-- A frame is being stored when the user cancels.
abbrev storing_frame : Threads
storing_frame = record {
  face = sending;
  storing =
      some (record { time = 1000; memory = in_memory; frame = small_frame; is_counted = false });
}

cancelled_run_example :
    let u = thread_step no_state (looped cancel_clicked) storing_frame in
    (frames (thread_run no_state u camera_thread).face ≡ frames u.face) × (frames u.face ≤ 0 + 1)
cancelled_run_example =
    cancelled_run no_state storing_frame camera_thread (omega arith) (omega arith)
      (tt, (tt, (tt, (refl, (tt, (tt, (refl, (tt, (tt, tt)))))))))

idle-IsClosed : IsClosed idle_face
idle-IsClosed = ground arith

closed_goes_on_example :
    (face_step no_state (agent_created (some "/agent/2")) idle_face).log
    ≡ new_agent_proxy "/agent/2" ∷ idle_face.log
closed_goes_on_example = (closed_goes_on no_state idle_face "/agent/2" 5 idle-IsClosed).0

stale_start_example : MaySend (
    face_run no_state sending
      (enrollment_called (boolean_reply true) ∷ agent_signalled (access_changed true) ∷ []))
stale_start_example = (stale_start no_state sending refl refl).0
