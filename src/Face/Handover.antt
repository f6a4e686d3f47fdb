-- ===== src/Face/Handover.antt =====
-- src/pt-security-settings-face.c: callbacks that come after the enrolment they belong to was closed.
use furios_initial_setup.Common.{
  Bool, String, [], arith, count, false, is_some, none, some, true, ℕ, ◌∷◌, ◌≡◌, ◌≢◌,
}
use furios_initial_setup.Face.Agent.{access_changed}
use furios_initial_setup.Face.Closed.{IsClosed}
use furios_initial_setup.Face.Guarded.{MaySend}
use furios_initial_setup.Face.State.{
  Call, EnrollmentState, Face, boolean_reply, new_agent_proxy, register_agent, start_enrollment,
}
use furios_initial_setup.Face.Step.{
  agent_created, agent_proxy_created, agent_signalled, enrollment_called, face_run, face_step,
}

-- A reply that biomd created an agent, when the enrolment was closed before: as the calls that follow it
-- are answered, the page asks for the agent's proxy, registers the agent and, when access is given, calls
-- StartEnrollment; the enrolment then runs, and the sheet stays closed.
pub closed_goes_on :
    (decode : ℕ → EnrollmentState) (s : Face) (object_path : String) (proxy : ℕ)
    → IsClosed s
    → let asked = face_step decode (agent_created (some object_path)) s in
      let known = face_step decode (agent_proxy_created (some proxy)) asked in
      let called = face_step decode (agent_signalled (access_changed true)) known in
      let t = face_step decode (enrollment_called (boolean_reply true)) called in
      (asked.log ≡ new_agent_proxy object_path ∷ s.log)
      × (known.log ≡ register_agent (some object_path) ∷ asked.log)
      × (called.log ≡ start_enrollment proxy ∷ known.log)
      × (t.face_operation_started ≡ true)
      × (t.face_bottom_sheet ≢ some true)
      × (t.face_agent_proxy ≡ some proxy)
unfolding face_step
closed_goes_on decode s object_path proxy h = ground arith

-- The proxy of an agent, when the enrolment was closed before: the agent is registered by a path that
-- is NULL.
closed_registers_null :
    (decode : ℕ → EnrollmentState) (s : Face) (proxy : ℕ)
    → IsClosed s
    → (face_step decode (agent_proxy_created (some proxy)) s).log ≡ register_agent none ∷ s.log
unfolding face_step
closed_registers_null decode s proxy h = ground arith

abbrev pub is_start : Call → Bool
is_start (start_enrollment proxy) = true
is_start _ = false

-- A reply that an enrolment started, which comes when the next one waits for access, with no frame
-- without an answer: where access is then given, the enrolment of the agent at hand is not started, and
-- frames may be sent to it.
pub stale_start :
    (decode : ℕ → EnrollmentState) (s : Face)
    → is_some s.face_agent_proxy ≡ true
    → s.face_submit_in_flight ≡ 0
    → let t =
        face_run decode s
          (enrollment_called (boolean_reply true) ∷ agent_signalled (access_changed true) ∷ []) in
      MaySend t × (count is_start t.log ≡ count is_start s.log)
unfolding face_run
stale_start decode s a i = ground arith
