-- ===== src/Face/Paced.antt =====
-- src/pt-security-settings-face.c: how often frames are sent, with the thread of the camera beside the
-- main loop.
use furios_initial_setup.Common.{
  All, Bool-cases, List, Option, Option-cases, [], arith, false, inl, inr, is_some, none, not, refl,
  some, true, ℕ, ◌&&◌, ◌+◌, ◌∷◌, ◌≡◌, ◌≢◌, ◌≤◌,
}
use furios_initial_setup.Face.Agent.{face_enrolled_changed, other_face_signal}
use furios_initial_setup.Face.Frames.{Frame, Memory, expected_size, is_stored, submit_interval_us}
use furios_initial_setup.Face.State.{
  Call, EnrollmentState, Face, boolean_reply, failed_reply, other_reply, submit_frame_call,
}
use furios_initial_setup.Face.Step.{
  FaceEvent, agent_created, agent_proxy_created, agent_registered, agent_signalled, cancel_clicked,
  enrollment_called, face_signalled, face_step, frame_answered, is_sample, new_sample, row_clicked,
}
use furios_initial_setup.Face.Thread.{
  Storing, ThreadEvent, Threads, call_frame, frame_called, frame_stored, frame_taken, is_early,
  is_playing, is_taken, looped, send_frame, store_frame, take_frame, wait_for_thread, thread_run,
  thread_step,
}

-- A callback that neither starts an enrolment nor ends one.
abbrev pub GoesOn : FaceEvent → Type 0
GoesOn (row_clicked w enrolled c) = ⊥
GoesOn cancel_clicked = ⊥
GoesOn (agent_created p) = is_some p ≡ true
GoesOn (agent_proxy_created p) = is_some p ≡ true
GoesOn (agent_registered (failed_reply registered)) = registered ≡ true
GoesOn (agent_registered (boolean_reply ok)) = ok ≡ true
GoesOn (agent_registered other_reply) = Unit
GoesOn (enrollment_called reply) = ⊥
GoesOn (agent_signalled sig) = Unit
GoesOn (face_signalled (face_enrolled_changed enrolled)) = enrolled ≡ false
GoesOn (face_signalled other_face_signal) = Unit
GoesOn (new_sample now m f) = Unit
GoesOn frame_answered = Unit

-- The same of the threads; the monotonic clock is past its start.
abbrev pub KeepsPace : ThreadEvent → Type 0
KeepsPace (looped v) = GoesOn v
KeepsPace (frame_taken now m f) = now ≢ 0
KeepsPace frame_stored = Unit
KeepsPace frame_called = Unit

-- When the frames were sent, the newest first.
abbrev pub times : List Call → List ℕ
times [] = []
times (submit_frame_call proxy now size ∷ log) = now ∷ times log
times (_ ∷ log) = times log

abbrev pub After : ℕ → List ℕ → Type 0
After t [] = Unit
After t (u ∷ us) = u + submit_interval_us ≤ t

-- Each time is 200 ms or more after the one before.
abbrev pub Spaced : List ℕ → Type 0
Spaced [] = Unit
Spaced (t ∷ ts) = After t ts × Spaced ts

-- The newest time is not after the one that is noted.
abbrev Noted : ℕ → List ℕ → Type 0
Noted last [] = Unit
Noted last (t ∷ ts) = (t ≤ last) × (last ≢ 0)

After-of_Noted :
    (last now : ℕ) (ts : List ℕ)
    → Noted last ts
    → (last ≢ 0 → last + submit_interval_us ≤ now)
    → After now ts
After-of_Noted last now [] n h = tt
After-of_Noted last now (t ∷ ts) n h = omega (arith, h n.1, n.0)

-- The interval has passed, or no frame was noted.
abbrev MayFollow : ℕ → ℕ → Type 0
MayFollow last now = last ≢ 0 → last + submit_interval_us ≤ now

-- Such a callback sends no frame and leaves the time that is noted.
GoesOn-calm :
    (decode : ℕ → EnrollmentState) (v : FaceEvent) (s : Face)
    → is_sample v ≡ false
    → GoesOn v
    → (times (face_step decode v s).log ≡ times s.log)
      × ((face_step decode v s).face_last_submit_us ≡ s.face_last_submit_us)
unfolding face_step
GoesOn-calm decode (row_clicked w enrolled c) s h g = absurd g
GoesOn-calm decode cancel_clicked s h g = absurd g
GoesOn-calm decode (agent_created p) s h g = ground arith
GoesOn-calm decode (agent_proxy_created p) s h g = ground arith
GoesOn-calm decode (agent_registered (failed_reply registered)) s h g = rw g (refl, refl)
GoesOn-calm decode (agent_registered (boolean_reply ok)) s h g = rw g (ground arith)
GoesOn-calm decode (agent_registered other_reply) s h g = ground arith
GoesOn-calm decode (enrollment_called reply) s h g = absurd g
GoesOn-calm decode (agent_signalled sig) s h g = ground arith
GoesOn-calm decode (face_signalled (face_enrolled_changed enrolled)) s h g = rw g (refl, refl)
GoesOn-calm decode (face_signalled other_face_signal) s h g = (refl, refl)
GoesOn-calm decode (new_sample now m f) s h g = cc
GoesOn-calm decode frame_answered s h g = ground arith

-- What holds of the time that is noted: no frame was sent after it; while a frame is being stored, it is
-- the frame's own, and long enough after the frames that were sent.
abbrev NotedBy : Option Storing → ℕ → List ℕ → Type 0
NotedBy none last ts = Noted last ts
NotedBy (some job) last ts = (job.time ≡ last) × (last ≢ 0) × After last ts

abbrev IsPaced : Threads → Type 0
IsPaced t =
    Spaced (times t.face.log) × NotedBy t.storing t.face.face_last_submit_us (times t.face.log)

-- A frame is taken when the interval has passed.
taken_follows :
    (now : ℕ) (f : Frame) (s : Face) → is_taken now f s ≡ true → MayFollow s.face_last_submit_us now
unfolding is_taken is_early
taken_follows now f s h = ground arith

Noted-of_After : (last : ℕ) (ts : List ℕ) → last ≢ 0 → After last ts → Noted last ts
Noted-of_After last [] z h = tt
Noted-of_After last (u ∷ us) z h = (omega (arith, h), z)

take_frame-IsPaced :
    (now : ℕ) (m : Memory) (f : Frame) (s : Face) (o : Option Storing)
    → now ≢ 0
    → IsPaced (record { face = s; storing = o })
    → IsPaced (take_frame now m f (record { face = s; storing = o }))
unfolding take_frame
take_frame-IsPaced now m f s none z p = elim (Bool-cases (is_taken now f s)) [
  | inl k ↦ rw k (
    p.0,
    (refl, z, After-of_Noted s.face_last_submit_us now (times s.log) p.1 (taken_follows now f s k)),
  )
  | inr k ↦ rw k p
]
take_frame-IsPaced now m f s (some job) z p = p

send_frame-IsPaced :
    (job : Storing) (s : Face)
    → IsPaced (record { face = s; storing = some job })
    → IsPaced (record { face = send_frame job.time job.frame s; storing = none })
unfolding send_frame
send_frame-IsPaced job s (spaced, (same, z, after)) = elim (Option-cases s.face_agent_proxy) [
  | inl e ↦ rw (e, send_frame) (spaced, Noted-of_After s.face_last_submit_us (times s.log) z after)
  | inr (proxy, e) ↦ rw (e, send_frame) ((rw same after, spaced), (omega arith, z))
]

store_frame-IsPaced :
    (s : Face) (o : Option Storing)
    → IsPaced (record { face = s; storing = o })
    → IsPaced (store_frame (record { face = s; storing = o }))
unfolding store_frame
store_frame-IsPaced s none p = p
store_frame-IsPaced s (some job) p = elim (Bool-cases job.is_counted) [
  | inl c ↦ rw c p
  | inr c ↦ elim (Bool-cases (is_stored job.memory (expected_size job.frame))) [
    | inl e ↦ rw (c, e) p
    | inr e ↦ rw (c, e) (p.0, Noted-of_After s.face_last_submit_us (times s.log) p.1.1 p.1.2)
  ]
]

call_frame-IsPaced :
    (s : Face) (o : Option Storing)
    → IsPaced (record { face = s; storing = o })
    → IsPaced (call_frame (record { face = s; storing = o }))
unfolding call_frame
call_frame-IsPaced s none p = p
call_frame-IsPaced s (some job) p = elim (Bool-cases job.is_counted) [
  | inl c ↦ rw c (send_frame-IsPaced job s p)
  | inr c ↦ rw c p
]

wait-IsPaced :
    (decode : ℕ → EnrollmentState) (v : FaceEvent) (t : Threads)
    → IsPaced t
    → IsPaced (wait_for_thread decode v t)
unfolding wait_for_thread
wait-IsPaced decode v t p =
    let u = store_frame t in
    let stops = is_playing t.face && not (is_playing (face_step decode v t.face)) in
    elim (Bool-cases stops) [
      | inl e ↦ rw e (call_frame-IsPaced u.face u.storing (store_frame-IsPaced t.face t.storing p))
      | inr e ↦ rw e p
    ]

step-IsPaced :
    (decode : ℕ → EnrollmentState) (v : ThreadEvent) (t : Threads)
    → KeepsPace v
    → IsPaced t
    → IsPaced (thread_step decode v t)
unfolding thread_step
step-IsPaced decode (looped v) t k p = elim (Bool-cases (is_sample v)) [
  | inl e ↦ rw e p
  | inr e ↦
      let u = wait_for_thread decode v t in
      let (same, noted) = GoesOn-calm decode v u.face e k in
      rw (e, same, noted) (wait-IsPaced decode v t p)
]
step-IsPaced decode (frame_taken now m f) t k p = take_frame-IsPaced now m f t.face t.storing k p
step-IsPaced decode frame_stored t k p = store_frame-IsPaced t.face t.storing p
step-IsPaced decode frame_called t k p = call_frame-IsPaced t.face t.storing p

run-IsPaced :
    (decode : ℕ → EnrollmentState) (t : Threads) (vs : List ThreadEvent)
    → All KeepsPace vs
    → IsPaced t
    → IsPaced (thread_run decode t vs)
unfolding thread_run
run-IsPaced decode t [] all p = p
run-IsPaced decode t (v ∷ vs) (k, all) p =
    run-IsPaced decode (thread_step decode v t) vs all (step-IsPaced decode v t k p)

-- From a state in which no frame was sent or is being stored, and as long as no callback starts an
-- enrolment or ends one, whatever else the main loop and the thread of the camera do: the frames are sent
-- 200 ms apart or more, by the times at which they were taken.
pub frames-Spaced :
    (decode : ℕ → EnrollmentState) (t : Threads) (vs : List ThreadEvent)
    → All KeepsPace vs
    → t.storing ≡ none
    → times t.face.log ≡ []
    → Spaced (times (thread_run decode t vs).face.log)
frames-Spaced decode t vs all idle e = (run-IsPaced decode t vs all (rw (e, idle) (tt, tt))).0
