-- ===== src/Face/Frames.antt =====
-- src/pt-security-settings-face.c: the frames of the camera that are sent to the agent.
use furios_initial_setup.Common.{
  Bool, List, Option, false, if◌then◌else◌, ltb, none, not, some, ℕ, ◌%◌, ◌&&◌, ◌*◌, ◌+◌, ◌-◌, ◌==◌,
  ◌||◌, ◌∷◌,
}
use furios_initial_setup.Common.Int.{negsuc, pos, ℤ}
use furios_initial_setup.Face.State.{Face, submit_frame_call}
use furios_initial_setup.Face.Write.{WriteResult, write_all}

abbrev pub u64_mod : ℕ
u64_mod = 18446744073709551616

-- `(gsize) n`
abbrev pub to_gsize : ℤ → ℕ
to_gsize (pos n) = n % u64_mod
to_gsize (negsuc n) = (u64_mod - 1) - n % u64_mod

-- A frame of three channels, with its size in bytes, as the caps and the buffer have it.
pub record Frame : Type 0 where
  pub size : ℕ
  pub width : ℤ
  pub height : ℤ

-- How the calls go that put a frame into a file in memory.
pub record Memory : Type 0 where
  pub created : Bool
  pub truncated : Bool
  pub writes : List WriteResult
  pub rewound : Bool
  pub appended : Bool

abbrev pub submit_interval_us : ℕ
submit_interval_us = 200 * 1000

unfoldable pub expected_size : Frame → ℕ
expected_size f = (to_gsize f.width * to_gsize f.height * 3) % u64_mod

-- Whether `write_all` returns TRUE.
abbrev pub is_written : Option (Bool × ℕ) → Bool
is_written none = false
is_written (some (ok, off)) = ok

-- Whether the frame comes to be in the list of file descriptors.
unfoldable pub is_stored : Memory → ℕ → Bool
unfolding write_all
is_stored m len =
    m.created && m.truncated && is_written (write_all m.writes len) && m.rewound && m.appended

-- `submit_frame` at the time `now`, and a proxy that is not NULL
unfoldable pub submit_to : ℕ → ℕ → Memory → Frame → Face → Face
unfolding expected_size is_stored
submit_to proxy now m f s =
    if not (s.face_last_submit_us == 0) && ltb (now - s.face_last_submit_us) submit_interval_us
    then s
    else if ltb 0 s.face_submit_in_flight
    then s
    else if ltb f.size (expected_size f)
    then s
    else let noted = record s { face_last_submit_us = now } in
      if is_stored m (expected_size f)
      then record noted {
        face_submit_in_flight = s.face_submit_in_flight + 1;
        log = submit_frame_call proxy now (expected_size f) ∷ s.log;
      }
      else noted

-- `submit_frame`
unfoldable pub submit_frame : ℕ → Memory → Frame → Face → Face
submit_frame now m f s =
    if not s.face_submit_frames_enabled
      || not s.face_operation_started
      || not s.face_agent_has_access
    then s
    else elim s.face_agent_proxy [ none ↦ s | some proxy ↦ submit_to proxy now m f s ]

-- `on_new_sample`; `none` is a sample that is missing or has no caps, no size or no memory
unfoldable pub on_new_sample : ℕ → Memory → Option Frame → Face → Face
unfolding submit_frame
on_new_sample now m none s = s
on_new_sample now m (some f) s = submit_frame now m f s

-- `submit_frame_cb`, whatever the call came to
unfoldable pub submit_frame_cb : Face → Face
submit_frame_cb s =
    if ltb 0 s.face_submit_in_flight
    then record s { face_submit_in_flight = s.face_submit_in_flight - 1 }
    else s
