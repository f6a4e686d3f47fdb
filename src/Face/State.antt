-- ===== src/Face/State.antt =====
-- src/pt-security-settings-face.c: the part of the password page's private data that the enrolment of
-- a face uses, and what it reads from biomd.
use furios_initial_setup.Common.{
  Bool, List, Option, String, false, if◌then◌else◌, none, some, true, ℕ, ◌||◌, ◌∷◌,
}
use furios_initial_setup.Common.Int.{ℤ}

-- The states of an enrolment in fart_enums.h; a number that is none of them is `enrollment_unknown`.
pub data EnrollmentState : Type 0 where
  enrollment_idle enrollment_fail enrollment_in_progress enrollment_complete : EnrollmentState
  enrollment_save_failed enrollment_multiple_faces enrollment_no_face : EnrollmentState
  enrollment_bad_lighting enrollment_unknown : EnrollmentState

-- What a toast says: the translated messages of the source.
pub data Toast : Type 0 where
  camera_not_started viewfinder_not_created frame_sink_not_created : Toast
  enrollment_not_started enrollment_started access_revoked : Toast
  agent_not_registered agent_proxy_not_created agent_not_created face_enrolled_toast : Toast
  state_message : EnrollmentState → Toast

-- A call that leaves the program: a toast, or a call over D-Bus. Proxies are named by numbers; an
-- object path that is NULL is `none`. `submit_frame_call` has the proxy, the time and the size.
pub data Call : Type 0 where
  toast : Toast → Call
  cancel_agent : ℕ → Call
  unregister_agent : Call
  destroy_agent : String → Call
  create_agent : Call
  new_agent_proxy : String → Call
  register_agent : Option String → Call
  start_enrollment : ℕ → Call
  submit_frame_call : ℕ → ℕ → ℕ → Call

-- The title, the subtitle and the sensitivity of the row, and whether its group is visible.
pub record FaceRow : Type 0 where
  pub already_enrolled : Bool
  pub group_visible : Bool

-- A NULL pointer is `none`. The pipeline of the camera comes with whether it plays, and the sheet with
-- whether it is open, which is when it is visible. `enroll_fraction` is in hundredths, and
-- `cancel_handlers` how many handlers the button that cancels has; `log` has the newest call first.
pub record Face : Type 0 where
  pub toast_overlay : Bool
  pub face_proxy : Bool
  pub face_props_proxy : Bool
  pub face_agent_proxy : Option ℕ
  pub face_agent_path : Option String
  pub face_row : Option FaceRow
  pub face_bottom_sheet : Option Bool
  pub face_camera_pipeline : Option Bool
  pub face_appsink : Bool
  pub enroll_fraction : ℕ
  pub face_available : Bool
  pub face_enrolled : Bool
  pub face_agent_has_access : Bool
  pub face_operation_started : Bool
  pub face_start_call_in_flight : Bool
  pub face_submit_frames_enabled : Bool
  pub face_submit_in_flight : ℕ
  pub face_last_submit_us : ℕ
  pub face_last_enrollment_state : ℕ
  pub face_last_enrollment_progress : ℤ
  pub cancel_handlers : ℕ
  pub log : List Call

-- The answer to a request for a property.
pub data PropertyReply : Type 0 where
  property_failed : PropertyReply
  boolean_value : Bool → PropertyReply
  int32_value : ℤ → PropertyReply
  other_value : PropertyReply

-- The answer to a call: an error with or without "already registered" in its message, a Boolean, or a
-- value of another type.
pub data Reply : Type 0 where
  failed_reply : Bool → Reply
  boolean_reply : Bool → Reply
  other_reply : Reply

abbrev pub emit : Call → Face → Face
emit c s = record s { log = c ∷ s.log }

-- `show_toast`
unfoldable pub show_toast : Toast → Face → Face
show_toast text s = if s.toast_overlay then emit (toast text) s else s

-- Whether a reply stands for success.
unfoldable pub is_success : Reply → Bool
is_success (failed_reply registered) = false
is_success (boolean_reply b) = b
is_success other_reply = true

-- `update_face_enrolled`, for the answer that it gets if it can ask
unfoldable pub update_face_enrolled : PropertyReply → Face → Face
update_face_enrolled (boolean_value b) s =
    if s.face_props_proxy then record s { face_enrolled = b } else s
update_face_enrolled property_failed s = s
update_face_enrolled (int32_value n) s = s
update_face_enrolled other_value s = s

row_for : Bool → Option FaceRow → Option FaceRow
row_for enrolled none = none
row_for enrolled (some row) =
    some (record { already_enrolled = enrolled; group_visible = enrolled || row.group_visible })

-- `update_face_row`
unfoldable pub update_face_row : Face → Face
unfolding row_for
update_face_row s = record s { face_row = row_for s.face_enrolled s.face_row }
