-- ===== src/Security/Groups.antt =====
-- src/pt-security-settings.c: which ways to unlock the page offers, and the end of the page.
use furios_initial_setup.Biomd.{SyncReply}
use furios_initial_setup.Common.{Bool, Option, none, some}
use furios_initial_setup.Face.State.{Face, FaceRow, PropertyReply}
use furios_initial_setup.Face.Step.{
  FaceProxies, pt_security_settings_face_available, pt_security_settings_face_finalize,
}
use furios_initial_setup.Fingerprint.State.{Fingerprint}
use furios_initial_setup.Fingerprint.Step.{
  pt_security_settings_fingerprint_available, pt_security_settings_fingerprint_finalize,
}

-- The groups of the page with the states of the enrolments behind them.
pub record Groups : Type 0 where
  pub fingerprint_group : Bool
  pub fingerprint : Fingerprint
  pub face : Face

-- What biomd answers while the page is made.
pub record Biomd : Type 0 where
  pub ping : SyncReply
  pub fingerprint_hardware : SyncReply
  pub face_ping : SyncReply
  pub face_proxies : FaceProxies
  pub implementation_type : PropertyReply
  pub enrolled : PropertyReply

show_face_group : Bool → Option FaceRow → Option FaceRow
show_face_group shown none = none
show_face_group shown (some row) = some (record row { group_visible = shown })

with_face_group : Face × Bool → Face
unfolding show_face_group
with_face_group (face, shown) = record face { face_row = show_face_group shown face.face_row }

-- `pt_security_settings_init`
unfoldable pub pt_security_settings_init : Biomd → Groups → Groups
unfolding with_face_group
pt_security_settings_init b s = record s {
  fingerprint_group = pt_security_settings_fingerprint_available b.ping b.fingerprint_hardware;
  face = with_face_group (
      pt_security_settings_face_available b.face_ping b.face_proxies b.implementation_type
        b.enrolled s.face);
}

-- `pt_security_settings_finalize`
unfoldable pub pt_security_settings_finalize : Groups → Groups
pt_security_settings_finalize s = record s {
  fingerprint = pt_security_settings_fingerprint_finalize s.fingerprint;
  face = pt_security_settings_face_finalize s.face;
}
