-- ===== src/Security/Entry.antt =====
-- src/pt-security-settings.c: the two password entries.
use furios_initial_setup.Common.{
  Bool, arith, false, if◌then◌else◌, length, ltb, not, sym, true, ◌↔◌, ◌≡◌, ◌≤◌,
}
use furios_initial_setup.Common.Bytes.{Bytes, bytes_eq, bytes_eq_refl, bytes_eq_sound}

-- The texts and the marks of the entries, and the property `ready`.
pub record Entries : Type 0 where
  pub password : Bytes
  pub verify : Bytes
  pub password_error : Bool
  pub verify_error : Bool
  pub ready : Bool

-- `update_password_match`
unfoldable pub update_password_match : Entries → Entries
update_password_match s =
    if ltb 0 (length s.verify)
    then if ltb (length s.password) 6
      then record s { password_error = true; verify_error = true; ready = false }
      else if not (bytes_eq s.password s.verify)
      then record s { password_error = false; verify_error = true; ready = false }
      else record s { password_error = false; verify_error = false; ready = true }
    else record s { verify_error = false; ready = false }

-- `pt_security_settings_set_property` and `pt_security_settings_get_property`, for the property ready
unfoldable pub pt_security_settings_set_property : Bool → Entries → Entries
pt_security_settings_set_property value s = record s { ready = value }

unfoldable pub pt_security_settings_get_property : Entries → Bool
pt_security_settings_get_property s = s.ready

-- The page lets the user go on exactly when the password has six bytes or more and was typed twice.
ready_iff :
    (s : Entries)
    → ((update_password_match s).ready ≡ true) ↔ ((6 ≤ length s.password) × (s.verify ≡ s.password))
unfolding update_password_match
ready_iff s = (forward, backward)
  where
    forward :
        (update_password_match s).ready ≡ true → (6 ≤ length s.password) × (s.verify ≡ s.password)
    forward h = (ground arith, sym (bytes_eq_sound s.password s.verify (ground arith)))

    backward :
        (6 ≤ length s.password) × (s.verify ≡ s.password) → (update_password_match s).ready ≡ true
    backward h = rw h.1 (ground (arith, bytes_eq_refl s.password))

-- Beside a password that is accepted, neither entry is marked wrong.
pub ready_unmarked :
    (s : Entries)
    → (update_password_match s).ready ≡ true
    → ((update_password_match s).password_error ≡ false)
      × ((update_password_match s).verify_error ≡ false)
unfolding update_password_match
ready_unmarked s h = ground arith
