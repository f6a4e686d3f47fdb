-- ===== src/Security/Apply.antt =====
-- src/pt-security-settings.c: applying the password. The callbacks of the handler of `passwd`, and the
-- handler as the page uses it.
use furios_initial_setup.Common.{Bool, Option, false, if◌then◌else◌, none, some, true, ◌∷◌}
use furios_initial_setup.Common.Bytes.{Bytes, bytes}
use furios_initial_setup.Passwd.Process.{Spawn, passwd_authenticate, passwd_change_password}
use furios_initial_setup.Passwd.State.{Error, PasswdHandler, applied, passwd_init}
use furios_initial_setup.Security.Entry.{Entries}

-- The callbacks, each with the page for its data.
pub data Callback : Type 0 where
  auth_callback password_changed : Callback

abbrev pub Handler : Type 0
Handler = PasswdHandler Callback

-- `priv->apply_cb (self, ok, …)`
abbrev pub apply_cb : Bool → Handler → Handler
apply_cb ok h = record h { log = applied ok ∷ h.log }

-- `password_changed_cb`
unfoldable pub password_changed_cb : Option Error → Handler → Handler
password_changed_cb none h = apply_cb true h
password_changed_cb (some error) h = apply_cb false h

abbrev pub default_password : Bytes
default_password = bytes "1234"

-- The page's password entry, and what becomes of a process that the second callback starts.
module _ (entry : Bytes) (spawn : Spawn) where
  -- `auth_cb`
  unfoldable pub authenticated_cb : Option Error → Handler → Handler
  unfolding passwd_change_password
  authenticated_cb none h = (passwd_change_password spawn entry password_changed h).0
  authenticated_cb (some error) h = apply_cb false h

  unfoldable pub notify : Callback → Option Error → Handler → Handler
  unfolding authenticated_cb password_changed_cb
  notify auth_callback error h = authenticated_cb error h
  notify password_changed error h = password_changed_cb error h

-- `pt_security_settings_apply`; the handler is new, the static buffer may hold an earlier output
unfoldable pub pt_security_settings_apply : Entries → Spawn → Bytes → Handler
unfolding passwd_authenticate passwd_init
pt_security_settings_apply s spawn buffer =
    if s.ready
    then passwd_authenticate spawn default_password auth_callback (passwd_init buffer)
    else apply_cb false (passwd_init buffer)
