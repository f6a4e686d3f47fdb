-- ===== src/Security/Stale.antt =====
-- src/run-passwd.c: the buffer of `io_watch_stdout` is static, and outlives a process and a handler.
use furios_initial_setup.Common.{[], arith, true, ℕ, ◌++◌, ◌∷◌, ◌≡◌}
use furios_initial_setup.Common.Bytes.{Bytes, strstr, strstr-append}
use furios_initial_setup.Passwd.Messages.{is_string_complete}
use furios_initial_setup.Passwd.Process.{Spawn, not_spawned, running}
use furios_initial_setup.Passwd.State.{new, spawned}
use furios_initial_setup.Security.Apply.{pt_security_settings_apply}
use furios_initial_setup.Security.Entry.{Entries}
use furios_initial_setup.Security.Protocol.{reads}

-- What was read from an earlier process and not taken for a prompt is read again before what the new
-- process prints. Where it holds "new", the prompt for the current password is taken for one for the
-- new password: the current password is dropped unsent and nobody is told.
stale_output_misleads :
    (s : Entries) (pid w c : ℕ) (again : Spawn) (stale o : Bytes)
    → s.ready ≡ true
    → strstr stale "new" ≡ true
    → is_string_complete (stale ++ o) ("assword: " ∷ []) ≡ true
    → let h =
        reads s.password again (pt_security_settings_apply s (running pid w c) stale) (o ∷ []) in
      (h.log ≡ spawned pid ∷ []) × (h.backend_state ≡ new) × (h.backend_stdin_queue ≡ [])
unfolding reads pt_security_settings_apply is_string_complete
stale_output_misleads s pid w c again stale o r n a = ground (arith, strstr-append stale o "new" n)

-- Where the process cannot be started the page is never told, neither of a failure nor of a success.
spawn_failure_silent :
    (s : Entries) (buffer : Bytes)
    → s.ready ≡ true
    → (pt_security_settings_apply s not_spawned buffer).log ≡ []
unfolding pt_security_settings_apply
spawn_failure_silent s buffer r = ground arith
