-- ===== src/Setup/Ends.antt =====
-- src/run-passwd.c and src/pt-security-settings.c: the end of a process, and the start of a change.
use furios_initial_setup.Common.{
  All, Bool, Bool-cases, List, Option, arith, false, if◌then◌else◌, inl, inr, none, refl, some,
  true, ℕ, ◌&&◌, ◌++◌, ◌==◌, ◌∷◌, ◌≡◌, ◌⊎◌,
}
use furios_initial_setup.Common.Bytes.{Bytes}
use furios_initial_setup.Passwd.Process.{
  Exit, Spawn, authenticate, clearing, closing, exited, free_passwd_resources, killed_by_signal,
  not_configured, not_spawned, passwd_authenticate, running, spawn_passwd, stop_passwd,
}
use furios_initial_setup.Passwd.State.{
  Effect, closed_pid, done, passwd_init, removed_watch, shut_stdin, shut_stdout,
}
use furios_initial_setup.Passwd.Watch.{child_watch_cb, is_retype, notify_if_set}
use furios_initial_setup.Security.Apply.{Handler, notify, pt_security_settings_apply}
use furios_initial_setup.Security.Entry.{Entries}
use furios_initial_setup.Setup.Sent.{
  Outcome, Paid, Sound, Unsuccessful, asking, ended, failed, opened, sent_default, sent_once,
  sent_twice, succeeded, unwanted, unwanted_again,
}

module _ (P : Bytes → Type 0) (log : List Effect) where
  -- No success is reported without the passwords.
  abbrev Fair : List Effect → Type 0
  Fair newer = All Unsuccessful newer ⊎ Paid P (newer ++ log)

  Fair-cons : (e : Effect) (newer : List Effect) → Unsuccessful e → Fair newer → Fair (e ∷ newer)
  Fair-cons e newer u (inl all) = inl (u, all)
  Fair-cons e newer u (inr (p, k, sent)) = inr (p, k, inr sent)

  Fair-clearing : (id : ℕ) (newer : List Effect) → Fair newer → Fair (clearing id newer)
  Fair-clearing id newer h = elim (Bool-cases (id == 0)) [
    | inl e ↦ rw e h
    | inr e ↦ rw e (Fair-cons (removed_watch id) newer tt h)
  ]

  Fair-closing : (pid : Option ℕ) (newer : List Effect) → Fair newer → Fair (closing pid newer)
  Fair-closing none newer h = h
  Fair-closing (some pid) newer h = Fair-cons (closed_pid pid) newer tt h

  Fair-shut :
      (open_channel : Bool) (e : Effect) (newer : List Effect)
      → Unsuccessful e
      → Fair newer
      → Fair (if open_channel then e ∷ newer else newer)
  Fair-shut true e newer u h = Fair-cons e newer u h
  Fair-shut false e newer u h = h

  pub free-Outcome : (h : Handler) → Fair h.log → Outcome P log (free_passwd_resources h)
  unfolding free_passwd_resources
  free-Outcome h k = (
    ended refl refl,
    Fair-closing h.backend_pid _ (
        Fair-clearing h.backend_stdout_watch_id _ (
          Fair-shut h.backend_stdout shut_stdout _ tt (
            Fair-shut h.backend_stdin shut_stdin _ tt
              (Fair-clearing h.backend_child_watch_id h.log k)))),
  )

  -- What the start of a change leaves, however the process starts.
  pub apply-Outcome :
      (s : Entries) (spawn : Spawn) (buffer : Bytes)
      → s.ready ≡ true
      → Outcome P log (pt_security_settings_apply s spawn buffer)
  unfolding pt_security_settings_apply free_passwd_resources stop_passwd authenticate
      passwd_authenticate spawn_passwd passwd_init
  apply-Outcome s not_spawned buffer ready = rw ready (ended refl refl, inl tt)
  apply-Outcome s (not_configured pid) buffer ready =
      rw ready (ended refl refl, inl (tt, (tt, (tt, (tt, (tt, tt))))))
  apply-Outcome s (running pid w c) buffer ready =
      rw ready (asking (refl, refl, refl) refl refl refl, inl (tt, tt))

  module _ (entry : Bytes) (again : Spawn) (buffer : Bytes) where
    abbrev concluded : Handler → Handler
    concluded h =
        notify_if_set (notify entry again) h.chpasswd_cb none
          (record (opened buffer h) { backend_state = done })

    -- An exit with status 0 is taken for a success only after the passwords were sent.
    concluded-Fair :
        (h : Handler)
        → (h.backend_child_watch_id == 0) ≡ false
        → is_retype h.backend_state ≡ true
        → Sound P log h
        → Fair (concluded h).log
    unfolding notify
    concluded-Fair h live r (ended a b) = ground (arith, b, live)
    concluded-Fair h live r (asking p a b c) = ground (arith, a, r)
    concluded-Fair h live r (sent_default p a b c d) = ground (arith, a, r)
    concluded-Fair h live r (unwanted a b c) = ground (arith, a, r)
    concluded-Fair h live r (unwanted_again a b) = rw b (inl tt)
    concluded-Fair h live r (sent_once p k a b c d) = ground (arith, a, r)
    concluded-Fair h live r (sent_twice p k a b sent) = rw b (inr (p, k, inl (refl, sent)))
    concluded-Fair h live r (succeeded a) = ground (arith, a, r)
    concluded-Fair h live r (failed a) = ground (arith, a, r)

    -- The end of a process, while it is watched.
    pub ended-Outcome :
        (h : Handler) (exit : Exit)
        → (h.backend_child_watch_id == 0) ≡ false
        → Sound P log h
        → Outcome P log (child_watch_cb (notify entry again) exit (opened buffer h))
    unfolding child_watch_cb
    ended-Outcome h killed_by_signal live sound = free-Outcome (opened buffer h) (inl tt)
    ended-Outcome h (exited code) live sound =
        elim (Bool-cases (code == 0 && is_retype h.backend_state)) [
          | inl e ↦ rw e (free-Outcome (concluded h) (concluded-Fair h live (ground arith) sound))
          | inr e ↦ rw e (free-Outcome (opened buffer h) (inl tt))
        ]
