-- ===== src/Security/Protocol.antt =====
-- src/run-passwd.c and src/pt-security-settings.c: a change of the password from end to end.
use furios_initial_setup.Common.{
  Bool, List, Option, [], arith, false, none, refl, some, true, ℕ, ◌++◌, ◌∷◌, ◌≡◌,
}
use furios_initial_setup.Common.Bytes.{Bytes, bytes, strstr}
use furios_initial_setup.Passwd.Messages.{is_authenticated, is_string_complete, verdict_words}
use furios_initial_setup.Passwd.Process.{Spawn, running}
use furios_initial_setup.Passwd.State.{
  Effect, PasswdState, applied, auth, idle, new, retype, spawned, wrote,
}
use furios_initial_setup.Passwd.Watch.{io_watch_stdout}
use furios_initial_setup.Security.Apply.{
  Callback, Handler, auth_callback, default_password, notify, password_changed,
  pt_security_settings_apply,
}
use furios_initial_setup.Security.Entry.{Entries}

module _ (entry : Bytes) (spawn : Spawn) where
  -- What `passwd` prints, read by read.
  unfoldable pub reads : Handler → List Bytes → Handler
  unfolding io_watch_stdout notify
  reads h [] = h
  reads h (chunk ∷ chunks) = reads (io_watch_stdout (notify entry spawn) (some chunk) h) chunks

-- A prompt for the current password.
abbrev pub AsksCurrent : Bytes → Type 0
AsksCurrent text =
    (is_string_complete text ("assword: " ∷ []) ≡ true)
    × (is_string_complete text ("new" ∷ "New" ∷ []) ≡ false)

-- The prompt for the new password, which means that the current one was right.
abbrev pub Accepts : Bytes → Type 0
Accepts text =
    (is_string_complete text ("assword: " ∷ "failure" ∷ "wrong" ∷ "error" ∷ []) ≡ true)
    × (is_authenticated text ≡ true)

abbrev pub Refuses : Bytes → Type 0
Refuses text =
    (is_string_complete text ("assword: " ∷ "failure" ∷ "wrong" ∷ "error" ∷ []) ≡ true)
    × (is_authenticated text ≡ false)

abbrev pub AsksAgain : Bytes → Type 0
AsksAgain text = is_string_complete text ("assword: " ∷ []) ≡ true

abbrev pub Concludes : Bytes → Type 0
Concludes text = is_string_complete text verdict_words ≡ true

abbrev pub line : Bytes → Bytes
line password = password ++ bytes "\n"

module _ (s : Entries) (pid w c : ℕ) (ready : s.ready ≡ true) (again : Spawn) where
  -- The handler in the course of the change.
  abbrev pub course :
      PasswdState → List Bytes → List Effect → Option Bytes → Option Callback → Bool → Handler
  course state queue log password cb changing = record {
    current_password = some default_password;
    new_password = password;
    backend_pid = some pid;
    backend_stdin = true;
    backend_stdout = true;
    backend_stdin_queue = queue;
    backend_child_watch_id = c;
    backend_stdout_watch_id = w;
    backend_state = state;
    changing_password = changing;
    auth_cb = some auth_callback;
    chpasswd_cb = cb;
    buffer = [];
    log = log;
  }

  pub started-course :
      pt_security_settings_apply s (running pid w c) []
      ≡ course idle (line default_password ∷ []) (spawned pid ∷ []) none none false
  unfolding pt_security_settings_apply
  started-course = rw ready

  pub read_current :
      (o : Bytes) (log : List Effect)
      → AsksCurrent o
      → io_watch_stdout
          (notify s.password again)
          (some o)
          (course idle (line default_password ∷ []) log none none false)
        ≡ course auth [] (wrote (line default_password) ∷ log) none none false
  unfolding io_watch_stdout
  read_current o log a = ground arith

  pub read_accepted :
      (o : Bytes) (log : List Effect)
      → Accepts o
      → io_watch_stdout (notify s.password again) (some o) (course auth [] log none none false)
        ≡ course new
            (line s.password ∷ [])
            (wrote (line s.password) ∷ log)
            (some s.password)
            (some password_changed)
            true
  unfolding io_watch_stdout notify
  read_accepted o log a = ground arith

  pub read_again :
      (o q : Bytes) (log : List Effect)
      → AsksAgain o
      → io_watch_stdout
          (notify s.password again)
          (some o)
          (course new (q ∷ []) log (some s.password) (some password_changed) true)
        ≡ course retype [] (wrote q ∷ log) (some s.password) (some password_changed) true
  unfolding io_watch_stdout
  read_again o q log a = ground arith

  pub read_verdict :
      (o : Bytes) (log : List Effect)
      → Concludes o
      → (io_watch_stdout
          (notify s.password again)
          (some o)
          (course retype [] log (some s.password) (some password_changed) true)).log
        ≡ applied (strstr o "successfully") ∷ log
  unfolding io_watch_stdout notify
  read_verdict o log a = ground arith

  abbrev started : Handler
  started = pt_security_settings_apply s (running pid w c) []

  -- The refusal leaves everything as it was but for the log.
  read_refused :
      (o : Bytes) (log : List Effect)
      → Refuses o
      → io_watch_stdout (notify s.password again) (some o) (course auth [] log none none false)
        ≡ course auth [] (applied false ∷ log) none none false
  unfolding io_watch_stdout notify
  read_refused o log a = ground arith

  -- Where the page is ready, and `passwd` asks for the current password and refuses it, the default
  -- password is all that was sent when the page is told so, once. But the change is not over: if prompts
  -- for a new password followed the refusal, the new password would be sent to both.
  pub refused_end_to_end :
      (o1 o2 o3 o4 : Bytes)
      → AsksCurrent o1
      → Refuses o2
      → Accepts o3
      → AsksAgain o4
      → let refused = applied false ∷ wrote (line default_password) ∷ spawned pid ∷ [] in
        let new_line = line s.password in
        ((reads s.password again started (o1 ∷ o2 ∷ [])).log ≡ refused)
        × ((reads s.password again started (o1 ∷ o2 ∷ o3 ∷ o4 ∷ [])).log
            ≡ wrote new_line ∷ wrote new_line ∷ refused)
  unfolding reads
  refused_end_to_end o1 o2 o3 o4 a b c' d =
      let l0 = spawned pid ∷ [] in
      let l1 = wrote (line default_password) ∷ l0 in
      let l2 = applied false ∷ l1 in
      rw
        (
          started-course,
          read_current o1 l0 a,
          read_refused o2 l1 b,
          read_accepted o3 l2 c',
          read_again o4 (line s.password) (wrote (line s.password) ∷ l2) d,
        )
        (refl, refl)

  -- Where there is no password, `passwd` asks for a new one at once: the page has not given it yet, so
  -- nothing is sent and nobody is told, with the queue empty.
  pub no_password_stalls :
      (o1 : Bytes)
      → is_string_complete o1 ("assword: " ∷ []) ≡ true
      → is_string_complete o1 ("new" ∷ "New" ∷ []) ≡ true
      → let h = reads s.password again started (o1 ∷ []) in
        (h.log ≡ spawned pid ∷ []) × (h.backend_state ≡ new) × (h.backend_stdin_queue ≡ [])
  unfolding reads pt_security_settings_apply
  no_password_stalls o1 a b = ground arith
