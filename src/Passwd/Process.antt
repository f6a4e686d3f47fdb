-- ===== src/Passwd/Process.antt =====
-- src/run-passwd.c: the process, its channels and its queue.
use furios_initial_setup.Common.{
  Bool, List, Option, [], false, if◌then◌else◌, is_some, none, some, true, ℕ, ◌++◌, ◌==◌, ◌∷◌,
}
use furios_initial_setup.Common.Bytes.{Bytes, bytes}
use furios_initial_setup.Passwd.State.{
  Effect, PasswdHandler, PasswdState, closed_pid, err, idle, killed, removed_watch, shut_stdin,
  shut_stdout, spawned, wrote,
}

-- What starting the process comes to: it fails, its channels cannot be set up, or it runs, with the
-- handles of the two watches, on its output and on itself.
pub data Spawn : Type 0 where
  not_spawned : Spawn
  not_configured : ℕ → Spawn
  running : ℕ → ℕ → ℕ → Spawn

-- How the process ended: with a status, or by a signal.
pub data Exit : Type 0 where
  exited : ℕ → Exit
  killed_by_signal : Exit

-- `g_clear_handle_id (…, g_source_remove)`
abbrev pub clearing : ℕ → List Effect → List Effect
clearing id log = if id == 0 then log else removed_watch id ∷ log

abbrev pub closing : Option ℕ → List Effect → List Effect
closing none log = log
closing (some pid) log = closed_pid pid ∷ log

abbrev pub killing : Option ℕ → List Effect → List Effect
killing none log = log
killing (some pid) log = killed pid ∷ log

abbrev pub dropped : List Bytes → List Bytes
dropped [] = []
dropped (line ∷ queue) = queue

-- `g_strdup_printf ("%s\n", password)`, which prints a NULL as `(null)`
abbrev pub line_of : Option Bytes → Bytes
line_of none = bytes "(null)\n"
line_of (some password) = password ++ bytes "\n"

abbrev pub is_err : PasswdState → Bool
is_err err = true
is_err _ = false

module _ {C : Type 0} where
  -- `free_passwd_resources`
  unfoldable pub free_passwd_resources : PasswdHandler C → PasswdHandler C
  free_passwd_resources h =
      let unwatched = clearing h.backend_child_watch_id h.log in
      let written = if h.backend_stdin then shut_stdin ∷ unwatched else unwatched in
      let read = if h.backend_stdout then shut_stdout ∷ written else written in
      record h {
        backend_child_watch_id = 0;
        backend_stdin = false;
        backend_stdout = false;
        backend_stdout_watch_id = 0;
        backend_pid = none;
        backend_state = idle;
        log = closing h.backend_pid (clearing h.backend_stdout_watch_id read);
      }

  -- `stop_passwd`
  unfoldable pub stop_passwd : PasswdHandler C → PasswdHandler C
  unfolding free_passwd_resources
  stop_passwd h = free_passwd_resources (record h { log = killing h.backend_pid h.log })

  -- `spawn_passwd`
  unfoldable pub spawn_passwd : Spawn → PasswdHandler C → PasswdHandler C × Bool
  unfolding free_passwd_resources stop_passwd
  spawn_passwd not_spawned h = (free_passwd_resources h, false)
  spawn_passwd (not_configured pid) h = (
    stop_passwd (record h {
      backend_pid = some pid;
      backend_stdin = true;
      backend_stdout = true;
      log = spawned pid ∷ h.log;
    }),
    false,
  )
  spawn_passwd (running pid stdout_watch child_watch) h = (
    record h {
      backend_pid = some pid;
      backend_stdin = true;
      backend_stdout = true;
      backend_stdout_watch_id = stdout_watch;
      backend_child_watch_id = child_watch;
      log = spawned pid ∷ h.log;
    },
    true,
  )

  abbrev pub popped : List Bytes → PasswdHandler C → PasswdHandler C
  popped [] h = h
  popped (line ∷ queue) h = record h { backend_stdin_queue = queue; log = wrote line ∷ h.log }

  -- `io_queue_pop`, to the standard input of the process; a failed write is only logged
  unfoldable pub io_queue_pop : PasswdHandler C → PasswdHandler C
  io_queue_pop h = popped h.backend_stdin_queue h

  -- `authenticate`
  unfoldable pub authenticate : PasswdHandler C → PasswdHandler C
  authenticate h = record h {
    backend_stdin_queue = h.backend_stdin_queue ++ line_of h.current_password ∷ [];
  }

  -- `update_password`
  unfoldable pub update_password : PasswdHandler C → PasswdHandler C
  update_password h = record h {
    backend_stdin_queue =
        h.backend_stdin_queue ++ line_of h.new_password ∷ line_of h.new_password ∷ [];
  }

  -- `passwd_authenticate`; `cb` comes with its data
  unfoldable pub passwd_authenticate : Spawn → Bytes → C → PasswdHandler C → PasswdHandler C
  unfolding stop_passwd spawn_passwd authenticate
  passwd_authenticate spawn password cb h =
      if h.changing_password
      then h
      else let cleared = record h {
        new_password = none;
        chpasswd_cb = none;
        backend_stdin_queue = [];
        current_password = some password;
        auth_cb = some cb;
      } in
        let (started, ok) = spawn_passwd spawn (stop_passwd cleared) in
        if ok then authenticate started else started

  -- The first password is sent at once if there is a current one.
  send : PasswdHandler C → PasswdHandler C
  unfolding io_queue_pop
  send h = if is_some h.current_password then io_queue_pop h else h

  -- `passwd_change_password`
  unfoldable pub passwd_change_password :
      Spawn → Bytes → C → PasswdHandler C → PasswdHandler C × Bool
  unfolding stop_passwd spawn_passwd authenticate update_password send
  passwd_change_password spawn password cb h =
      let asked = record h {
        changing_password = true;
        new_password = some password;
        chpasswd_cb = some cb;
      } in
      let ready = if is_err h.backend_state then stop_passwd asked else asked in
      if is_some ready.backend_pid
      then (send (update_password ready), true)
      else let (started, ok) = spawn_passwd spawn (stop_passwd ready) in
        if ok then (send (update_password (authenticate started)), true) else (started, false)

  -- `passwd_destroy`, but for the memory
  unfoldable pub passwd_destroy : PasswdHandler C → PasswdHandler C
  unfolding stop_passwd
  passwd_destroy h = stop_passwd (record h { backend_stdin_queue = [] })
