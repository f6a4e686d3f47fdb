-- ===== src/Passwd/Watch.antt =====
-- src/run-passwd.c: the watches on the process's output and on its end.
use furios_initial_setup.Common.{
  Bool, Option, [], false, if◌then◌else◌, is_some, none, some, true, ◌&&◌, ◌++◌, ◌==◌, ◌∷◌,
}
use furios_initial_setup.Common.Bytes.{Bytes, strstr}
use furios_initial_setup.Passwd.Messages.{
  classify, is_authenticated, is_string_complete, verdict_words,
}
use furios_initial_setup.Passwd.Process.{
  Exit, dropped, exited, free_passwd_resources, io_queue_pop, killed_by_signal,
}
use furios_initial_setup.Passwd.State.{
  Error, PasswdHandler, PasswdState, auth, auth_failed, authentication_failed, done, err, idle, new,
  retype,
}

abbrev pub is_retype : PasswdState → Bool
is_retype retype = true
is_retype _ = false

-- `notify` calls a callback, with NULL or an error.
module _ {C : Type 0} (notify : C → Option Error → PasswdHandler C → PasswdHandler C) where
  abbrev pub notify_if_set : Option C → Option Error → PasswdHandler C → PasswdHandler C
  notify_if_set none error h = h
  notify_if_set (some cb) error h = notify cb error h

  -- An error of the current password, for whoever waits.
  refused_cb : PasswdHandler C → PasswdHandler C
  refused_cb h =
      let error : Option Error =
        some (record { code = auth_failed; message = authentication_failed }) in
      if is_some h.chpasswd_cb
      then notify_if_set h.chpasswd_cb error h
      else notify_if_set h.auth_cb error h

  -- The state AUTH: `passwd` has answered to the current password.
  on_auth : Bytes → PasswdHandler C → PasswdHandler C × Bool
  unfolding refused_cb
  on_auth text h =
      if is_string_complete text ("assword: " ∷ "failure" ∷ "wrong" ∷ "error" ∷ [])
      then if is_authenticated text
        then (notify_if_set h.auth_cb none (record h { backend_state = new }), true)
        else (refused_cb (record h { changing_password = false }), true)
      else (h, false)

  -- The state NEW: it asks for the new password, once more.
  on_new : Bytes → PasswdHandler C → PasswdHandler C × Bool
  unfolding io_queue_pop
  on_new text h =
      if is_string_complete text ("assword: " ∷ [])
      then (io_queue_pop (record h { backend_state = retype }), true)
      else (h, false)

  -- The state RETYPE: it has accepted the new password, or not.
  on_retype : Bytes → PasswdHandler C → PasswdHandler C × Bool
  on_retype text h =
      if is_string_complete text verdict_words
      then if strstr text "successfully"
        then (notify_if_set h.chpasswd_cb none (record h { backend_state = done }), true)
        else (
          notify_if_set h.chpasswd_cb (some (classify text))
              (record h { backend_state = err; changing_password = false }),
          true,
        )
      else (h, false)

  -- The state NONE: it asks for the current password, or for a new one where there is none.
  on_idle : Bytes → PasswdHandler C → PasswdHandler C × Bool
  unfolding io_queue_pop
  on_idle text h =
      if is_string_complete text ("assword: " ∷ [])
      then if is_string_complete text ("new" ∷ "New" ∷ [])
        then (
          io_queue_pop (record h {
            backend_state = new;
            backend_stdin_queue = dropped h.backend_stdin_queue;
          }),
          true,
        )
        else (io_queue_pop (record h { backend_state = auth }), true)
      else (h, false)

  unfoldable pub on_output : PasswdState → Bytes → PasswdHandler C → PasswdHandler C × Bool
  unfolding on_auth on_new on_retype on_idle
  on_output auth text h = on_auth text h
  on_output new text h = on_new text h
  on_output retype text h = on_retype text h
  on_output idle text h = on_idle text h
  on_output done text h = (h, true)
  on_output err text h = (h, true)

  -- `io_watch_stdout`, told what was read; `none` is a read that fails with an error. A read that ends
  -- with EOF or G_IO_STATUS_AGAIN has none: the source then reads the message of NULL, and the program
  -- goes no further.
  unfoldable pub io_watch_stdout : Option Bytes → PasswdHandler C → PasswdHandler C
  unfolding on_output
  io_watch_stdout none h = h
  io_watch_stdout (some chunk) h =
      let text = h.buffer ++ chunk in
      let (h', reinit) = on_output h.backend_state text (record h { buffer = text }) in
      if reinit then record h' { buffer = [] } else h'

  -- `child_watch_cb`
  unfoldable pub child_watch_cb : Exit → PasswdHandler C → PasswdHandler C
  unfolding free_passwd_resources
  child_watch_cb killed_by_signal h = free_passwd_resources h
  child_watch_cb (exited status) h = free_passwd_resources (
      if status == 0 && is_retype h.backend_state
      then notify_if_set h.chpasswd_cb none (record h { backend_state = done })
      else h)
