-- ===== src/Passwd/State.antt =====
-- src/run-passwd.c: the handler of one run of `passwd`.
use furios_initial_setup.Common.{Bool, List, Option, [], false, none, ℕ}
use furios_initial_setup.Common.Bytes.{Bytes}

pub data PasswdState : Type 0 where
  idle auth new retype done err : PasswdState

pub data PasswdError : Type 0 where
  rejected auth_failed reauth_failed backend unknown : PasswdError

-- The message of an error; `output` is what `passwd` printed.
pub data Message : Type 0 where
  authentication_failed too_short too_simple too_similar used_recently needs_numeric same_password :
      Message
  changed_since few_different unknown_error : Message
  output : Bytes → Message

-- A `GError`.
pub record Error : Type 0 where
  pub code : PasswdError
  pub message : Message

-- A call that leaves the handler: to the process, its channels and its watches, and to whoever wanted
-- to know how the change went.
pub data Effect : Type 0 where
  spawned killed closed_pid : ℕ → Effect
  shut_stdin shut_stdout : Effect
  removed_watch : ℕ → Effect
  wrote : Bytes → Effect
  applied : Bool → Effect

-- `C` is the type of the callbacks, each with its data. The process is `none` where the source has -1,
-- and a channel is `true` where it is not NULL. `buffer` is the static buffer of `io_watch_stdout`,
-- which no handler owns; `log` has the newest effect first.
pub record PasswdHandler (C : Type 0) : Type 0 where
  pub current_password : Option Bytes
  pub new_password : Option Bytes
  pub backend_pid : Option ℕ
  pub backend_stdin : Bool
  pub backend_stdout : Bool
  pub backend_stdin_queue : List Bytes
  pub backend_child_watch_id : ℕ
  pub backend_stdout_watch_id : ℕ
  pub backend_state : PasswdState
  pub changing_password : Bool
  pub auth_cb : Option C
  pub chpasswd_cb : Option C
  pub buffer : Bytes
  pub log : List Effect

-- `passwd_init`; the buffer is what an earlier handler left
unfoldable pub passwd_init : {C : Type 0} → Bytes → PasswdHandler C
passwd_init buffer = record {
  current_password = none;
  new_password = none;
  backend_pid = none;
  backend_stdin = false;
  backend_stdout = false;
  backend_stdin_queue = [];
  backend_child_watch_id = 0;
  backend_stdout_watch_id = 0;
  backend_state = idle;
  changing_password = false;
  auth_cb = none;
  chpasswd_cb = none;
  buffer = buffer;
  log = [];
}
