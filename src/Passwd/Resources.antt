-- ===== src/Passwd/Resources.antt =====
-- src/run-passwd.c: the process and its channels are released, once.
use furios_initial_setup.Common.{arith, false, none, ◌≡◌}
use furios_initial_setup.Passwd.Process.{free_passwd_resources, stop_passwd}
use furios_initial_setup.Passwd.State.{PasswdHandler, idle}

module _ {C : Type 0} where
  -- The handler holds nothing.
  pub record IsReleased (h : PasswdHandler C) : Type 0 where
    pub no_process : h.backend_pid ≡ none
    pub no_stdin : h.backend_stdin ≡ false
    pub no_stdout : h.backend_stdout ≡ false
    pub no_child_watch : h.backend_child_watch_id ≡ 0
    pub no_stdout_watch : h.backend_stdout_watch_id ≡ 0
    pub is_idle : h.backend_state ≡ idle

  pub free-IsReleased : (h : PasswdHandler C) → IsReleased (free_passwd_resources h)
  unfolding free_passwd_resources
  free-IsReleased h = ground arith

  -- Releasing twice releases once.
  released_stop : (h : PasswdHandler C) → IsReleased h → stop_passwd h ≡ h
  unfolding stop_passwd
  released_stop h r = ground arith
