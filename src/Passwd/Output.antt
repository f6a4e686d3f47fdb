-- ===== src/Passwd/Output.antt =====
-- src/run-passwd.c: how the output is taken in.
use mathlib.Core.List.{append_assoc}
use furios_initial_setup.Common.{
  Bool, Option, [], ap, arith, false, not, some, true, ℕ, ◌++◌, ◌∙◌, ◌∷◌, ◌≡◌, ◌≢◌, ◌⊎◌,
}
use furios_initial_setup.Common.Bytes.{Bytes}
use furios_initial_setup.Passwd.Messages.{is_string_complete, verdict_words}
use furios_initial_setup.Passwd.Process.{exited, free_passwd_resources}
use furios_initial_setup.Passwd.State.{
  Error, PasswdHandler, PasswdState, auth, done, err, idle, new, retype,
}
use furios_initial_setup.Passwd.Watch.{child_watch_cb, io_watch_stdout, on_output}

module _ {C : Type 0} (notify : C → Option Error → PasswdHandler C → PasswdHandler C) where
  -- The text says nothing yet: more is waited for.
  abbrev pub says_nothing : PasswdState → Bytes → Bool
  says_nothing auth text =
      not (is_string_complete text ("assword: " ∷ "failure" ∷ "wrong" ∷ "error" ∷ []))
  says_nothing new text = not (is_string_complete text ("assword: " ∷ []))
  says_nothing retype text = not (is_string_complete text verdict_words)
  says_nothing idle text = not (is_string_complete text ("assword: " ∷ []))
  says_nothing done text = false
  says_nothing err text = false

  on_output-says_nothing :
      (st : PasswdState) (text : Bytes) (h : PasswdHandler C)
      → says_nothing st text ≡ true
      → on_output notify st text h ≡ (h, false)
  unfolding on_output
  on_output-says_nothing auth text h e = ground arith
  on_output-says_nothing new text h e = ground arith
  on_output-says_nothing retype text h e = ground arith
  on_output-says_nothing idle text h e = ground arith
  on_output-says_nothing done text h e = cc
  on_output-says_nothing err text h e = cc

  io_watch_stdout-says_nothing :
      (h : PasswdHandler C) (chunk : Bytes)
      → says_nothing h.backend_state (h.buffer ++ chunk) ≡ true
      → io_watch_stdout notify (some chunk) h ≡ record h { buffer = h.buffer ++ chunk }
  unfolding io_watch_stdout
  io_watch_stdout-says_nothing h chunk e = rw (
      on_output-says_nothing h.backend_state (h.buffer ++ chunk)
        (record h { buffer = h.buffer ++ chunk }) e)

  -- How the output is cut into reads makes no difference, as long as the first part says nothing.
  pub io_watch_stdout-append :
      (h : PasswdHandler C) (first second : Bytes)
      → says_nothing h.backend_state (h.buffer ++ first) ≡ true
      → io_watch_stdout notify (some second) (io_watch_stdout notify (some first) h)
        ≡ io_watch_stdout notify (some (first ++ second)) h
  unfolding io_watch_stdout
  io_watch_stdout-append h first second e =
      ap (io_watch_stdout notify (some second)) (io_watch_stdout-says_nothing h first e)
      ∙ rw (append_assoc h.buffer first second)

  -- After the verdict, or an error, nothing is sent and nobody is told, whatever is printed.
  over_is_silent :
      (h : PasswdHandler C) (chunk : Bytes)
      → (h.backend_state ≡ done) ⊎ (h.backend_state ≡ err)
      → io_watch_stdout notify (some chunk) h ≡ record h { buffer = [] }
  unfolding io_watch_stdout
  over_is_silent h chunk o = ground arith

  -- An end of the process that is not a success, or comes before the last password was sent, is told
  -- to nobody.
  failed_exit_silent :
      (h : PasswdHandler C) (n : ℕ)
      → (n ≢ 0) ⊎ (h.backend_state ≢ retype)
      → child_watch_cb notify (exited n) h ≡ free_passwd_resources h
  unfolding child_watch_cb
  failed_exit_silent h n o = ground arith
