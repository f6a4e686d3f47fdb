-- ===== src/Update/Failures.antt =====
-- src/pt-update-progress.c: the error paths, and what the user sees of them.
use furios_initial_setup.Common.{arith, false, none, not, true, ◌&&◌, ◌==◌, ◌≡◌}
use furios_initial_setup.Update.Provision.{Facts, Library}
use furios_initial_setup.Update.State.{Env, Progress, good_to_go, is_repair}
use furios_initial_setup.Update.Step.{
  Event, cache_called, error_read, step, transaction_ready, upgrade_called,
}
use furios_initial_setup.Update.Transaction.{ErrorReply, failed, is_cache_broken}

-- A failed call of UpdateCache or UpgradeSystem, or an error of a transaction that is not repaired.
abbrev pub IsFailure : Event → Progress → Type 0
IsFailure (cache_called (failed _)) s = Unit
IsFailure (upgrade_called (failed _)) s = Unit
IsFailure (error_read reply) s =
    (is_cache_broken reply
      && s.broken_dependency_repairs == 0
      && not (is_repair s.current_transaction))
    ≡ false
IsFailure _ s = ⊥

module _ (lib : Library) (f : Facts) where
  -- Since `did_update_any` is set when updates are found, a failed installation offers a reboot and
  -- hides its message.
  failed_install_hidden :
      (e : Env) (reply : ErrorReply) (s : Progress)
      → IsFailure (error_read reply) s
      → s.did_update_any ≡ true
      → let t = step lib f e (error_read reply) s in
        (t.had_error ≡ true) × (t.label_visible ≡ false) × (t.reboot_visible ≡ true)
  unfolding step
  failed_install_hidden e reply s h d = ground arith

  -- A transaction whose proxy cannot be made is reported as a success.
  proxy_failure_good_to_go :
      (e : Env) (s : Progress)
      → s.had_error ≡ false
      → s.did_update_any ≡ false
      → let t = step lib f e (transaction_ready none) s in
        (t.ready ≡ true) × (t.label ≡ good_to_go) × (t.label_visible ≡ true)
  unfolding step
  proxy_failure_good_to_go e s h d = ground arith
