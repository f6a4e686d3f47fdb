-- ===== src/Update/Verdict.antt =====
-- src/pt-update-progress.c: how a check that finds nothing goes on.
use furios_initial_setup.Common.{
  String, [], ap, arith, false, if◌then◌else◌, is_some, not, refl, some, true, ℕ, ◌&&◌, ◌∙◌, ◌∷◌,
  ◌≡◌,
}
use furios_initial_setup.Update.Provision.{Facts, Library}
use furios_initial_setup.Update.Rounds.{IsChecking, checking_again, launched}
use furios_initial_setup.Update.State.{
  Env, Progress, call_upgrade_system, check_updates, checking, finish, good_to_go, update_cache,
}
use furios_initial_setup.Update.Step.{run, signalled, step, transaction_ready, upgrade_called}
use furios_initial_setup.Update.Transaction.{
  Packages, aptkit_check_for_updates, aptkit_transaction_proxy_cb, aptkit_transaction_signal_cb,
  exit_state, on_packages, on_property, packages, path, property_changed,
}

module _ (lib : Library) (f : Facts) (e : Env) (p : ℕ) (a b : Packages) (s : Progress) where
  nothing_found_safe :
      IsChecking p s
      → aptkit_check_for_updates a b ≡ false
      → s.safe_mode ≡ true
      → s.tried_safe_mode ≡ false
      → aptkit_transaction_signal_cb p (property_changed (packages a (some b))) s ≡ record s {
        transaction_handled = true;
        tried_safe_mode = true;
        safe_mode = false;
        current_transaction = check_updates;
        label = checking;
        log = call_upgrade_system false ∷ s.log;
      }
  unfolding aptkit_transaction_signal_cb on_property on_packages
  nothing_found_safe c u m t = ground arith

  nothing_found_normal :
      IsChecking p s
      → aptkit_check_for_updates a b ≡ false
      → (s.safe_mode && not s.tried_safe_mode) ≡ false
      → aptkit_transaction_signal_cb p (property_changed (packages a (some b))) s
        ≡ finish (record s { transaction_handled = true })
  unfolding aptkit_transaction_signal_cb on_property on_packages
  nothing_found_normal c u m = ground arith

module _ (lib : Library) (f : Facts) where
  -- When a check finds nothing: in safe mode, the first time, the next check is in normal mode.
  -- Otherwise the updates are over, with a reboot on offer if anything was updated, and with the label
  -- of the last error if there was one.
  pub nothing_found :
      (e : Env) (p : ℕ) (a b : Packages) (s : Progress)
      → IsChecking p s
      → aptkit_check_for_updates a b ≡ false
      → let t = step lib f e (signalled p (property_changed (packages a (some b)))) s in
        ((s.safe_mode && not s.tried_safe_mode) ≡ true
          → (t.ready ≡ false)
            × (t.current_transaction ≡ check_updates)
            × (t.safe_mode ≡ false)
            × (t.log ≡ call_upgrade_system false ∷ s.log))
        × ((s.safe_mode && not s.tried_safe_mode) ≡ false
            → (t.ready ≡ true)
              × (t.label ≡ (if s.had_error then s.label else good_to_go))
              × (t.reboot_visible ≡ (if s.did_update_any then true else s.reboot_visible)))
  unfolding step
  nothing_found e p a b s c u = (
    λ h.
        rw (nothing_found_safe lib f e p a b s c u (ground arith) (ground arith))
          (c.waits, refl, refl, refl),
    λ h. rw (nothing_found_normal lib f e p a b s c u h) (unfold finish in (refl, refl, refl)),
  )

  refreshed :
      (e : Env) (p : ℕ) (s : Progress)
      → s.current_transaction ≡ update_cache
      → s.transaction_proxy ≡ some p
      → s.transaction_handled ≡ false
      → is_some s.aptkit_proxy ≡ true
      → aptkit_transaction_signal_cb p (property_changed (exit_state "exit-success")) s
        ≡ checking_again (record s { safe_mode = true })
  unfolding aptkit_transaction_signal_cb on_property
  refreshed e p s c q h a = ground arith

  -- Once normal mode was tried, a refresh of the cache, which follows a repair, goes back to safe mode
  -- and stays there: a safe check that finds nothing ends the updates, and no check in normal mode
  -- follows, whatever is still due in it.
  repair_drops_normal_mode :
      (e : Env) (p q : ℕ) (file : String) (x y : Packages) (s : Progress)
      → s.current_transaction ≡ update_cache
      → s.tried_safe_mode ≡ true
      → s.transaction_proxy ≡ some p
      → s.transaction_handled ≡ false
      → is_some s.aptkit_proxy ≡ true
      → s.ready ≡ false
      → aptkit_check_for_updates x y ≡ false
      → let t = run lib f s (
          (e, signalled p (property_changed (exit_state "exit-success")))
          ∷ (e, upgrade_called (path file))
          ∷ (e, transaction_ready (some q))
          ∷ (e, signalled q (property_changed (packages x (some y))))
          ∷ []) in
        t
        ≡ finish (record (launched file q (checking_again (record s { safe_mode = true }))) {
          transaction_handled = true;
        })
  unfolding run step aptkit_transaction_proxy_cb
  repair_drops_normal_mode e p q file x y s c t k h a w u =
      let checks = launched file q (checking_again (record s { safe_mode = true })) in
      ap
        (λ z.
          aptkit_transaction_signal_cb q (property_changed (packages x (some y)))
            (launched file q z))
        (refreshed e p s c k h a)
      ∙ nothing_found_normal lib f e q x y checks
          (record { checks = refl; unhandled = refl; current = refl; aptkit = a; waits = w }) u
          (rw t)
