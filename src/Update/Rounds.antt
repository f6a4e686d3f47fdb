-- ===== src/Update/Rounds.antt =====
-- src/pt-update-progress.c: the course of the updates, from one check to the next.
use furios_initial_setup.Common.{
  All, Bool, List, String, [], ap, arith, false, is_some, refl, some, true, ℕ, ◌++◌, ◌∙◌, ◌∷◌, ◌≡◌,
}
use furios_initial_setup.Update.Provision.{Facts, Library}
use furios_initial_setup.Update.State.{
  Effect, Env, Progress, call_upgrade_system, check_updates, checking, emit, install_updates,
  installing, new_transaction_proxy, run_transaction, simulate, watch_signals,
}
use furios_initial_setup.Update.Step.{
  Event, run, signalled, step, transaction_ready, upgrade_called,
}
use furios_initial_setup.Update.Transaction.{
  Packages, aptkit_check_for_updates, aptkit_transaction_proxy_cb, aptkit_transaction_signal_cb,
  exit_state, on_packages, on_property, packages, path, property_changed,
}

-- A check is under way, as the transaction of `p`.
pub record IsChecking (p : ℕ) (s : Progress) : Type 0 where
  pub checks : s.current_transaction ≡ check_updates
  pub unhandled : s.transaction_handled ≡ false
  pub current : s.transaction_proxy ≡ some p
  pub aptkit : is_some s.aptkit_proxy ≡ true
  pub waits : s.ready ≡ false

-- What the surroundings choose in a round: the surroundings of each callback, the paths and the proxies
-- of the installation and of the next check, and the packages, which are to be updated.
pub record Round : Type 0 where
  pub env : Env
  pub install_path : String
  pub check_path : String
  pub install_proxy : ℕ
  pub check_proxy : ℕ
  pub pkgs : Packages
  pub deps : Packages

-- The checked packages come in, are installed, and the next check starts.
abbrev pub round_events : ℕ → Round → List (Env × Event)
round_events p r =
    (r.env, signalled p (property_changed (packages r.pkgs (some r.deps))))
    ∷ (r.env, upgrade_called (path r.install_path))
    ∷ (r.env, transaction_ready (some r.install_proxy))
    ∷ (r.env, signalled r.install_proxy (property_changed (exit_state "exit-success")))
    ∷ (r.env, upgrade_called (path r.check_path))
    ∷ (r.env, transaction_ready (some r.check_proxy))
    ∷ []

-- The updates that were found are being installed.
abbrev pub installs_found : Progress → Progress
installs_found s = record s {
  transaction_handled = true;
  current_transaction = install_updates;
  did_update_any = true;
  label = installing;
  log = call_upgrade_system s.safe_mode ∷ s.log;
}

-- The next check is asked for.
abbrev pub checking_again : Progress → Progress
checking_again s = record s {
  transaction_handled = true;
  current_transaction = check_updates;
  label = checking;
  log = call_upgrade_system s.safe_mode ∷ s.log;
}

-- The call has returned `file`, and its transaction runs as `proxy`.
abbrev pub launched : String → ℕ → Progress → Progress
launched file proxy s =
    aptkit_transaction_proxy_cb (some proxy) (emit (new_transaction_proxy file) s)

abbrev pub after_round : Round → Progress → Progress
after_round r s =
    launched r.check_path r.check_proxy
      (checking_again (launched r.install_path r.install_proxy (installs_found s)))

-- What each round finds, and the proxy of the check after it.
abbrev pub AllFound : List Round → Type 0
AllFound = All (λ r. aptkit_check_for_updates r.pkgs r.deps ≡ true)

abbrev pub all_events : ℕ → List Round → List (Env × Event)
all_events p [] = []
all_events p (r ∷ rs) = round_events p r ++ all_events r.check_proxy rs

abbrev pub last_proxy : ℕ → List Round → ℕ
last_proxy p [] = p
last_proxy p (r ∷ rs) = last_proxy r.check_proxy rs

-- What a round adds to the calls of the page, the newest first: the packages are asked for and run, and
-- the next check is asked for and simulated.
abbrev pub round_calls : Bool → Round → List Effect
round_calls safe r =
    simulate r.check_proxy
    ∷ watch_signals r.check_proxy
    ∷ new_transaction_proxy r.check_path
    ∷ call_upgrade_system safe
    ∷ run_transaction r.install_proxy
    ∷ watch_signals r.install_proxy
    ∷ new_transaction_proxy r.install_path
    ∷ call_upgrade_system safe
    ∷ []

-- The calls of all rounds, after those of `log`.
abbrev pub all_calls : Bool → List Round → List Effect → List Effect
all_calls safe [] log = log
all_calls safe (r ∷ rs) log = all_calls safe rs (round_calls safe r ++ log)

module _ (lib : Library) (f : Facts) where
  found_installs :
      (e : Env) (p : ℕ) (a b : Packages) (s : Progress)
      → IsChecking p s
      → aptkit_check_for_updates a b ≡ true
      → let t = step lib f e (signalled p (property_changed (packages a (some b)))) s in
        t ≡ installs_found s
  unfolding step aptkit_transaction_signal_cb on_property on_packages
  found_installs e p a b s c u = ground arith

  installed_checks :
      (e : Env) (p : ℕ) (s : Progress)
      → s.transaction_proxy ≡ some p
      → s.transaction_handled ≡ false
      → s.current_transaction ≡ install_updates
      → is_some s.aptkit_proxy ≡ true
      → let t = step lib f e (signalled p (property_changed (exit_state "exit-success"))) s in
        t ≡ checking_again s
  unfolding step aptkit_transaction_signal_cb on_property
  installed_checks e p s c h i a = ground arith

  after_round-IsChecking :
      (p : ℕ) (r : Round) (s : Progress)
      → IsChecking p s
      → IsChecking r.check_proxy (after_round r s)
  unfolding aptkit_transaction_proxy_cb
  after_round-IsChecking p r s c = record {
    checks = refl;
    unhandled = refl;
    current = refl;
    aptkit = c.aptkit;
    waits = c.waits;
  }

  run_round :
      (p : ℕ) (r : Round) (s : Progress)
      → IsChecking p s
      → aptkit_check_for_updates r.pkgs r.deps ≡ true
      → run lib f s (round_events p r) ≡ after_round r s
  unfolding run step
  run_round p r s c u =
      let t = launched r.install_path r.install_proxy (installs_found s) in
      ap
        (λ x. launched r.check_path r.check_proxy (
          aptkit_transaction_signal_cb r.install_proxy
            (property_changed (exit_state "exit-success"))
            (launched r.install_path r.install_proxy x)))
        (found_installs r.env p r.pkgs r.deps s c u)
      ∙ ap (launched r.check_path r.check_proxy)
          (installed_checks r.env r.install_proxy t refl refl refl c.aptkit)

  run-append :
      (s : Progress) (xs ys : List (Env × Event))
      → run lib f s (xs ++ ys) ≡ run lib f (run lib f s xs) ys
  unfolding run
  run-append s [] ys = refl
  run-append s ((e, v) ∷ xs) ys = run-append (step lib f e v s) xs ys

  -- As long as a check finds updates, each round asks for the packages and runs that transaction, and then
  -- asks for a check in the same mode and simulates it, without a limit: these are the calls of the page,
  -- in this order, and after any number of such rounds it still checks, and still makes the user wait.
  pub rounds_check_again :
      (p : ℕ) (rs : List Round) (s : Progress)
      → IsChecking p s
      → AllFound rs
      → let t = run lib f s (all_events p rs) in
        IsChecking (last_proxy p rs) t
        × (t.safe_mode ≡ s.safe_mode)
        × (t.tried_safe_mode ≡ s.tried_safe_mode)
        × (t.log ≡ all_calls s.safe_mode rs s.log)
  unfolding run aptkit_transaction_proxy_cb
  rounds_check_again p [] s c u = (c, refl, refl, refl)
  rounds_check_again p (r ∷ rs) s c u =
      rw (run-append s (round_events p r) (all_events r.check_proxy rs), run_round p r s c u.0)
        (rounds_check_again r.check_proxy rs (after_round r s) (after_round-IsChecking p r s c) u.1)
