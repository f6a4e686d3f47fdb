-- ===== src/Update/Invariant.antt =====
-- src/pt-update-progress.c: what holds of the update page between two callbacks.
use furios_initial_setup.Common.{List, [], arith, false, true, ℕ, ◌∷◌, ◌≡◌, ◌≤◌}
use furios_initial_setup.Update.Provision.{Facts, Library}
use furios_initial_setup.Update.State.{Env, Progress, begin, finish, init, repair_dependencies}
use furios_initial_setup.Update.Step.{
  Event, begins, provision_complete, pulses, run, signalled, skips, step,
}
use furios_initial_setup.Update.Transaction.{Signal, aptkit_transaction_signal_cb, on_property}

pub record Inv (s : Progress) : Type 0 where
  pub repaired_once : s.broken_dependency_repairs ≤ 1
  pub repair_counted : s.current_transaction ≡ repair_dependencies → s.broken_dependency_repairs ≡ 1
  pub normal_tried : s.safe_mode ≡ false → s.tried_safe_mode ≡ true

-- The page as it is made.
pub init-Inv : Inv init
unfolding init
init-Inv = ground arith

-- `begin` establishes it, from any state.
pub begin-Inv : (e : Env) (s : Progress) → Inv (begin e s)
unfolding begin
begin-Inv e s = ground arith

signal-Inv : (p : ℕ) (x : Signal) (s : Progress) → Inv s → Inv (aptkit_transaction_signal_cb p x s)
unfolding aptkit_transaction_signal_cb on_property finish
signal-Inv p x s h = ground arith

module _ (lib : Library) (f : Facts) where
  -- Every entry into the page keeps the invariant.
  pub step-Inv : (e : Env) (v : Event) (s : Progress) → Inv s → Inv (step lib f e v s)
  unfolding step
  step-Inv e begins s h = ground arith
  step-Inv e skips s h = ground arith
  step-Inv e (pulses true is_bar) s h = ground arith
  step-Inv e (provision_complete files r) s h = ground arith
  step-Inv e (signalled proxy sig) s h = signal-Inv proxy sig s h
  step-Inv e _ s h = ground arith

  -- So it holds after any run of the main loop.
  pub run-Inv : (s : Progress) (evs : List (Env × Event)) → Inv s → Inv (run lib f s evs)
  unfolding run
  run-Inv s [] h = h
  run-Inv s ((e, v) ∷ evs) h = run-Inv (step lib f e v s) evs (step-Inv e v s h)
