-- ===== src/Update/Repairs.antt =====
-- src/pt-update-progress.c: the automatic repair of broken dependencies.
use furios_initial_setup.Common.{
  Bool, List, [], arith, count, false, refl, true, ℕ, ◌+◌, ◌∷◌, ◌≡◌, ◌≢◌, ◌≤◌,
}
use furios_initial_setup.Update.Invariant.{Inv, begin-Inv, run-Inv, step-Inv}
use furios_initial_setup.Update.Provision.{Facts, Library}
use furios_initial_setup.Update.Ready.{Continues}
use furios_initial_setup.Update.State.{
  Effect, Env, Progress, begin, call_fix_broken_depends, finish,
}
use furios_initial_setup.Update.Step.{
  Event, begins, provision_complete, pulses, run, signalled, step,
}
use furios_initial_setup.Update.Transaction.{Signal, aptkit_transaction_signal_cb, on_property}

abbrev pub is_fix : Effect → Bool
is_fix call_fix_broken_depends = true
is_fix _ = false

-- How often the repair has been asked for.
abbrev pub fixes : Progress → ℕ
fixes s = count is_fix s.log

signal-fixes :
    (p : ℕ) (x : Signal) (s : Progress)
    → (fixes (aptkit_transaction_signal_cb p x s) ≡ fixes s)
      × ((aptkit_transaction_signal_cb p x s).broken_dependency_repairs
          ≡ s.broken_dependency_repairs)
unfolding aptkit_transaction_signal_cb on_property finish
signal-fixes p x s = ground arith

module _ (lib : Library) (f : Facts) where
  step-fixes :
      (e : Env) (v : Event) (s : Progress)
      → v ≢ begins
      → Inv s
      → fixes (step lib f e v s) + s.broken_dependency_repairs
        ≡ fixes s + (step lib f e v s).broken_dependency_repairs
  unfolding step
  step-fixes e begins s n h = absurd (n refl)
  step-fixes e (pulses true is_bar) s n h = ground arith
  step-fixes e (provision_complete files r) s n h = ground arith
  step-fixes e (signalled proxy sig) s n h = ground (arith, signal-fixes proxy sig s)
  step-fixes e _ s n h = ground arith

  run-fixes :
      (s : Progress) (evs : List (Env × Event))
      → Continues evs
      → Inv s
      → fixes (run lib f s evs) + s.broken_dependency_repairs
        ≡ fixes s + (run lib f s evs).broken_dependency_repairs
  unfolding run
  run-fixes s [] n h = refl
  run-fixes s ((e, v) ∷ evs) n h =
      omega (
        arith,
        step-fixes e v s n.0 h,
        run-fixes (step lib f e v s) evs n.1 (step-Inv lib f e v s h),
      )

  -- From `begin` to the next one, whatever comes in, the repair of broken dependencies is asked for
  -- once at most.
  pub run-fixes-le :
      (s : Progress) (e : Env) (evs : List (Env × Event))
      → Continues evs
      → fixes (run lib f (begin e s) evs) ≤ fixes s + 1
  unfolding begin
  run-fixes-le s e evs n =
      let v = begin-Inv e s in
      ground (arith, run-fixes (begin e s) evs n v, run-Inv lib f (begin e s) evs v)
