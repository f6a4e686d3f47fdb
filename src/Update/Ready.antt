-- ===== src/Update/Ready.antt =====
-- src/pt-update-progress.c: `ready` lets the user go on.
use furios_initial_setup.Common.{All, List, [], arith, refl, true, ◌∷◌, ◌≡◌, ◌≢◌}
use furios_initial_setup.Update.Provision.{Facts, Library}
use furios_initial_setup.Update.State.{Env, Progress}
use furios_initial_setup.Update.Step.{Event, begins, provision_complete, pulses, run, step}
use furios_initial_setup.Update.Transaction.{aptkit_transaction_signal_cb, on_property}

-- `begin` is not among the events.
abbrev pub Continues : List (Env × Event) → Type 0
Continues = All (λ ev. ev.1 ≢ begins)

module _ (lib : Library) (f : Facts) where
  pub step-ready :
      (e : Env) (v : Event) (s : Progress)
      → v ≢ begins
      → s.ready ≡ true
      → (step lib f e v s).ready ≡ true
  unfolding step aptkit_transaction_signal_cb on_property
  step-ready e begins s n h = absurd (n refl)
  step-ready e (pulses true is_bar) s n h = ground arith
  step-ready e (provision_complete files r) s n h = ground arith
  step-ready e _ s n h = ground arith

  -- Once the page is ready it stays so, whatever comes in, until `begin` is called again.
  run-ready :
      (s : Progress) (evs : List (Env × Event))
      → Continues evs
      → s.ready ≡ true
      → (run lib f s evs).ready ≡ true
  unfolding run
  run-ready s [] n h = h
  run-ready s ((e, v) ∷ evs) n h = run-ready (step lib f e v s) evs n.1 (step-ready e v s n.0 h)
