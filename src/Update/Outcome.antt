-- ===== src/Update/Outcome.antt =====
-- src/pt-update-progress.c: what the signals of a transaction decide, and what the user is told.
use furios_initial_setup.Common.{
  All, List, [], arith, inl, inr, is_pointer, refl, some, true, ℕ, ◌∷◌, ◌≡◌, ◌⊎◌, false,
}
use furios_initial_setup.Update.Provision.{Facts, Library}
use furios_initial_setup.Update.State.{Env, Progress, finish}
use furios_initial_setup.Update.Step.{Event, begins, run, signalled, step, transaction_ready}
use furios_initial_setup.Update.Transaction.{
  Property, Signal, aptkit_transaction_signal_cb, dependencies, exit_state, on_property,
  other_signal, packages, property_changed,
}

-- The properties that end a transaction or start the next one.
abbrev pub IsOutcome : Property → Type 0
IsOutcome (exit_state _) = Unit
IsOutcome (packages _ _) = Unit
IsOutcome (dependencies _ _) = Unit
IsOutcome _ = ⊥

handled_absorbs :
    (p : ℕ) (x : Property) (s : Progress)
    → IsOutcome x
    → s.transaction_handled ≡ true
    → aptkit_transaction_signal_cb p (property_changed x) s ≡ s
unfolding aptkit_transaction_signal_cb on_property
handled_absorbs p x s o h = ground arith

outcome_handles :
    (p : ℕ) (x : Property) (s : Progress)
    → IsOutcome x
    → let t = aptkit_transaction_signal_cb p (property_changed x) s in
      (t ≡ s) ⊎ (t.transaction_handled ≡ true)
unfolding aptkit_transaction_signal_cb on_property finish
outcome_handles p x s o = ground arith

-- No proxy of a transaction is made, and the updates do not begin again.
abbrev pub KeepsTransaction : Event → Type 0
KeepsTransaction begins = ⊥
KeepsTransaction (transaction_ready (some p)) = ⊥
KeepsTransaction _ = Unit

module _ (lib : Library) (f : Facts) where
  step-handled :
      (e : Env) (v : Event) (s : Progress)
      → KeepsTransaction v
      → s.transaction_handled ≡ true
      → (step lib f e v s).transaction_handled ≡ true
  unfolding step aptkit_transaction_signal_cb on_property finish
  step-handled e begins s k h = absurd k
  step-handled e (transaction_ready (some p)) s k h = absurd k
  step-handled e (signalled proxy sig) s k h = ground arith
  step-handled e _ s k h = ground arith

  run-handled :
      (s : Progress) (evs : List (Env × Event))
      → All (λ ev. KeepsTransaction ev.1) evs
      → s.transaction_handled ≡ true
      → (run lib f s evs).transaction_handled ≡ true
  unfolding run
  run-handled s [] ks h = h
  run-handled s ((e, v) ∷ evs) (k, ks) h =
      run-handled (step lib f e v s) evs ks (step-handled e v s k h)

  -- A transaction is acted on once: after an exit state or a list of packages that changed anything, and
  -- whatever else comes in but a begin and the answer with a transaction's proxy, no exit state or list of
  -- packages changes anything, whichever proxy it is from.
  pub outcome_once :
      (p q : ℕ) (x y : Property) (s : Progress) (evs : List (Env × Event))
      → IsOutcome x
      → IsOutcome y
      → All (λ ev. KeepsTransaction ev.1) evs
      → let t = aptkit_transaction_signal_cb p (property_changed x) s in
        let u = run lib f t evs in
        (t ≡ s) ⊎ (aptkit_transaction_signal_cb q (property_changed y) u ≡ u)
  outcome_once p q x y s evs ox oy ks = elim (outcome_handles p x s ox) [
    | inl same ↦ inl same
    | inr handled ↦ inr (handled_absorbs q y _ oy (run-handled _ evs ks handled))
  ]

-- A signal of a transaction that is not the current one changes nothing.
stale_ignored :
    (p : ℕ) (x : Signal) (s : Progress)
    → is_pointer p s.transaction_proxy ≡ false
    → aptkit_transaction_signal_cb p x s ≡ s
unfolding aptkit_transaction_signal_cb
stale_ignored p other_signal s h = refl
stale_ignored p (property_changed x) s h = rw h
