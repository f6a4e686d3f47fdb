-- ===== src/Update/Clock.antt =====
-- src/pt-update-progress.c: waiting for the clock, with and without NTP.
use furios_initial_setup.Common.{
  Bool, List, [], arith, count, false, if◌then◌else◌, length, some, true, ℕ, ◌+◌, ◌-◌, ◌<◌, ◌==◌,
  ◌∷◌, ◌≡◌, ◌≤◌,
}
use furios_initial_setup.Update.Provision.{Facts, Library}
use furios_initial_setup.Update.State.{Effect, Env, Progress, clock_failed, set_ntp}
use furios_initial_setup.Update.Step.{Event, ntp_set, run, step, timedate_read}
use furios_initial_setup.Update.Time.{TimedateProperties, retry_or_fail}

-- A failed call, or NTP that is on with no synchronized clock, is retried within the limit: at most
-- one retry is pending, and the page waits. From 300 seconds on it gives up, with an error.
retry_or_give_up :
    (e : Env) (s : Progress)
    → s.ready ≡ false
    → let t = retry_or_fail e s in
      (e.now_us - s.ntp_sync_started_us < 300000000
        → (t.ready ≡ false)
          × (t.ntp_sync_timeout_id
              ≡ (if s.ntp_sync_timeout_id == 0 then e.source else s.ntp_sync_timeout_id)))
      × (300000000 ≤ e.now_us - s.ntp_sync_started_us
          → (t.ready ≡ true)
            × (t.had_error ≡ true)
            × (t.label ≡ clock_failed)
            × (t.ntp_sync_timeout_id ≡ 0))
unfolding retry_or_fail
retry_or_give_up e s h = (λ k. ground arith, λ k. ground arith)

-- What the properties must say for the updates to start.
abbrev pub IsSynchronized : Env → TimedateProperties → Type 0
IsSynchronized e p = (p.ntp ≡ some true) × (p.ntp_synchronized ≡ some true) × (e.valid_date ≡ true)

abbrev pub ntp_off : TimedateProperties
ntp_off = record { ntp = some false; ntp_synchronized = some false }

-- NTP is switched on with success, and found off: for each pair of callbacks their surroundings.
abbrev pub spin : List (Env × Env) → List (Env × Event)
spin [] = []
spin ((a, b) ∷ rest) = (a, ntp_set true) ∷ (b, timedate_read (some ntp_off)) ∷ spin rest

abbrev pub is_set_ntp : Effect → Bool
is_set_ntp set_ntp = true
is_set_ntp _ = false

module _ (lib : Library) (f : Facts) where
  round_trip :
      (a b : Env) (s : Progress) (proxy : ℕ)
      → s.timedate_proxy ≡ some proxy
      → s.time_sync_done ≡ false
      → s.ready ≡ false
      → let t = step lib f b (timedate_read (some ntp_off)) (step lib f a (ntp_set true) s) in
        (t.timedate_proxy ≡ some proxy)
        × (t.time_sync_done ≡ false)
        × (t.ready ≡ false)
        × (count is_set_ntp t.log ≡ count is_set_ntp s.log + 1)
  unfolding step
  round_trip a b s proxy p d h = ground arith

  -- Where NTP stays off though each request for it succeeds, the page asks again at once and for
  -- ever: whatever the time, it neither gives up nor becomes ready.
  pub ntp_off_never_ends :
      (rounds : List (Env × Env)) (s : Progress) (proxy : ℕ)
      → s.timedate_proxy ≡ some proxy
      → s.time_sync_done ≡ false
      → s.ready ≡ false
      → let t = run lib f s (spin rounds) in
        (t.ready ≡ false) × (count is_set_ntp t.log ≡ count is_set_ntp s.log + length rounds)
  unfolding run
  ntp_off_never_ends [] s proxy p d h = (h, omega arith)
  ntp_off_never_ends ((a, b) ∷ rest) s proxy p d h =
      let t = step lib f b (timedate_read (some ntp_off)) (step lib f a (ntp_set true) s) in
      let again = round_trip a b s proxy p d h in
      let ih = ntp_off_never_ends rest t proxy again.0 again.1 again.2 in
      (ih.0, omega (arith, ih.1, again.3))
