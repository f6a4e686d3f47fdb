-- ===== src/Update/Time.antt =====
-- src/pt-update-progress.c: the clock. Updates start when NTP is on and has synchronized the clock.
use furios_initial_setup.Common.{
  ℕ, ◌+◌, ◌-◌, ◌*◌, ◌%◌, Bool, true, false, not, ◌&&◌, ◌∷◌, ◌==◌, leb, if◌then◌else◌, Option, none,
  some,
}
use furios_initial_setup.Update.State.{
  provision_check, synchronizing_clock, checking, clock_failed, add_source, set_ntp,
  get_timedate_properties, Progress, Env, ntp_sync_timeout_seconds, second_us, u32_mod, emit,
  finish, remove_ntp_timeout,
}
use furios_initial_setup.Update.Provision.{Library, Facts, start_provision_check}

-- The properties `NTP` and `NTPSynchronized`; `none` where they are missing.
pub record TimedateProperties : Type 0 where
  pub ntp : Option Bool
  pub ntp_synchronized : Option Bool

-- `pt_update_progress_ntp_timed_out`; the monotonic clock does not run backwards
unfoldable pub ntp_timed_out : Env → Progress → Bool
ntp_timed_out e s = leb (second_us * ntp_sync_timeout_seconds) (e.now_us - s.ntp_sync_started_us)

-- `schedule_ntp_sync_retry`
unfoldable pub schedule_ntp_sync_retry : Env → Progress → Progress
schedule_ntp_sync_retry e s =
    if s.ntp_sync_timeout_id == 0
    then record s { ntp_sync_timeout_id = e.source; log = add_source e.source ∷ s.log }
    else s

-- `request_ntp_enable`
unfoldable pub request_ntp_enable : Progress → Progress
request_ntp_enable s = elim s.timedate_proxy [ none ↦ s | some _ ↦ emit set_ntp s ]

give_up : Progress → Progress
unfolding finish
give_up s = finish (record s { had_error = true; label = clock_failed })

-- the label `retry_or_fail`
unfoldable pub retry_or_fail : Env → Progress → Progress
unfolding ntp_timed_out give_up schedule_ntp_sync_retry
retry_or_fail e s =
    if ntp_timed_out e s
    then give_up (record s { ntp_sync_timeout_id = 0 })
    else schedule_ntp_sync_retry e (record s {
      ntp_sync_attempts = (s.ntp_sync_attempts + 1) % u32_mod;
      label = synchronizing_clock;
    })

abbrev pub is_true : Option Bool → Bool
is_true none = false
is_true (some b) = b

-- `timedate_properties_cb`; `none` is a failed call
unfoldable pub timedate_properties_cb :
    Library → Facts → Env → Option TimedateProperties → Progress → Progress
unfolding retry_or_fail request_ntp_enable start_provision_check remove_ntp_timeout
timedate_properties_cb lib f e none s = if s.time_sync_done then s else retry_or_fail e s
timedate_properties_cb lib f e (some p) s =
    if s.time_sync_done
    then s
    else if not (is_true p.ntp)
    then request_ntp_enable s
    else if is_true p.ntp && is_true p.ntp_synchronized && e.valid_date
    then start_provision_check lib f (remove_ntp_timeout (record s { time_sync_done = true }))
    else retry_or_fail e s

-- `retry_ntp_sync`, whose source is removed by its result
unfoldable pub retry_ntp_sync : Progress → Progress
retry_ntp_sync s =
    if s.time_sync_done then record s { ntp_sync_timeout_id = 0 } else elim s.timedate_proxy [
      | none ↦ record s { ntp_sync_timeout_id = 0 }
      | some _ ↦ record s { ntp_sync_timeout_id = 0; log = get_timedate_properties ∷ s.log }
    ]

-- `set_ntp_cb`: the call has returned, or failed
unfoldable pub set_ntp_cb : Env → Bool → Progress → Progress
unfolding ntp_timed_out give_up schedule_ntp_sync_retry retry_ntp_sync
set_ntp_cb e true s = retry_ntp_sync (record s { label = synchronizing_clock })
set_ntp_cb e false s = if ntp_timed_out e s then give_up s else schedule_ntp_sync_retry e s

-- `timedate_proxy_setup_cb`
unfoldable pub timedate_proxy_setup_cb : Library → Facts → Option ℕ → Progress → Progress
unfolding start_provision_check
timedate_proxy_setup_cb lib f none s =
    start_provision_check lib f
      (record s { current_transaction = provision_check; label = checking })
timedate_proxy_setup_cb lib f (some p) s = record s {
  timedate_proxy = some p;
  label = synchronizing_clock;
  log = set_ntp ∷ s.log;
}
