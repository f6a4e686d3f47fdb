-- ===== src/Update/Step.antt =====
-- src/pt-update-progress.c: every entry of the main loop into the update page, as one step function.
use furios_initial_setup.Common.{ℕ, Bool, List, [], ◌∷◌, Option}
use furios_initial_setup.Update.State.{
  finish, Progress, Env, begin, reboot, skip, pulse_progress_cb, aptkit_proxy_setup_cb,
}
use furios_initial_setup.Update.Transaction.{
  Reply, ErrorReply, Signal, aptkit_update_cache_cb, aptkit_upgrade_system_cb,
  aptkit_transaction_proxy_cb, aptkit_transaction_run_cb, aptkit_error_property_cb,
  aptkit_transaction_signal_cb,
}
use furios_initial_setup.Update.Provision.{
  Library, Facts, Files, Response, provision_message_complete_cb,
}
use furios_initial_setup.Update.Time.{
  TimedateProperties, timedate_proxy_setup_cb, set_ntp_cb, timedate_properties_cb, retry_ntp_sync,
}

-- A call of the page, or a callback with what it is told.
pub data Event : Type 0 where
  begins : Event
  skips : Event
  pulses : Bool → Bool → Event
  aptkit_proxy_ready : Option ℕ → Event
  timedate_proxy_ready : Option ℕ → Event
  ntp_set : Bool → Event
  timedate_read : Option TimedateProperties → Event
  retry_due : Event
  provision_complete : Files → Response → Event
  cache_called : Reply → Event
  upgrade_called : Reply → Event
  transaction_ready : Option ℕ → Event
  run_returned : ℕ → Bool → Event
  error_read : ErrorReply → Event
  signalled : ℕ → Signal → Event
  conflict_resolved : Bool → Event
  reboot_clicked : Event

-- `aptkit_config_conflict_resolved_cb`: a call that failed is only logged.
unfoldable pub aptkit_config_conflict_resolved_cb : Bool → Progress → Progress
aptkit_config_conflict_resolved_cb returned s = s

-- `on_reboot_clicked`
unfoldable pub on_reboot_clicked : Progress → Progress
on_reboot_clicked s = record s { log = reboot ∷ s.log }

module _ (lib : Library) (facts : Facts) where
  unfoldable pub step : Env → Event → Progress → Progress
  unfolding begin skip finish pulse_progress_cb aptkit_proxy_setup_cb timedate_proxy_setup_cb
      set_ntp_cb timedate_properties_cb retry_ntp_sync provision_message_complete_cb
      aptkit_update_cache_cb aptkit_upgrade_system_cb aptkit_transaction_proxy_cb
      aptkit_transaction_run_cb aptkit_error_property_cb aptkit_config_conflict_resolved_cb
      on_reboot_clicked
  step e begins s = begin e s
  step e skips s = skip s
  step e (pulses is_self is_bar) s = (pulse_progress_cb is_self is_bar s).0
  step e (aptkit_proxy_ready p) s = aptkit_proxy_setup_cb p s
  step e (timedate_proxy_ready p) s = timedate_proxy_setup_cb lib facts p s
  step e (ntp_set returned) s = set_ntp_cb e returned s
  step e (timedate_read p) s = timedate_properties_cb lib facts e p s
  step e retry_due s = retry_ntp_sync s
  step e (provision_complete files r) s = provision_message_complete_cb lib files r s
  step e (cache_called reply) s = aptkit_update_cache_cb reply s
  step e (upgrade_called reply) s = aptkit_upgrade_system_cb reply s
  step e (transaction_ready p) s = aptkit_transaction_proxy_cb p s
  step e (run_returned proxy returned) s = aptkit_transaction_run_cb proxy returned s
  step e (error_read reply) s = aptkit_error_property_cb reply s
  step e (signalled proxy sig) s = aptkit_transaction_signal_cb proxy sig s
  step e (conflict_resolved returned) s = aptkit_config_conflict_resolved_cb returned s
  step e reboot_clicked s = on_reboot_clicked s

  unfoldable pub run : Progress → List (Env × Event) → Progress
  run s [] = s
  run s ((e, v) ∷ evs) = run (step e v s) evs
