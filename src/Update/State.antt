-- ===== src/Update/State.antt =====
-- src/pt-update-progress.c: the private data of the update page, with the widgets that it owns and
-- the calls that it makes to GLib, D-Bus and libsoup, in `log`, newest first.
use furios_initial_setup.Common.{
  ℕ, Bool, true, false, String, List, [], ◌∷◌, ◌==◌, if◌then◌else◌, Option, none, some, leb,
}
use furios_initial_setup.Common.Bytes.{Bytes}

pub data TransactionType : Type 0 where
  time_sync provision_check update_cache check_updates install_updates repair_dependencies :
      TransactionType

-- What the label says: the translated messages of the source.
pub data Label : Type 0 where
  blank synchronizing_clock checking downloading installing repairing good_to_go clock_failed :
      Label
  update_failed : Label
  update_failed_because : String → Label

-- A call that leaves the program. Proxies and timeout sources are named by numbers.
pub data Effect : Type 0 where
  add_source remove_source : ℕ → Effect
  notify_ready : Effect
  new_aptkit_proxy new_timedate_proxy set_ntp get_timedate_properties : Effect
  provision_post : Bytes → Effect
  write_script : Bytes → Effect
  chmod_script spawn_script : Effect
  call_update_cache : Effect
  call_upgrade_system : Bool → Effect
  call_fix_broken_depends : Effect
  new_transaction_proxy : String → Effect
  watch_signals simulate run_transaction get_error : ℕ → Effect
  resolve_conflict : ℕ → String → Effect
  reboot : Effect

-- `progress_value` and `fraction` are in hundredths. A NULL pointer is `none`, and a source that is
-- not attached has the handle 0. `sensitive` is the widget's own.
pub record Progress : Type 0 where
  pub aptkit_proxy : Option ℕ
  pub transaction_proxy : Option ℕ
  pub timedate_proxy : Option ℕ
  pub progress_value : ℕ
  pub ready : Bool
  pub did_update_any : Bool
  pub had_error : Bool
  pub tried_safe_mode : Bool
  pub safe_mode : Bool
  pub time_sync_done : Bool
  pub transaction_handled : Bool
  pub broken_dependency_repairs : ℕ
  pub resolved_config_conflicts : List String
  pub current_transaction : TransactionType
  pub ntp_sync_attempts : ℕ
  pub ntp_sync_started_us : ℕ
  pub ntp_sync_timeout_id : ℕ
  pub pulse_timeout_id : ℕ
  pub label : Label
  pub label_visible : Bool
  pub reboot_visible : Bool
  pub sensitive : Bool
  pub fraction : ℕ
  pub log : List Effect

-- What a handler learns from its surroundings: the monotonic time in microseconds, whether the local
-- date is not before 2025-03-10, and the handle that a `g_timeout_add` in it returns.
pub record Env : Type 0 where
  pub now_us : ℕ
  pub valid_date : Bool
  pub source : ℕ

abbrev pub ntp_sync_timeout_seconds : ℕ
ntp_sync_timeout_seconds = 300

-- `G_TIME_SPAN_SECOND`
abbrev pub second_us : ℕ
second_us = 1000000

abbrev pub u32_mod : ℕ
u32_mod = 4294967296

abbrev pub is_repair : TransactionType → Bool
is_repair repair_dependencies = true
is_repair _ = false

abbrev pub is_check : TransactionType → Bool
is_check check_updates = true
is_check _ = false

abbrev pub is_install : TransactionType → Bool
is_install install_updates = true
is_install _ = false

abbrev pub emit : Effect → Progress → Progress
emit e s = record s { log = e ∷ s.log }

-- A handle is cleared, and its source removed if there was one.
abbrev pub removing : ℕ → List Effect → List Effect
removing id log = if id == 0 then log else remove_source id ∷ log

unfoldable pub remove_pulse_timeout : Progress → Progress
remove_pulse_timeout s = record s { pulse_timeout_id = 0; log = removing s.pulse_timeout_id s.log }

unfoldable pub remove_ntp_timeout : Progress → Progress
remove_ntp_timeout s = record s {
  ntp_sync_timeout_id = 0;
  log = removing s.ntp_sync_timeout_id s.log;
}

-- `pt_update_progress_init`; the template leaves the rest of the private data zeroed
unfoldable pub init : Progress
init = record {
  aptkit_proxy = none;
  transaction_proxy = none;
  timedate_proxy = none;
  progress_value = 0;
  ready = true;
  did_update_any = false;
  had_error = false;
  tried_safe_mode = false;
  safe_mode = true;
  time_sync_done = false;
  transaction_handled = false;
  broken_dependency_repairs = 0;
  resolved_config_conflicts = [];
  current_transaction = time_sync;
  ntp_sync_attempts = 0;
  ntp_sync_started_us = 0;
  ntp_sync_timeout_id = 0;
  pulse_timeout_id = 0;
  label = blank;
  label_visible = true;
  reboot_visible = false;
  sensitive = true;
  fraction = 0;
  log = new_aptkit_proxy ∷ [];
}

-- `pt_update_progress_finish`: the page is ready; a failure keeps its message, and a reboot that is
-- due is offered in place of the label
unfoldable pub finish : Progress → Progress
unfolding remove_pulse_timeout remove_ntp_timeout
finish s =
    let t = remove_ntp_timeout (remove_pulse_timeout s) in
    record t {
      progress_value = 100;
      fraction = 100;
      label = if s.had_error then s.label else good_to_go;
      label_visible =
          if s.did_update_any then false else if s.had_error then s.label_visible else true;
      reboot_visible = if s.did_update_any then true else s.reboot_visible;
      ready = true;
      log = notify_ready ∷ t.log;
    }

-- `pt_update_progress_skip`
unfoldable pub skip : Progress → Progress
unfolding remove_pulse_timeout remove_ntp_timeout
skip s =
    let t = remove_ntp_timeout (remove_pulse_timeout s) in
    record t {
      had_error = false;
      did_update_any = false;
      progress_value = 100;
      fraction = 100;
      reboot_visible = false;
      sensitive = false;
      ready = true;
      log = notify_ready ∷ t.log;
    }

-- `pt_update_progress_begin`; `e.source` is the handle of the pulse
unfoldable pub begin : Env → Progress → Progress
begin e s = record s {
  pulse_timeout_id = e.source;
  ready = false;
  did_update_any = false;
  had_error = false;
  time_sync_done = false;
  ntp_sync_attempts = 0;
  broken_dependency_repairs = 0;
  transaction_handled = false;
  tried_safe_mode = false;
  ntp_sync_started_us = e.now_us;
  current_transaction = time_sync;
  progress_value = 0;
  ntp_sync_timeout_id = 0;
  safe_mode = true;
  fraction = 0;
  label_visible = true;
  reboot_visible = false;
  label = synchronizing_clock;
  log =
      new_timedate_proxy
      ∷ notify_ready
      ∷ removing s.ntp_sync_timeout_id (add_source e.source ∷ s.log);
}

-- `pt_update_progress_pulse_progress_cb`: its result, whether the source is kept, and the new state.
-- `is_self` and `is_bar` are the type checks of the page and of the bar.
unfoldable pub pulse_progress_cb : Bool → Bool → Progress → Progress × Bool
pulse_progress_cb false is_bar s = (s, false)
pulse_progress_cb true is_bar s =
    if leb 1 s.progress_value
    then (record s { pulse_timeout_id = 0 }, false)
    else if is_bar
    then (s, true)
    else (record s { pulse_timeout_id = 0 }, false)

-- `pt_update_progress_dispose`
unfoldable pub dispose : Progress → Progress
unfolding remove_pulse_timeout remove_ntp_timeout
dispose s = record (remove_ntp_timeout (remove_pulse_timeout s)) {
  aptkit_proxy = none;
  transaction_proxy = none;
  timedate_proxy = none;
  resolved_config_conflicts = [];
}

-- `aptkit_proxy_setup_cb`
unfoldable pub aptkit_proxy_setup_cb : Option ℕ → Progress → Progress
aptkit_proxy_setup_cb none s = s
aptkit_proxy_setup_cb (some p) s = record s { aptkit_proxy = some p }
