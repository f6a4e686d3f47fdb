-- ===== src/Update/Transaction.antt =====
-- src/pt-update-progress.c: the packages. One transaction of aptkit after another refreshes the cache,
-- checks for updates, installs them and repairs broken dependencies.
use text.Mathlib.Text.{starts_with}
use furios_initial_setup.Common.{
  ℕ, ◌+◌, ◌%◌, Bool, true, false, not, ◌&&◌, ◌||◌, String, List, [], ◌∷◌, ◌==◌, str_eq, leb,
  is_empty, is_pointer, if◌then◌else◌, Option, none, some,
}
use furios_initial_setup.Common.Int.{ℤ, pos, negsuc}
use furios_initial_setup.Update.State.{
  TransactionType, time_sync, provision_check, update_cache, check_updates, install_updates,
  repair_dependencies, checking, downloading, installing, repairing, update_failed,
  update_failed_because, call_update_cache, call_upgrade_system, call_fix_broken_depends,
  new_transaction_proxy, watch_signals, simulate, run_transaction, get_error, resolve_conflict,
  Progress, u32_mod, is_repair, is_check, is_install, emit, finish,
}

-- The answer to a call that starts a transaction: its object path, or a message.
pub data Reply : Type 0 where
  path : String → Reply
  failed : String → Reply

-- The answer to the request for a transaction's error: a code and a message, a value of another type,
-- or no value.
pub data ErrorReply : Type 0 where
  details : String → String → ErrorReply
  untyped : ErrorReply
  unread : ErrorReply

-- Children 4 and 5 of the property: the packages to upgrade and to downgrade.
pub record Packages : Type 0 where
  pub upgrades : List String
  pub downgrades : List String

-- A changed property of a transaction. With `packages` comes the cached `Dependencies`, and with
-- `dependencies` the cached `Packages`; `none` for a conflict is a value of another type.
pub data Property : Type 0 where
  exit_state : String → Property
  config_file_conflict : Option (String × String) → Property
  progress : ℤ → Property
  status : String → Property
  packages : Packages → Option Packages → Property
  dependencies : Packages → Option Packages → Property
  other_property : Property

pub data Signal : Type 0 where
  property_changed : Property → Signal
  other_signal : Signal

-- `pt_update_progress_start_update_cache`
unfoldable pub start_update_cache : Progress → Progress
start_update_cache s = elim s.aptkit_proxy [
  | some _ ↦ record s {
    current_transaction = update_cache;
    label = checking;
    log = call_update_cache ∷ s.log;
  }
  | none ↦ finish (record s {
    current_transaction = update_cache;
    had_error = true;
    label = update_failed_because "aptkit not available";
  })
]

-- `aptkit_fail_update`
unfoldable pub aptkit_fail_update : Progress → Progress
aptkit_fail_update s = finish (record s { had_error = true; label = update_failed })

-- `aptkit_repair_dependencies`
unfoldable pub aptkit_repair_dependencies : Progress → Progress
aptkit_repair_dependencies s = record s {
  broken_dependency_repairs = (s.broken_dependency_repairs + 1) % u32_mod;
  current_transaction = repair_dependencies;
  label = repairing;
  log = call_fix_broken_depends ∷ s.log;
}

-- `g_strcmp0 (code, ERROR_CACHE_BROKEN) == 0`
abbrev pub is_cache_broken : ErrorReply → Bool
is_cache_broken (details code message) = str_eq code "error-cache-broken"
is_cache_broken untyped = false
is_cache_broken unread = false

-- `aptkit_error_property_cb`
unfoldable pub aptkit_error_property_cb : ErrorReply → Progress → Progress
unfolding aptkit_fail_update aptkit_repair_dependencies
aptkit_error_property_cb reply s =
    if is_cache_broken reply
      && s.broken_dependency_repairs == 0
      && not (is_repair s.current_transaction)
    then aptkit_repair_dependencies s
    else aptkit_fail_update s

-- `aptkit_transaction_failed`
unfoldable pub aptkit_transaction_failed : ℕ → Progress → Progress
aptkit_transaction_failed proxy s =
    if not (is_pointer proxy s.transaction_proxy) || s.transaction_handled
    then s
    else record s { transaction_handled = true; log = get_error proxy ∷ s.log }

-- `g_hash_table_contains`
unfoldable pub contains : List String → String → Bool
contains [] key = false
contains (k ∷ ks) key = str_eq k key || contains ks key

-- `aptkit_resolve_config_conflict`
unfoldable pub aptkit_resolve_config_conflict : ℕ → String → Progress → Progress
aptkit_resolve_config_conflict proxy file s =
    if str_eq file "" || contains s.resolved_config_conflicts file then s else record s {
      resolved_config_conflicts = file ∷ s.resolved_config_conflicts;
      log = resolve_conflict proxy file ∷ s.log;
    }

-- `aptkit_transaction_run_cb`: the call on `proxy` has returned
unfoldable pub aptkit_transaction_run_cb : ℕ → Bool → Progress → Progress
unfolding aptkit_transaction_failed
aptkit_transaction_run_cb proxy true s = s
aptkit_transaction_run_cb proxy false s = aptkit_transaction_failed proxy s

-- `aptkit_transaction_proxy_cb`
unfoldable pub aptkit_transaction_proxy_cb : Option ℕ → Progress → Progress
aptkit_transaction_proxy_cb none s = finish s
aptkit_transaction_proxy_cb (some proxy) s = record s {
  transaction_proxy = some proxy;
  transaction_handled = false;
  resolved_config_conflicts = [];
  log =
      (if is_check s.current_transaction then simulate proxy else run_transaction proxy)
      ∷ watch_signals proxy
      ∷ s.log;
}

-- `aptkit_upgrade_system_cb`
unfoldable pub aptkit_upgrade_system_cb : Reply → Progress → Progress
aptkit_upgrade_system_cb (failed message) s =
    finish (record s { had_error = true; label = update_failed_because message })
aptkit_upgrade_system_cb (path p) s = emit (new_transaction_proxy p) s

-- `aptkit_update_cache_cb`
unfoldable pub aptkit_update_cache_cb : Reply → Progress → Progress
aptkit_update_cache_cb (failed message) s =
    finish (record s { had_error = true; label = update_failed_because message })
aptkit_update_cache_cb (path p) s = emit (new_transaction_proxy p) s

-- `aptkit_get_updates`
unfoldable pub aptkit_get_updates : Progress → Progress
aptkit_get_updates s = elim s.aptkit_proxy [
  | none ↦ finish s
  | some _ ↦ record s {
    current_transaction = check_updates;
    label = checking;
    log = call_upgrade_system s.safe_mode ∷ s.log;
  }
]

-- `aptkit_check_for_updates`
unfoldable pub aptkit_check_for_updates : Packages → Packages → Bool
aptkit_check_for_updates pkgs deps =
    if not (is_empty pkgs.upgrades)
    then true
    else if not (is_empty pkgs.downgrades)
    then true
    else if not (is_empty deps.upgrades)
    then true
    else not (is_empty deps.downgrades)

-- The next check, without safe mode.
unfoldable pub try_normal_mode : Progress → Progress
unfolding aptkit_get_updates
try_normal_mode s = aptkit_get_updates (record s { tried_safe_mode = true; safe_mode = false })

-- `aptkit_transaction_signal_cb`, the branch of `exit-success`
unfoldable pub exit_success : TransactionType → Progress → Progress
unfolding aptkit_get_updates try_normal_mode start_update_cache
exit_success repair_dependencies s = start_update_cache s
exit_success update_cache s = aptkit_get_updates (record s { safe_mode = true })
exit_success check_updates s =
    if s.did_update_any
    then (if not s.safe_mode || s.tried_safe_mode then finish s else try_normal_mode s)
    else if s.safe_mode && not s.tried_safe_mode
    then try_normal_mode s
    else finish s
exit_success install_updates s = aptkit_get_updates s
exit_success time_sync s = s
exit_success provision_check s = s

unfoldable pub on_exit_state : ℕ → String → Progress → Progress
unfolding exit_success aptkit_transaction_failed
on_exit_state proxy state s =
    if s.transaction_handled
    then s
    else if str_eq state "exit-success"
    then exit_success s.current_transaction (record s { transaction_handled = true })
    else if str_eq state "exit-failed"
        || str_eq state "exit-cancelled"
        || str_eq state "exit-previous-failed"
    then aptkit_transaction_failed proxy s
    else s

-- `aptkit_transaction_signal_cb`, the branch of `Packages` and `Dependencies`, both at hand
unfoldable pub on_packages : Packages → Packages → Progress → Progress
unfolding aptkit_check_for_updates try_normal_mode
on_packages pkgs deps s =
    if is_check s.current_transaction && not s.transaction_handled
    then if aptkit_check_for_updates pkgs deps
      then record s {
        transaction_handled = true;
        current_transaction = install_updates;
        did_update_any = true;
        label = installing;
        log = call_upgrade_system s.safe_mode ∷ s.log;
      }
      else if s.safe_mode && not s.tried_safe_mode
      then try_normal_mode (record s { transaction_handled = true })
      else finish (record s { transaction_handled = true })
    else s

on_progress : ℤ → Progress → Progress
on_progress (negsuc n) s = s
on_progress (pos n) s =
    if is_install s.current_transaction && leb 1 n
    then record s { progress_value = n; fraction = n }
    else s

on_status : String → Progress → Progress
on_status text s =
    if starts_with text "downloading"
    then record s { label = downloading }
    else if starts_with text "installing"
    then record s { label = installing }
    else if starts_with text "refreshing"
    then record s { label = checking }
    else s

unfoldable pub on_property : ℕ → Property → Progress → Progress
unfolding on_exit_state on_packages on_progress on_status aptkit_resolve_config_conflict
on_property proxy (exit_state state) s = on_exit_state proxy state s
on_property proxy (config_file_conflict none) s = s
on_property proxy (config_file_conflict (some (old, new))) s =
    aptkit_resolve_config_conflict proxy old s
on_property proxy (progress n) s = on_progress n s
on_property proxy (status text) s = on_status text s
on_property proxy (packages pkgs none) s = s
on_property proxy (packages pkgs (some deps)) s = on_packages pkgs deps s
on_property proxy (dependencies deps none) s = s
on_property proxy (dependencies deps (some pkgs)) s = on_packages pkgs deps s
on_property proxy other_property s = s

-- `aptkit_transaction_signal_cb`
unfoldable pub aptkit_transaction_signal_cb : ℕ → Signal → Progress → Progress
aptkit_transaction_signal_cb proxy other_signal s = s
aptkit_transaction_signal_cb proxy (property_changed p) s =
    if is_pointer proxy s.transaction_proxy then on_property proxy p s else s
