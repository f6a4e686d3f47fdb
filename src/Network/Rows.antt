-- ===== src/Network/Rows.antt =====
-- src/cc-network-list.c: the rows that are shown, and the timer that renews them.
use furios_initial_setup.Common.{
  Bool, List, Option, [], false, if◌then◌else◌, is_empty, ltb, none, not, some, true, ℕ, ◌&&◌, ◌++◌,
  ◌==◌, ◌∷◌,
}
use furios_initial_setup.Common.Bytes.{Bytes}
use furios_initial_setup.Network.Points.{NetworkManager, get_strongest_unique_aps, has_ssid}

-- The states of an `NMDevice`.
pub data DeviceState : Type 0 where
  device_unknown device_unmanaged device_unavailable device_disconnected : DeviceState
  device_prepare device_config device_need_auth device_ip_config device_ip_check : DeviceState
  device_secondaries device_activated device_deactivating device_failed : DeviceState

-- `activated` and `activating`, of which at most one is set.
pub data RowState : Type 0 where
  inactive activating activated : RowState

pub data Icon : Type 0 where
  signal_none signal_weak signal_ok signal_good signal_excellent : Icon

pub data SignalIndicator : Type 0 where
  not_connected connected_ok connected_good : SignalIndicator

-- `strength` is what the rows are sorted by.
pub record Row : Type 0 where
  pub ssid : Bytes
  pub access_point : ℕ
  pub row_state : RowState
  pub icon : Icon
  pub strength : ℕ

-- A call that leaves the list.
pub data Call : Type 0 where
  source_added source_removed : ℕ → Call
  scan_requested : Call
  subpage_shown : Call
  indicator_set : SignalIndicator → Call
  indicator_notified : Call

-- Where a text that is borrowed points to.
pub data Pointer : Type 0 where
  null freed : Pointer

pub record NetworkList : Type 0 where
  pub refreshing : Bool
  pub refresh_timeout_id : ℕ
  pub rows : List Row
  pub signal_indicator_picture : Pointer
  pub log : List Call

-- What NetworkManager says at a refresh, with the handle of the timer that is started in it.
pub record Scan : Type 0 where
  pub device_state : DeviceState
  pub active_ap : Option ℕ
  pub access_points : Option (List ℕ)
  pub source : ℕ

abbrev pub max_uint : ℕ
max_uint = 4294967295

unfoldable pub state_of_device : DeviceState → RowState
state_of_device device_prepare = activating
state_of_device device_config = activating
state_of_device device_need_auth = activating
state_of_device device_ip_config = activating
state_of_device device_ip_check = activating
state_of_device device_secondaries = activating
state_of_device device_deactivating = activating
state_of_device device_activated = activated
state_of_device _ = inactive

unfoldable pub icon_of : ℕ → Icon
icon_of strength =
    if ltb strength 20
    then signal_none
    else if ltb strength 40
    then signal_weak
    else if ltb strength 50
    then signal_ok
    else if ltb strength 80
    then signal_good
    else signal_excellent

abbrev pub is_active : Row → Bool
is_active r = elim r.row_state [ inactive ↦ false | activating ↦ true | activated ↦ true ]

-- `g_object_set` of signal-indicator, the one property there is, through `cc_network_list_set_property`.
-- That function keeps the text of the value without a copy, and `g_object_set` frees it as it returns,
-- before anyone is told; so the picture is in `log` alone.
unfoldable pub cc_network_list_set_property : SignalIndicator → NetworkList → NetworkList
cc_network_list_set_property picture s = record s {
  signal_indicator_picture = freed;
  log = indicator_notified ∷ indicator_set picture ∷ s.log;
}

-- `cc_network_list_get_property`, which copies what the pointer points to
unfoldable pub cc_network_list_get_property : NetworkList → Pointer
cc_network_list_get_property s = s.signal_indicator_picture

-- `cancel_periodic_refresh`
unfoldable pub cancel_periodic_refresh : NetworkList → NetworkList
cancel_periodic_refresh s =
    if s.refresh_timeout_id == 0
    then s
    else record s { refresh_timeout_id = 0; log = source_removed s.refresh_timeout_id ∷ s.log }

-- `start_periodic_refresh`
unfoldable pub start_periodic_refresh : ℕ → NetworkList → NetworkList
unfolding cancel_periodic_refresh
start_periodic_refresh source s =
    let t = cancel_periodic_refresh s in
    record t { refresh_timeout_id = source; log = source_added source ∷ t.log }

-- What an active row does to the page.
unfoldable pub show_state : RowState → NetworkList → NetworkList
unfolding cancel_periodic_refresh cc_network_list_set_property
show_state inactive s = s
show_state activating s = cc_network_list_set_property connected_ok s
show_state activated s =
    let t = cancel_periodic_refresh (cc_network_list_set_property connected_good s) in
    record t { log = subpage_shown ∷ t.log }

-- The page is told of the indicator once more, if there are access points.
unfoldable pub indicator_told : Option (List ℕ) → NetworkList → NetworkList
indicator_told none s = s
indicator_told (some []) s = s
indicator_told (some (p ∷ ps)) s = record s { log = indicator_notified ∷ s.log }

module _ (nm : NetworkManager) where
  unfoldable pub active_ssid : Option ℕ → Option Bytes
  active_ssid none = none
  active_ssid (some active) = nm.get_ssid active

  -- The state of the row of a network with this name.
  unfoldable pub state_of : Scan → Bytes → RowState
  unfolding has_ssid active_ssid state_of_device
  state_of scan name =
      if has_ssid nm name (active_ssid scan.active_ap)
      then state_of_device scan.device_state
      else inactive

  unfoldable pub row_for : Scan → ℕ → Bytes → Row
  unfolding state_of icon_of
  row_for scan access_point name =
      let state = state_of scan name in
      record {
        ssid = name;
        access_point = access_point;
        row_state = state;
        icon = icon_of (nm.get_strength access_point);
        strength = elim state [
          | inactive ↦ nm.get_strength access_point
          | activating ↦ max_uint
          | activated ↦ max_uint
        ];
      }

  unfoldable pub add_named : Scan → ℕ → Option Bytes → NetworkList → NetworkList
  unfolding row_for show_state
  add_named scan access_point none s = s
  add_named scan access_point (some name) s =
      let row = row_for scan access_point name in
      let t = show_state row.row_state s in record t { rows = t.rows ++ row ∷ [] }

  -- `add_access_point`
  unfoldable pub add_access_point : Scan → ℕ → NetworkList → NetworkList
  unfolding add_named
  add_access_point scan access_point s = add_named scan access_point (nm.get_ssid access_point) s

  unfoldable pub add_all : Scan → List ℕ → NetworkList → NetworkList
  unfolding add_access_point
  add_all scan [] s = s
  add_all scan (access_point ∷ aps) s = add_all scan aps (add_access_point scan access_point s)

  -- `refresh_wireless_list`; `out_of_bounds` says that the widget is not in the window's view
  unfoldable pub refresh_wireless_list : Bool → Scan → NetworkList → NetworkList
  unfolding add_all get_strongest_unique_aps start_periodic_refresh cancel_periodic_refresh
      cc_network_list_set_property indicator_told
  refresh_wireless_list out_of_bounds scan s =
      let shown =
        if out_of_bounds && not (is_empty s.rows)
        then s
        else let cancelled =
            cancel_periodic_refresh
              (cc_network_list_set_property not_connected (record s { refreshing = true })) in
          indicator_told scan.access_points (
            add_all scan (get_strongest_unique_aps nm scan.access_points)
              (record cancelled { rows = []; log = scan_requested ∷ cancelled.log })) in
      record (start_periodic_refresh scan.source shown) { refreshing = false }
