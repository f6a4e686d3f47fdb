-- ===== src/Network/Connect.antt =====
-- src/cc-network-list.c: the order of the rows, the choice of the device and of a network.
use furios_initial_setup.Common.{
  Bool, List, Option, [], false, if◌then◌else◌, ltb, none, not, some, true, ℕ, ◌&&◌, ◌==◌, ◌||◌,
  ◌∷◌,
}
use furios_initial_setup.Common.Bytes.{Bytes, bytes, is_prefix}
use furios_initial_setup.Network.Points.{NetworkManager}
use furios_initial_setup.Network.Rows.{NetworkList, Row, Scan, refresh_wireless_list}

-- `ap_sort` on what the rows are sorted by, by the sign of its value: the stronger row comes first.
pub data Placed : Type 0 where
  placed_before placed_alike placed_after : Placed

unfoldable pub ap_sort : Row → Row → Placed
ap_sort a b =
    if ltb b.strength a.strength
    then placed_before
    else if ltb a.strength b.strength
    then placed_after
    else placed_alike

-- What NetworkManager says of a device.
pub record Device : Type 0 where
  pub device : ℕ
  pub is_managed : Bool
  pub is_wifi : Bool
  pub iface : Option Bytes

-- A call that the choice of a device or of a network makes.
pub data ConnectCall : Type 0 where
  activate_connection : ℕ → ℕ → ConnectCall
  add_and_activate : ℕ → ℕ → ConnectCall
  watch_device : ℕ → ConnectCall
  watch_active_connections : ConnectCall
  watch_connection : ℕ → ConnectCall
  look_for_device : ConnectCall

-- The list with the client and the device of `_CcNetworkListPrivate`, and the connections that have the
-- handler of their state.
pub record WifiPage : Type 0 where
  pub list : NetworkList
  pub nm_client : Bool
  pub nm_device : Option ℕ
  pub has_state_changed_handler : List ℕ
  pub connect_log : List ConnectCall

-- An interface that is skipped.
unfoldable pub is_skipped : Option Bytes → Bool
unfolding is_prefix
is_skipped none = false
is_skipped (some iface) = is_prefix (bytes "ap") iface || is_prefix (bytes "p2p") iface

abbrev pub is_usable : Device → Bool
is_usable d = d.is_managed && (d.is_wifi && not (is_skipped d.iface))

-- The loop of `find_best_device`: the first device that can be used.
unfoldable pub best_device : List Device → Option ℕ
unfolding is_skipped
best_device [] = none
best_device (d ∷ ds) =
    let rest = best_device ds in
    if not d.is_managed
    then rest
    else if d.is_wifi
    then if is_skipped d.iface then rest else some d.device
    else rest

-- What is documented of `nm_utils_same_ssid` is in IsSameness; a saved connection with its network, if
-- it is of a network without wires that has a name.
pub record Saved : Type 0 where
  pub connection : ℕ
  pub saved_ssid : Option Bytes

abbrev pub member : ℕ → List ℕ → Bool
member c [] = false
member c (d ∷ ds) = if c == d then true else member c ds

-- `connection_add_activate_cb`: a failure is only logged.
unfoldable pub connection_add_activate_cb : Bool → WifiPage → WifiPage
connection_add_activate_cb added s = s

module _ (nm : NetworkManager) where
  -- `refresh_wireless_list` on the page
  unfoldable pub refreshed : Bool → Scan → WifiPage → WifiPage
  refreshed out_of_bounds scan s = record s {
    list = refresh_wireless_list nm out_of_bounds scan s.list;
  }

  -- The loop of `row_activated`: the first saved connection of the network.
  unfoldable pub saved_for : Bytes → List Saved → Option ℕ
  saved_for ssid_target [] = none
  saved_for ssid_target (c ∷ cs) =
      let rest = saved_for ssid_target cs in
      elim c.saved_ssid [
        | none ↦ rest
        | some ssid ↦ if nm.same_ssid ssid ssid_target then some c.connection else rest
      ]

  unfoldable pub activate : Option ℕ → ℕ → Row → Bool → Scan → WifiPage → WifiPage
  unfolding refreshed
  activate (some c) dev row out_of_bounds scan s = record s {
    connect_log = activate_connection c dev ∷ s.connect_log;
  }
  activate none dev row out_of_bounds scan s =
      refreshed out_of_bounds scan
        (record s { connect_log = add_and_activate dev row.access_point ∷ s.connect_log })

  -- `row_activated`, with the connections that are saved for the device
  unfoldable pub row_activated : List Saved → ℕ → Row → Bool → Scan → WifiPage → WifiPage
  unfolding activate
  row_activated saved dev row out_of_bounds scan s =
      if s.list.refreshing
      then s
      else activate (saved_for row.ssid saved) dev row out_of_bounds scan s

  -- `connection_activate_cb`, `connection_state_changed` and `refresh_again`
  unfoldable pub connection_activate_cb : Bool → Scan → WifiPage → WifiPage
  unfolding refreshed
  connection_activate_cb out_of_bounds scan s = refreshed out_of_bounds scan s

  unfoldable pub connection_state_changed : Bool → Scan → WifiPage → WifiPage
  unfolding refreshed
  connection_state_changed out_of_bounds scan s = refreshed out_of_bounds scan s

  unfoldable pub refresh_again : Bool → Scan → WifiPage → WifiPage
  unfolding refreshed
  refresh_again out_of_bounds scan s = refreshed out_of_bounds scan s

  -- `sync_complete`
  unfoldable pub sync_complete : Bool → Scan → WifiPage → WifiPage
  unfolding refreshed
  sync_complete out_of_bounds scan s = elim s.nm_device [
    | none ↦ s
    | some d ↦ refreshed out_of_bounds scan s
  ]

  unfoldable pub device_state_changed : Bool → Scan → WifiPage → WifiPage
  unfolding sync_complete
  device_state_changed out_of_bounds scan s = sync_complete out_of_bounds scan s

  -- `find_best_device`, with the devices that the client knows
  unfoldable pub find_best_device : List Device → Bool → Scan → WifiPage → WifiPage
  unfolding sync_complete
  find_best_device devices out_of_bounds scan s = elim s.nm_device [
    | some d ↦ s
    | none ↦ elim (best_device devices) [
      | none ↦ sync_complete out_of_bounds scan s
      | some d ↦ sync_complete out_of_bounds scan (record s {
        nm_device = some d;
        connect_log = watch_active_connections ∷ (watch_device d ∷ s.connect_log);
      })
    ]
  ]

  -- `find_best_device_wrapper`, and whether its timer stays
  unfoldable pub find_best_device_wrapper : List Device → Bool → Scan → WifiPage → WifiPage × Bool
  unfolding find_best_device
  find_best_device_wrapper devices out_of_bounds scan s =
      (find_best_device devices out_of_bounds scan s, false)

  -- `cc_network_list_constructed`, by whether there is a client
  unfoldable pub cc_network_list_constructed : Bool → Bool → Scan → WifiPage → WifiPage
  unfolding sync_complete
  cc_network_list_constructed true out_of_bounds scan s = record s {
    nm_client = true;
    connect_log = look_for_device ∷ s.connect_log;
  }
  cc_network_list_constructed false out_of_bounds scan s =
      sync_complete out_of_bounds scan (record s { nm_client = false })

-- `active_connections_changed`
unfoldable pub active_connections_changed : List ℕ → WifiPage → WifiPage
active_connections_changed [] s = s
active_connections_changed (c ∷ cs) s = active_connections_changed cs (
    if member c s.has_state_changed_handler then s else record s {
      has_state_changed_handler = c ∷ s.has_state_changed_handler;
      connect_log = watch_connection c ∷ s.connect_log;
    })
