-- ===== src/Network/Examples.antt =====
-- Three access points: 1 and 3 are of the network "a", 2 of the network "b".
use furios_initial_setup.Common.{
  List, Option, [], arith, count, false, if◌then◌else◌, none, refl, some, true, ℕ, ◌*◌, ◌==◌, ◌∷◌,
  ◌≡◌, ◌≤◌,
}
use furios_initial_setup.Common.Bytes.{
  Bytes, bytes, bytes_eq, bytes_eq_refl, bytes_eq_sound, is_prefix,
}
use furios_initial_setup.Network.Active.{refresh-one_active}
use furios_initial_setup.Network.Chosen.{
  connections_changed, device_stays, first_usable, looked_for_device, wifi_run, wifi_step,
}
use furios_initial_setup.Network.Connect.{Device, WifiPage, is_skipped}
use furios_initial_setup.Network.Indicator.{last_set, refresh-indicator}
use furios_initial_setup.Network.Points.{
  IsSameness, NetworkManager, get_strongest_unique_aps, has_ssid,
}
use furios_initial_setup.Network.Rows.{
  NetworkList, Scan, active_ssid, connected_good, device_activated, is_active, null,
  refresh_wireless_list, state_of_device,
}
use furios_initial_setup.Network.Strongest.{AllDifferent}
use furios_initial_setup.Network.Unique.{unique_strongest}

abbrev toy_ssid : ℕ → Option Bytes
toy_ssid p = if p == 0 then none else if p == 2 then some (bytes "b") else some (bytes "a")

abbrev toy_nm : NetworkManager
toy_nm = record { get_ssid = toy_ssid; get_strength = λ p. p * 10; same_ssid = bytes_eq }

toy_nm-IsSameness : IsSameness toy_nm
toy_nm-IsSameness = record {
  same_refl = bytes_eq_refl;
  same_symm = λ a b h. rw (bytes_eq_sound a b h) (bytes_eq_refl b);
  same_trans = λ a b c h k. rw (bytes_eq_sound a b h) k;
}

strongest_run : get_strongest_unique_aps toy_nm (some (1 ∷ 2 ∷ 0 ∷ 3 ∷ [])) ≡ 2 ∷ 3 ∷ []
unfolding get_strongest_unique_aps has_ssid bytes_eq
strongest_run = refl

unique_strongest_example :
    AllDifferent toy_nm (get_strongest_unique_aps toy_nm (some (1 ∷ 2 ∷ 0 ∷ 3 ∷ [])))
unique_strongest_example = (unique_strongest toy_nm toy_nm-IsSameness (1 ∷ 2 ∷ 0 ∷ 3 ∷ [])).1

abbrev connected : Scan
connected = record {
  device_state = device_activated;
  active_ap = some 1;
  access_points = some (1 ∷ 2 ∷ 0 ∷ 3 ∷ []);
  source = 5;
}

abbrev fresh : NetworkList
fresh = record {
  refreshing = false;
  refresh_timeout_id = 0;
  rows = [];
  signal_indicator_picture = null;
  log = [];
}

refresh-one_active_example :
    count is_active (refresh_wireless_list toy_nm false connected fresh).rows ≤ 1
refresh-one_active_example =
    refresh-one_active toy_nm toy_nm-IsSameness false connected fresh (omega arith)

refresh-indicator_example :
    last_set (refresh_wireless_list toy_nm false connected fresh).log ≡ some connected_good
unfolding active_ssid has_ssid bytes_eq state_of_device
refresh-indicator_example = (refresh-indicator toy_nm toy_nm-IsSameness false connected fresh).0

abbrev wifi_device : ℕ → Option Bytes → Device
wifi_device d name = record { device = d; is_managed = true; is_wifi = true; iface = name }

abbrev no_device : WifiPage
no_device = record {
  list = fresh;
  nm_client = true;
  nm_device = none;
  has_state_changed_handler = [];
  connect_log = [];
}

abbrev known_devices : List Device
known_devices = wifi_device 1 (some (bytes "ap0")) ∷ (wifi_device 2 (some (bytes "wlan0")) ∷ [])

device_stays_example :
    (wifi_run toy_nm
      (wifi_step toy_nm (looked_for_device known_devices false connected) no_device)
      (looked_for_device (wifi_device 3 none ∷ []) false connected
        ∷ (connections_changed (7 ∷ []) ∷ []))).nm_device
    ≡ some 2
unfolding is_skipped is_prefix first_usable
device_stays_example =
    device_stays toy_nm no_device known_devices false connected
      (looked_for_device (wifi_device 3 none ∷ []) false connected
        ∷ (connections_changed (7 ∷ []) ∷ []))
      2 refl refl
