-- ===== src/Network/Chosen.antt =====
-- src/cc-network-list.c: which device and which connection are chosen.
use furios_initial_setup.Common.{
  Bool, Bool-cases, List, Option, [], ap, arith, if◌then◌else◌, inl, inr, none, refl, some, suc, ℕ,
  ◌==◌, ◌∙◌, ◌∷◌, ◌≡◌,
}
use furios_initial_setup.Network.Connect.{
  ConnectCall, Device, Saved, WifiPage, activate, activate_connection, active_connections_changed,
  add_and_activate, best_device, connection_add_activate_cb, find_best_device, is_usable,
  look_for_device, member, refresh_again, refreshed, row_activated, sync_complete,
  watch_active_connections, watch_connection, watch_device,
}
use furios_initial_setup.Network.Points.{NetworkManager}
use furios_initial_setup.Network.Rows.{Row, Scan}

-- What can happen to the page, with what NetworkManager says then.
pub data WifiEvent : Type 0 where
  looked_for_device : List Device → Bool → Scan → WifiEvent
  row_chosen : List Saved → ℕ → Row → Bool → Scan → WifiEvent
  refreshes : Bool → Scan → WifiEvent
  device_synced : Bool → Scan → WifiEvent
  connections_changed : List ℕ → WifiEvent
  connection_added : Bool → WifiEvent

-- How often a connection was given the handler of its state.
pub watches : ℕ → List ConnectCall → ℕ
watches c [] = 0
watches c (watch_connection d ∷ log) = let rest = watches c log in if c == d then suc rest else rest
watches c (activate_connection d e ∷ log) = watches c log
watches c (add_and_activate d e ∷ log) = watches c log
watches c (watch_device d ∷ log) = watches c log
watches c (watch_active_connections ∷ log) = watches c log
watches c (look_for_device ∷ log) = watches c log

-- The first of the devices that can be used.
unfoldable pub first_usable : List Device → Option ℕ
first_usable [] = none
first_usable (d ∷ ds) = let rest = first_usable ds in if is_usable d then some d.device else rest

best_device_lem : (ds : List Device) → best_device ds ≡ first_usable ds
unfolding best_device first_usable
best_device_lem [] = refl
best_device_lem (d ∷ ds) = ground (arith, best_device_lem ds)

module _ (nm : NetworkManager) where
  pub wifi_step : WifiEvent → WifiPage → WifiPage
  wifi_step (looked_for_device ds out scan) s = find_best_device nm ds out scan s
  wifi_step (row_chosen saved dev row out scan) s = row_activated nm saved dev row out scan s
  wifi_step (refreshes out scan) s = refresh_again nm out scan s
  wifi_step (device_synced out scan) s = sync_complete nm out scan s
  wifi_step (connections_changed cs) s = active_connections_changed cs s
  wifi_step (connection_added added) s = connection_add_activate_cb added s

  pub wifi_run : WifiPage → List WifiEvent → WifiPage
  wifi_run s [] = s
  wifi_run s (v ∷ vs) = wifi_run (wifi_step v s) vs

  -- A connection is watched exactly if it is noted as such, and at most once.
  pub WatchedOnce : WifiPage → Type 0
  WatchedOnce s =
      (c : ℕ) → watches c s.connect_log ≡ (if member c s.has_state_changed_handler then 1 else 0)

  noted-WatchedOnce :
      (d : ℕ) (s : WifiPage)
      → WatchedOnce s
      → WatchedOnce (
          if member d s.has_state_changed_handler then s else record s {
            has_state_changed_handler = d ∷ s.has_state_changed_handler;
            connect_log = watch_connection d ∷ s.connect_log;
          })
  unfolding WatchedOnce watches
  noted-WatchedOnce d s h = elim (Bool-cases (member d s.has_state_changed_handler)) [
    | inl e ↦ rw e h
    | inr e ↦
        let none_yet : watches d s.connect_log ≡ 0 = h d ∙ ap (λ b. if b then 1 else 0) e in
        rw e (λ c. elim (Bool-cases (c == d)) [
          | inl same ↦
              let is : c ≡ d = ground arith in
              let none_here : watches c s.connect_log ≡ 0 =
                ap (λ b. watches b s.connect_log) is ∙ none_yet in
              rw same (omega (arith, none_here))
          | inr other ↦ rw other (h c)
        ])
  ]

  changed-WatchedOnce :
      (cs : List ℕ) (s : WifiPage) → WatchedOnce s → WatchedOnce (active_connections_changed cs s)
  unfolding active_connections_changed
  changed-WatchedOnce [] s h = h
  changed-WatchedOnce (d ∷ cs) s h = changed-WatchedOnce cs _ (noted-WatchedOnce d s h)

  step-WatchedOnce : (v : WifiEvent) (s : WifiPage) → WatchedOnce s → WatchedOnce (wifi_step v s)
  unfolding wifi_step WatchedOnce watches find_best_device sync_complete refreshed row_activated
      refresh_again activate connection_add_activate_cb
  step-WatchedOnce (looked_for_device ds out scan) s h = λ c. ground (arith, h c)
  step-WatchedOnce (row_chosen saved dev row out scan) s h = λ c. ground (arith, h c)
  step-WatchedOnce (refreshes out scan) s h = h
  step-WatchedOnce (device_synced out scan) s h = λ c. ground (arith, h c)
  step-WatchedOnce (connections_changed cs) s h = changed-WatchedOnce cs s h
  step-WatchedOnce (connection_added added) s h = h

  -- Whatever comes in, in whatever order: a connection has the handler of its state exactly if it is
  -- noted as having it, and has it once, where it was so before.
  pub run-WatchedOnce :
      (s : WifiPage) (vs : List WifiEvent) → WatchedOnce s → WatchedOnce (wifi_run s vs)
  unfolding wifi_run
  run-WatchedOnce s [] h = h
  run-WatchedOnce s (v ∷ vs) h = run-WatchedOnce (wifi_step v s) vs (step-WatchedOnce v s h)

  changed-device :
      (cs : List ℕ) (s : WifiPage) → (active_connections_changed cs s).nm_device ≡ s.nm_device
  unfolding active_connections_changed
  changed-device [] s = refl
  changed-device (d ∷ cs) s = changed-device cs _ ∙ ground arith

  step-device :
      (v : WifiEvent) (s : WifiPage) (d : ℕ)
      → s.nm_device ≡ some d
      → (wifi_step v s).nm_device ≡ some d
  unfolding wifi_step find_best_device sync_complete refreshed row_activated activate refresh_again
      connection_add_activate_cb
  step-device (looked_for_device ds out scan) s d h = ground arith
  step-device (row_chosen saved dev row out scan) s d h = ground arith
  step-device (refreshes out scan) s d h = h
  step-device (device_synced out scan) s d h = ground arith
  step-device (connections_changed cs) s d h = changed-device cs s ∙ h
  step-device (connection_added added) s d h = h

  run-device :
      (s : WifiPage) (vs : List WifiEvent) (d : ℕ)
      → s.nm_device ≡ some d
      → (wifi_run s vs).nm_device ≡ some d
  unfolding wifi_run
  run-device s [] d h = h
  run-device s (v ∷ vs) d h = run-device (wifi_step v s) vs d (step-device v s d h)

  -- Where there is no device yet, a look for one takes the first device that is managed, is a Wi-Fi
  -- device, and has no interface that starts with "ap" or "p2p"; it stays the device, whatever comes
  -- in after that.
  pub device_stays :
      (s : WifiPage) (ds : List Device) (out : Bool) (scan : Scan) (vs : List WifiEvent) (d : ℕ)
      → s.nm_device ≡ none
      → first_usable ds ≡ some d
      → (wifi_run (wifi_step (looked_for_device ds out scan) s) vs).nm_device ≡ some d
  unfolding wifi_step find_best_device sync_complete refreshed row_activated activate refresh_again
  device_stays s ds out scan vs d h f =
      run-device (wifi_step (looked_for_device ds out scan) s) vs d
        (looked s ds out scan d h (best_device_lem ds ∙ f))
    where
      looked :
          (s : WifiPage) (ds : List Device) (out : Bool) (scan : Scan) (d : ℕ)
          → s.nm_device ≡ none
          → best_device ds ≡ some d
          → (wifi_step (looked_for_device ds out scan) s).nm_device ≡ some d
      looked s ds out scan d h b = ground arith
