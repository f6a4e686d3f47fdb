-- ===== src/Network/Active.antt =====
-- src/cc-network-list.c: the row of the network that is in use.
use furios_initial_setup.Common.{
  All, Bool, Bool-cases, List, Option, [], arith, count, count-append, false, if◌then◌else◌, inl,
  inr, is_empty, none, not, refl, some, true, ℕ, ◌&&◌, ◌+◌, ◌∷◌, ◌≡◌, ◌≤◌,
}
use furios_initial_setup.Common.Bytes.{Bytes}
use furios_initial_setup.Network.Points.{IsSameness, NetworkManager, get_strongest_unique_aps}
use furios_initial_setup.Network.Rows.{
  NetworkList, Scan, active_ssid, add_access_point, add_all, add_named, cancel_periodic_refresh,
  cc_network_list_set_property, indicator_told, is_active, not_connected, refresh_wireless_list,
  row_for, scan_requested, show_state, start_periodic_refresh, state_of,
}
use furios_initial_setup.Network.Strongest.{
  AllDifferent, same_name, same_name_symm, same_name_trans, same_network,
}
use furios_initial_setup.Network.Unique.{unique_strongest}

told-rows : (aps : Option (List ℕ)) (s : NetworkList) → (indicator_told aps s).rows ≡ s.rows
unfolding indicator_told
told-rows none s = refl
told-rows (some []) s = refl
told-rows (some (p ∷ ps)) s = refl

module _ (nm : NetworkManager) where
  -- The access point is of the network that the device is connected to.
  abbrev matches : Option ℕ → ℕ → Bool
  matches active p = same_name nm (nm.get_ssid p) (active_ssid nm active)

  add_named-count :
      (scan : Scan) (p : ℕ) (o : Option Bytes) (s : NetworkList)
      → let t = add_named nm scan p o s in
        count is_active t.rows
        ≤ count is_active s.rows + (if same_name nm o (active_ssid nm scan.active_ap) then 1 else 0)
  unfolding add_named row_for state_of show_state cancel_periodic_refresh
  add_named-count scan p none s = ground arith
  add_named-count scan p (some name) s =
      ground (arith, count-append is_active s.rows (row_for nm scan p name ∷ []))

  add_all-count :
      (scan : Scan) (ps : List ℕ) (s : NetworkList)
      → count is_active (add_all nm scan ps s).rows
        ≤ count is_active s.rows + count (matches scan.active_ap) ps
  unfolding add_all add_access_point
  add_all-count scan [] s = omega arith
  add_all-count scan (p ∷ ps) s =
      let next = add_access_point nm scan p s in
      ground (arith, add_all-count scan ps next, add_named-count scan p (nm.get_ssid p) s)

module _ (nm : NetworkManager) (laws : IsSameness nm) where
  no_match :
      (active : Option ℕ) (p : ℕ) (ps : List ℕ)
      → matches nm active p ≡ true
      → All (λ q. same_network nm p q ≡ false) ps
      → count (matches nm active) ps ≡ 0
  no_match active p [] m d = refl
  no_match active p (q ∷ ps) m d = elim (Bool-cases (matches nm active q)) [
    | inl g ↦
        let back = same_name_symm nm laws (nm.get_ssid q) (active_ssid nm active) g in
        ground (
          arith,
          d.0,
          same_name_trans nm laws (nm.get_ssid p) (active_ssid nm active) (nm.get_ssid q) m back,
        )
    | inr g ↦ ground (arith, g, no_match active p ps m d.1)
  ]

  one_match :
      (active : Option ℕ) (ps : List ℕ) → AllDifferent nm ps → count (matches nm active) ps ≤ 1
  one_match active [] d = omega arith
  one_match active (p ∷ ps) d = elim (Bool-cases (matches nm active p)) [
    | inl g ↦ ground (arith, g, no_match active p ps g d.0)
    | inr g ↦ ground (arith, g, one_match active ps d.1)
  ]

  unique-AllDifferent : (o : Option (List ℕ)) → AllDifferent nm (get_strongest_unique_aps nm o)
  unfolding get_strongest_unique_aps
  unique-AllDifferent none = tt
  unique-AllDifferent (some ps) = (unique_strongest nm laws ps).1

  fresh_rows :
      (scan : Scan) (s : NetworkList)
      → s.rows ≡ []
      → count is_active (add_all nm scan (get_strongest_unique_aps nm scan.access_points) s).rows
        ≤ 1
  fresh_rows scan s e =
      let unique = get_strongest_unique_aps nm scan.access_points in
      let all = add_all-count nm scan unique s in
      ground
        (arith, e, all, one_match scan.active_ap unique (unique-AllDifferent scan.access_points))

  -- Where the comparison of names is an equivalence, and no more than one row is of a network in use,
  -- no more than one is after a refresh.
  pub refresh-one_active :
      (out_of_bounds : Bool) (scan : Scan) (s : NetworkList)
      → count is_active s.rows ≤ 1
      → count is_active (refresh_wireless_list nm out_of_bounds scan s).rows ≤ 1
  unfolding refresh_wireless_list cancel_periodic_refresh start_periodic_refresh
  refresh-one_active out_of_bounds scan s h =
      let cancelled =
        cancel_periodic_refresh
          (cc_network_list_set_property not_connected (record s { refreshing = true })) in
      let fresh =
        fresh_rows scan (record cancelled { rows = []; log = scan_requested ∷ cancelled.log })
          refl in
      let filled =
        add_all nm scan (get_strongest_unique_aps nm scan.access_points)
          (record cancelled { rows = []; log = scan_requested ∷ cancelled.log }) in
      elim (Bool-cases (out_of_bounds && not (is_empty s.rows))) [
        | inl b ↦ ground (arith, b, h)
        | inr b ↦ rw b (ground (arith, told-rows scan.access_points filled, fresh))
      ]
