-- ===== src/Network/Indicator.antt =====
-- src/cc-network-list.c: the picture that tells how far the connection is.
use furios_initial_setup.Common.{
  ==_iff, All, Bool, Bool-cases, List, Option, [], arith, false, if◌then◌else◌, inl, inr, is_empty,
  is_some, none, not, refl, some, sym, true, ℕ, ◌&&◌, ◌==◌, ◌||◌, ◌∙◌, ◌∷◌, ◌≡◌,
}
use furios_initial_setup.Common.Bytes.{Bytes}
use furios_initial_setup.Network.Points.{IsSameness, NetworkManager, get_strongest_unique_aps}
use furios_initial_setup.Network.Rows.{
  Call, NetworkList, RowState, Scan, SignalIndicator, activated, activating, active_ssid,
  add_access_point, add_all, add_named, cancel_periodic_refresh, cc_network_list_get_property,
  cc_network_list_set_property, connected_good, connected_ok, freed, inactive, indicator_set,
  indicator_told, not_connected, refresh_wireless_list, row_for, scan_requested, show_state,
  start_periodic_refresh, state_of, state_of_device,
}
use furios_initial_setup.Network.Strongest.{
  covered, same_name, same_name_symm, same_name_trans, same_network,
}
use furios_initial_setup.Network.Unique.{is_in, unique_strongest}

-- The picture for a state of the connection.
abbrev pub picture_of : RowState → SignalIndicator
picture_of inactive = not_connected
picture_of activating = connected_ok
picture_of activated = connected_good

-- The picture that the property was last set to.
abbrev pub last_set : List Call → Option SignalIndicator
last_set [] = none
last_set (indicator_set picture ∷ log) = some picture
last_set (_ ∷ log) = last_set log

-- The picture after a row in this state was added.
abbrev shown_over : RowState → Option SignalIndicator → Option SignalIndicator
shown_over inactive old = old
shown_over activating old = some connected_ok
shown_over activated old = some connected_good

-- The access points of a scan.
abbrev pub listed : Option (List ℕ) → List ℕ
listed none = []
listed (some ps) = ps

shown_over_twice :
    (r : RowState) (i : Option SignalIndicator) → shown_over r (shown_over r i) ≡ shown_over r i
shown_over_twice inactive i = refl
shown_over_twice activating i = refl
shown_over_twice activated i = refl

shown_over_none : (r : RowState) → shown_over r (some not_connected) ≡ some (picture_of r)
shown_over_none inactive = refl
shown_over_none activating = refl
shown_over_none activated = refl

told-indicator :
    (aps : Option (List ℕ)) (s : NetworkList) → last_set (indicator_told aps s).log ≡ last_set s.log
unfolding indicator_told
told-indicator none s = refl
told-indicator (some []) s = refl
told-indicator (some (p ∷ ps)) s = refl

told-freed :
    (aps : Option (List ℕ)) (s : NetworkList)
    → s.signal_indicator_picture ≡ freed
    → (indicator_told aps s).signal_indicator_picture ≡ freed
unfolding indicator_told
told-freed none s h = h
told-freed (some []) s h = h
told-freed (some (p ∷ ps)) s h = h

same_name-is_some :
    (nm : NetworkManager) (o name : Option Bytes) → same_name nm o name ≡ true → is_some o ≡ true
same_name-is_some nm none name h = cc
same_name-is_some nm (some ssid) name h = refl

module _ (nm : NetworkManager) where
  -- Some access point is of the network with this name.
  abbrev pub is_seen : Option Bytes → List ℕ → Bool
  is_seen name [] = false
  is_seen name (p ∷ ps) = same_name nm (nm.get_ssid p) name || is_seen name ps

  add_named-indicator :
      (scan : Scan) (p : ℕ) (o : Option Bytes) (s : NetworkList)
      → last_set (add_named nm scan p o s).log ≡ (
          if same_name nm o (active_ssid nm scan.active_ap)
          then shown_over (state_of_device scan.device_state) (last_set s.log)
          else last_set s.log)
  unfolding add_named row_for state_of show_state cancel_periodic_refresh
  add_named-indicator scan p none s = refl
  add_named-indicator scan p (some name) s = ground arith

  add_all-indicator :
      (scan : Scan) (ps : List ℕ) (s : NetworkList)
      → last_set (add_all nm scan ps s).log ≡ (
          if is_seen (active_ssid nm scan.active_ap) ps
          then shown_over (state_of_device scan.device_state) (last_set s.log)
          else last_set s.log)
  unfolding add_all add_access_point
  add_all-indicator scan [] s = refl
  add_all-indicator scan (p ∷ ps) s =
      let next = add_access_point nm scan p s in
      ground (
        arith,
        add_all-indicator scan ps next,
        add_named-indicator scan p (nm.get_ssid p) s,
        shown_over_twice (state_of_device scan.device_state) (last_set s.log),
      )

  add_named-freed :
      (scan : Scan) (p : ℕ) (o : Option Bytes) (s : NetworkList)
      → s.signal_indicator_picture ≡ freed
      → (add_named nm scan p o s).signal_indicator_picture ≡ freed
  unfolding add_named row_for state_of show_state cancel_periodic_refresh
  add_named-freed scan p none s h = h
  add_named-freed scan p (some name) s h = ground arith

  add_all-freed :
      (scan : Scan) (ps : List ℕ) (s : NetworkList)
      → s.signal_indicator_picture ≡ freed
      → (add_all nm scan ps s).signal_indicator_picture ≡ freed
  unfolding add_all add_access_point
  add_all-freed scan [] s h = h
  add_all-freed scan (p ∷ ps) s h =
      add_all-freed scan ps (add_access_point nm scan p s)
        (add_named-freed scan p (nm.get_ssid p) s h)

  is_seen-is_in :
      (name : Option Bytes) (p : ℕ) (ps : List ℕ)
      → is_in p ps ≡ true
      → same_name nm (nm.get_ssid p) name ≡ true
      → is_seen name ps ≡ true
  is_seen-is_in name p [] h k = cc
  is_seen-is_in name p (q ∷ qs) h k = elim (Bool-cases (p == q)) [
    | inl e ↦
        let at_q : same_name nm (nm.get_ssid q) name ≡ true = rw ((==_iff p q).0 e) at k in
        ground (arith, at_q)
    | inr e ↦ ground (arith, e, is_seen-is_in name p qs)
  ]

  is_seen-AllIn :
      (name : Option Bytes) (ps xs : List ℕ)
      → All (λ x. is_in x ps ≡ true) xs
      → is_seen name xs ≡ true
      → is_seen name ps ≡ true
  is_seen-AllIn name ps [] a h = cc
  is_seen-AllIn name ps (x ∷ xs) a h = elim (Bool-cases (same_name nm (nm.get_ssid x) name)) [
    | inl e ↦ is_seen-is_in name x ps a.0 e
    | inr e ↦ is_seen-AllIn name ps xs a.1 (ground (arith, e))
  ]

module _ (nm : NetworkManager) (laws : IsSameness nm) where
  is_seen-covered :
      (name : Option Bytes) (p : ℕ) (xs : List ℕ)
      → covered nm p xs ≡ true
      → same_name nm (nm.get_ssid p) name ≡ true
      → is_seen nm name xs ≡ true
  is_seen-covered name p [] h k = cc
  is_seen-covered name p (x ∷ xs) h k = elim (Bool-cases (same_network nm p x)) [
    | inl g ↦
        let back = same_name_symm nm laws (nm.get_ssid p) (nm.get_ssid x) g in
        let at_x = same_name_trans nm laws (nm.get_ssid x) (nm.get_ssid p) name back k in
        ground (arith, at_x)
    | inr g ↦ ground (arith, g, is_seen-covered name p xs)
  ]

  is_seen-AllCovered :
      (name : Option Bytes) (ps xs : List ℕ)
      → All (λ p. is_some (nm.get_ssid p) ≡ true → covered nm p xs ≡ true) ps
      → is_seen nm name ps ≡ true
      → is_seen nm name xs ≡ true
  is_seen-AllCovered name [] xs a h = cc
  is_seen-AllCovered name (p ∷ ps) xs a h = elim (Bool-cases (same_name nm (nm.get_ssid p) name)) [
    | inl e ↦
        let named = same_name-is_some nm (nm.get_ssid p) name e in
        is_seen-covered name p xs (a.0 named) e
    | inr e ↦ is_seen-AllCovered name ps xs a.1 (ground (arith, e))
  ]

  -- Leaving out the weaker access points loses no network.
  is_seen_unique :
      (name : Option Bytes) (aps : Option (List ℕ))
      → is_seen nm name (get_strongest_unique_aps nm aps) ≡ is_seen nm name (listed aps)
  unfolding get_strongest_unique_aps
  is_seen_unique name none = refl
  is_seen_unique name (some ps) =
      let xs = get_strongest_unique_aps nm (some ps) in
      let (within, different, all_covered) = unique_strongest nm laws ps in
      let there = is_seen-AllCovered name ps xs all_covered in
      let back = is_seen-AllIn nm name ps xs within in
      elim (Bool-cases (is_seen nm name ps)) [
        | inl e ↦ there e ∙ sym e
        | inr e ↦ elim (Bool-cases (is_seen nm name xs)) [ inl g ↦ cc (back g) | inr g ↦ g ∙ sym e ]
      ]

  -- Where the comparison of names is an equivalence: a refresh that is skipped does not set the picture,
  -- and after any other the property was last set to the picture for the state of the device if an access
  -- point of the network in use was found, and to the picture for no connection otherwise; but the text of
  -- the property, which the page reads, is freed.
  pub refresh-indicator :
      (out_of_bounds : Bool) (scan : Scan) (s : NetworkList)
      → let t = refresh_wireless_list nm out_of_bounds scan s in
        let skips = out_of_bounds && not (is_empty s.rows) in
        (last_set t.log ≡ (
          if skips
          then last_set s.log
          else if is_seen nm (active_ssid nm scan.active_ap) (listed scan.access_points)
          then some (picture_of (state_of_device scan.device_state))
          else some not_connected))
        × (cc_network_list_get_property t
            ≡ (if skips then cc_network_list_get_property s else freed))
  unfolding refresh_wireless_list cc_network_list_get_property indicator_told
      cancel_periodic_refresh start_periodic_refresh cc_network_list_set_property
  refresh-indicator out_of_bounds scan s =
      let cancelled =
        cancel_periodic_refresh
          (cc_network_list_set_property not_connected (record s { refreshing = true })) in
      let begun = record cancelled { rows = []; log = scan_requested ∷ cancelled.log } in
      let unique = get_strongest_unique_aps nm scan.access_points in
      let filled = add_all nm scan unique begun in
      let none_yet : last_set begun.log ≡ some not_connected = ground arith in
      let whole = add_all-indicator nm scan unique begun in
      let same_networks = is_seen_unique (active_ssid nm scan.active_ap) scan.access_points in
      let told = told-indicator scan.access_points filled in
      let lost : begun.signal_indicator_picture ≡ freed = ground arith in
      let kept = add_all-freed nm scan unique begun lost in
      let given = told-freed scan.access_points filled kept in
      elim (Bool-cases (out_of_bounds && not (is_empty s.rows))) [
        | inl b ↦ (ground (arith, b), ground (arith, b))
        | inr b ↦ rw b (
          ground (
            arith,
            told,
            whole,
            same_networks,
            none_yet,
            shown_over_none (state_of_device scan.device_state),
          ),
          ground (arith, given),
        )
      ]
