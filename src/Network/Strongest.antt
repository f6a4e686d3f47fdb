-- ===== src/Network/Strongest.antt =====
-- src/cc-network-list.c: one access point for each network, the strongest.
use furios_initial_setup.Common.{
  All, Bool, List, Option, [], ap, arith, false, leb, none, refl, some, true, ℕ, ◌&&◌, ◌++◌, ◌||◌,
  ◌∷◌, ◌≡◌, ◌≤◌, ◌⊎◌,
}
use furios_initial_setup.Common.Bytes.{Bytes}
use furios_initial_setup.Network.Points.{
  IsSameness, NetworkManager, find_same, has_ssid, ptr_array_remove,
}

module _ (nm : NetworkManager) where
  abbrev pub same_name : Option Bytes → Option Bytes → Bool
  same_name none b = false
  same_name (some ssid) b = has_ssid nm ssid b

  -- Both access points have a name, and it is the same.
  abbrev pub same_network : ℕ → ℕ → Bool
  same_network a b = same_name (nm.get_ssid a) (nm.get_ssid b)

  -- No two entries are of the same network.
  abbrev pub AllDifferent : List ℕ → Type 0
  AllDifferent [] = Unit
  AllDifferent (x ∷ xs) = All (λ y. same_network x y ≡ false) xs × AllDifferent xs

  -- Some entry is of the network of `a`, and at least as strong.
  abbrev pub covered : ℕ → List ℕ → Bool
  covered a [] = false
  covered a (x ∷ xs) =
      (same_network a x && leb (nm.get_strength a) (nm.get_strength x)) || covered a xs

module _ (nm : NetworkManager) (laws : IsSameness nm) where
  open laws use {same_refl, same_symm, same_trans}

  pub same_name_symm : (a b : Option Bytes) → same_name nm a b ≡ true → same_name nm b a ≡ true
  unfolding has_ssid
  same_name_symm none b h = cc
  same_name_symm (some s) none h = cc
  same_name_symm (some s) (some t) h = same_symm s t h

  pub same_name_trans :
      (a b c : Option Bytes)
      → same_name nm a b ≡ true
      → same_name nm b c ≡ true
      → same_name nm a c ≡ true
  unfolding has_ssid
  same_name_trans none b c h k = cc
  same_name_trans (some s) none c h k = cc
  same_name_trans (some s) (some t) none h k = cc
  same_name_trans (some s) (some t) (some u) h k = same_trans s t u h k

  pub same_network_symm : (a b : ℕ) → same_network nm a b ≡ true → same_network nm b a ≡ true
  same_network_symm a b = same_name_symm (nm.get_ssid a) (nm.get_ssid b)

  pub same_network_trans :
      (a b c : ℕ)
      → same_network nm a b ≡ true
      → same_network nm b c ≡ true
      → same_network nm a c ≡ true
  same_network_trans a b c = same_name_trans (nm.get_ssid a) (nm.get_ssid b) (nm.get_ssid c)

  -- What the inner loop finds.
  pub find_same-none :
      (ap : ℕ) (ssid : Bytes) (xs : List ℕ)
      → nm.get_ssid ap ≡ some ssid
      → find_same nm ssid xs ≡ none
      → All (λ x. same_network nm x ap ≡ false) xs
  unfolding find_same
  find_same-none ap ssid [] e h = tt
  find_same-none ap ssid (x ∷ xs) e h =
      ground (arith, same_network_symm x ap, find_same-none ap ssid xs e)

  pub find_same-some :
      (ap tmp : ℕ) (ssid : Bytes) (xs : List ℕ)
      → nm.get_ssid ap ≡ some ssid
      → find_same nm ssid xs ≡ some tmp
      → same_network nm ap tmp ≡ true
  unfolding find_same
  find_same-some ap tmp ssid [] e h = cc
  find_same-some ap tmp ssid (x ∷ xs) e h = ground (arith, find_same-some ap tmp ssid xs e)

  pub covered-append :
      (a : ℕ) (xs ys : List ℕ) → covered nm a (xs ++ ys) ≡ (covered nm a xs || covered nm a ys)
  covered-append a [] ys = refl
  covered-append a (x ∷ xs) ys = ground (arith, covered-append a xs ys)

  -- Only what `tmp` covers may be lost with it.
  pub covered-remove :
      (a tmp : ℕ) (xs : List ℕ)
      → covered nm a xs ≡ true
      → (covered nm a (ptr_array_remove xs tmp) ≡ true)
        ⊎ ((same_network nm a tmp ≡ true) × (nm.get_strength a ≤ nm.get_strength tmp))
  unfolding ptr_array_remove
  covered-remove a tmp [] h = cc
  covered-remove a tmp (x ∷ xs) h = ground (arith, covered-remove a tmp xs)
