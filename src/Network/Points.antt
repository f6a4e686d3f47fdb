-- ===== src/Network/Points.antt =====
-- src/cc-network-list.c: the access points that are shown.
use furios_initial_setup.Common.{
  Bool, List, Option, [], ap, false, if◌then◌else◌, ltb, none, some, true, ℕ, ◌++◌, ◌==◌, ◌∷◌, ◌≡◌,
}
use furios_initial_setup.Common.Bytes.{Bytes}

-- What NetworkManager says of an access point, and when it takes two network names for the same;
-- objects are named by numbers.
pub record NetworkManager : Type 0 where
  pub get_ssid : ℕ → Option Bytes
  pub get_strength : ℕ → ℕ
  pub same_ssid : Bytes → Bytes → Bool

-- `nm_utils_same_ssid` compares the bytes, but for a trailing NUL.
pub record IsSameness (nm : NetworkManager) : Type 0 where
  pub same_refl : (a : Bytes) → nm.same_ssid a a ≡ true
  pub same_symm : (a b : Bytes) → nm.same_ssid a b ≡ true → nm.same_ssid b a ≡ true
  pub same_trans :
      (a b c : Bytes) → nm.same_ssid a b ≡ true → nm.same_ssid b c ≡ true → nm.same_ssid a c ≡ true

-- `g_ptr_array_remove`
unfoldable pub ptr_array_remove : List ℕ → ℕ → List ℕ
ptr_array_remove [] p = []
ptr_array_remove (x ∷ xs) p = if x == p then xs else x ∷ ptr_array_remove xs p

module _ (nm : NetworkManager) where
  unfoldable pub has_ssid : Bytes → Option Bytes → Bool
  has_ssid ssid none = false
  has_ssid ssid (some other) = nm.same_ssid ssid other

  -- The inner loop: the entry of the same network, if there is one.
  unfoldable pub find_same : Bytes → List ℕ → Option ℕ
  unfolding has_ssid
  find_same ssid [] = none
  find_same ssid (tmp ∷ unique) =
      if has_ssid ssid (nm.get_ssid tmp) then some tmp else find_same ssid unique

  -- One round of the outer loop, for an access point with a name.
  unfoldable pub add_ap : ℕ → Option ℕ → List ℕ → List ℕ
  unfolding ptr_array_remove
  add_ap ap none unique = unique ++ ap ∷ []
  add_ap ap (some tmp) unique =
      if ltb (nm.get_strength tmp) (nm.get_strength ap)
      then ptr_array_remove unique tmp ++ ap ∷ []
      else unique

  unfoldable pub visit_ap : ℕ → Option Bytes → List ℕ → List ℕ
  unfolding find_same add_ap
  visit_ap ap none unique = unique
  visit_ap ap (some ssid) unique = add_ap ap (find_same ssid unique) unique

  unfoldable pub strongest_from : List ℕ → List ℕ → List ℕ
  strongest_from unique [] = unique
  strongest_from unique (ap ∷ aps) = strongest_from (visit_ap ap (nm.get_ssid ap) unique) aps

  -- `get_strongest_unique_aps`
  unfoldable pub get_strongest_unique_aps : Option (List ℕ) → List ℕ
  unfolding strongest_from visit_ap
  get_strongest_unique_aps none = []
  get_strongest_unique_aps (some aps) = strongest_from [] aps
