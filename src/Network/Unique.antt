-- ===== src/Network/Unique.antt =====
-- src/cc-network-list.c: what the list of the strongest access points holds.
use furios_initial_setup.Common.{
  ==_iff, All, Bool, Bool-cases, List, Option, Option-cases, [], arith, false, inl, inr, is_some,
  none, refl, some, true, ℕ, ◌++◌, ◌==◌, ◌||◌, ◌∷◌, ◌≡◌, ◌≤◌,
}
use furios_initial_setup.Common.Bytes.{Bytes}
use furios_initial_setup.Network.Points.{
  IsSameness, NetworkManager, add_ap, find_same, get_strongest_unique_aps, has_ssid,
  ptr_array_remove, strongest_from, visit_ap,
}
use furios_initial_setup.Network.Strongest.{
  AllDifferent, covered, covered-append, covered-remove, find_same-none, find_same-some,
  same_network, same_network_symm, same_network_trans,
}

abbrev pub is_in : ℕ → List ℕ → Bool
is_in p [] = false
is_in p (q ∷ qs) = p == q || is_in p qs

module _ (nm : NetworkManager) (laws : IsSameness nm) where
  open laws use {same_refl}

  abbrev Differ : ℕ → ℕ → Type 0
  Differ p x = same_network nm x p ≡ false

  All-append :
      (p : ℕ) (xs : List ℕ) (y : ℕ) → All (Differ p) xs → Differ p y → All (Differ p) (xs ++ y ∷ [])
  All-append p [] y a d = (d, tt)
  All-append p (x ∷ xs) y a d = (a.0, All-append p xs y a.1 d)

  All-flip :
      (x : ℕ) (ys : List ℕ) (p : ℕ)
      → All (λ y. same_network nm x y ≡ false) ys
      → same_network nm x p ≡ false
      → All (λ y. same_network nm x y ≡ false) (ys ++ p ∷ [])
  All-flip x [] p a d = (d, tt)
  All-flip x (y ∷ ys) p a d = (a.0, All-flip x ys p a.1 d)

  AllDifferent-append :
      (xs : List ℕ) (p : ℕ)
      → AllDifferent nm xs
      → All (Differ p) xs
      → AllDifferent nm (xs ++ p ∷ [])
  AllDifferent-append [] p d a = (tt, tt)
  AllDifferent-append (x ∷ xs) p d a = (All-flip x xs p d.0 a.0, AllDifferent-append xs p d.1 a.1)

  All-remove :
      (x tmp : ℕ) (ys : List ℕ)
      → All (λ y. same_network nm x y ≡ false) ys
      → All (λ y. same_network nm x y ≡ false) (ptr_array_remove ys tmp)
  unfolding ptr_array_remove
  All-remove x tmp [] a = tt
  All-remove x tmp (y ∷ ys) a = ground (arith, All-remove x tmp ys a.1)

  AllDifferent-remove :
      (tmp : ℕ) (xs : List ℕ) → AllDifferent nm xs → AllDifferent nm (ptr_array_remove xs tmp)
  unfolding ptr_array_remove
  AllDifferent-remove tmp [] d = tt
  AllDifferent-remove tmp (x ∷ xs) d =
      ground (arith, All-remove x tmp xs d.0, AllDifferent-remove tmp xs d.1)

  -- What differs from `tmp` differs from an access point of the same network.
  All-same :
      (p tmp : ℕ) (ys : List ℕ)
      → same_network nm p tmp ≡ true
      → All (λ y. same_network nm tmp y ≡ false) ys
      → All (Differ p) ys
  All-same p tmp [] s a = tt
  All-same p tmp (y ∷ ys) s a = ground (
    arith,
    same_network_trans nm laws y p tmp,
    same_network_symm nm laws y tmp,
    All-same p tmp ys s a.1,
  )

  All-found :
      (p tmp : ℕ) (ssid : Bytes) (xs : List ℕ)
      → nm.get_ssid p ≡ some ssid
      → AllDifferent nm xs
      → find_same nm ssid xs ≡ some tmp
      → All (Differ p) (ptr_array_remove xs tmp)
  unfolding ptr_array_remove find_same
  All-found p tmp ssid [] e d f = tt
  All-found p tmp ssid (x ∷ xs) e d f =
      let same = find_same-some nm laws p tmp ssid (x ∷ xs) e f in
      elim (Bool-cases (x == tmp)) [
        | inl here ↦
            let x=tmp : x ≡ tmp = (==_iff x tmp).0 here in
            rw here (All-same p x xs (rw x=tmp same) d.0)
        | inr there ↦
            let later : find_same nm ssid xs ≡ some tmp = ground arith in
            let rest = All-found p tmp ssid xs e d.1 later in
            let differs : Differ p x = ground (arith, same_network_symm nm laws x p) in
            rw there (differs, rest)
      ]

  visit-AllDifferent :
      (p : ℕ) (o : Option Bytes) (xs : List ℕ)
      → nm.get_ssid p ≡ o
      → AllDifferent nm xs
      → AllDifferent nm (visit_ap nm p o xs)
  unfolding visit_ap
  visit-AllDifferent p none xs e d = d
  visit-AllDifferent p (some ssid) xs e d = elim (Option-cases (find_same nm ssid xs)) [
    | inl f ↦ rw (f, add_ap) (AllDifferent-append xs p d (find_same-none nm laws p ssid xs e f))
    | inr (tmp, f) ↦
        let better =
          AllDifferent-append (ptr_array_remove xs tmp) p (AllDifferent-remove tmp xs d)
            (All-found p tmp ssid xs e d f) in
        rw (f, add_ap) (ground (arith, better))
  ]

  -- An entry stays covered, by itself or by a stronger one.
  visit-covered :
      (a p : ℕ) (o : Option Bytes) (xs : List ℕ)
      → nm.get_ssid p ≡ o
      → covered nm a xs ≡ true
      → covered nm a (visit_ap nm p o xs) ≡ true
  unfolding visit_ap
  visit-covered a p none xs e c = c
  visit-covered a p (some ssid) xs e c = elim (Option-cases (find_same nm ssid xs)) [
    | inl f ↦ rw (f, add_ap) (ground (arith, covered-append nm laws a xs (p ∷ [])))
    | inr (tmp, f) ↦
        rw (f, add_ap)
          (ground (
            arith,
            covered-append nm laws a (ptr_array_remove xs tmp) (p ∷ []),
            covered-remove nm laws a tmp xs c,
            find_same-some nm laws p tmp ssid xs e f,
            same_network_symm nm laws p tmp,
            same_network_trans nm laws a tmp p,
          ))
  ]

  covered-found :
      (p tmp : ℕ) (ssid : Bytes) (xs : List ℕ)
      → nm.get_ssid p ≡ some ssid
      → find_same nm ssid xs ≡ some tmp
      → nm.get_strength p ≤ nm.get_strength tmp
      → covered nm p xs ≡ true
  unfolding find_same
  covered-found p tmp ssid [] e f h = cc
  covered-found p tmp ssid (x ∷ xs) e f h = ground (arith, covered-found p tmp ssid xs e)

  -- The access point that is visited is covered from then on.
  visit-covers :
      (p : ℕ) (ssid : Bytes) (xs : List ℕ)
      → nm.get_ssid p ≡ some ssid
      → covered nm p (visit_ap nm p (some ssid) xs) ≡ true
  unfolding visit_ap has_ssid
  visit-covers p ssid xs e = elim (Option-cases (find_same nm ssid xs)) [
    | inl f ↦ rw (f, add_ap) (ground (arith, covered-append nm laws p xs (p ∷ []), same_refl ssid))
    | inr (tmp, f) ↦
        rw (f, add_ap)
          (ground (
            arith,
            covered-append nm laws p (ptr_array_remove xs tmp) (p ∷ []),
            same_refl ssid,
            covered-found p tmp ssid xs e f,
          ))
  ]

  run-AllDifferent :
      (xs ps : List ℕ) → AllDifferent nm xs → AllDifferent nm (strongest_from nm xs ps)
  unfolding strongest_from
  run-AllDifferent xs [] d = d
  run-AllDifferent xs (p ∷ ps) d =
      run-AllDifferent (visit_ap nm p (nm.get_ssid p) xs) ps
        (visit-AllDifferent p (nm.get_ssid p) xs refl d)

  run-covered :
      (a : ℕ) (xs ps : List ℕ)
      → covered nm a xs ≡ true
      → covered nm a (strongest_from nm xs ps) ≡ true
  unfolding strongest_from
  run-covered a xs [] c = c
  run-covered a xs (p ∷ ps) c =
      run-covered a (visit_ap nm p (nm.get_ssid p) xs) ps
        (visit-covered a p (nm.get_ssid p) xs refl c)

  -- Every access point with a name is covered: an entry of its network is at least as strong.
  abbrev pub AllCovered : List ℕ → List ℕ → Type 0
  AllCovered ps xs = All (λ p. is_some (nm.get_ssid p) ≡ true → covered nm p xs ≡ true) ps

  run-AllCovered : (xs ps : List ℕ) → AllCovered ps (strongest_from nm xs ps)
  unfolding strongest_from
  run-AllCovered xs [] = tt
  run-AllCovered xs (p ∷ ps) = (first, run-AllCovered (visit_ap nm p (nm.get_ssid p) xs) ps)
    where
      visited :
          (o : Option Bytes)
          → nm.get_ssid p ≡ o
          → is_some o ≡ true
          → covered nm p (visit_ap nm p o xs) ≡ true
      visited none e h = cc
      visited (some ssid) e h = visit-covers p ssid xs e

      first : is_some (nm.get_ssid p) ≡ true → covered nm p (strongest_from nm xs (p ∷ ps)) ≡ true
      first h = run-covered p _ ps (visited (nm.get_ssid p) refl h)

  -- Every entry is one of the access points.
  abbrev pub AllIn : List ℕ → List ℕ → Type 0
  AllIn ps xs = All (λ x. is_in x ps ≡ true) xs

  AllIn-append : (ps xs ys : List ℕ) → AllIn ps xs → AllIn ps ys → AllIn ps (xs ++ ys)
  AllIn-append ps [] ys a b = b
  AllIn-append ps (x ∷ xs) ys a b = (a.0, AllIn-append ps xs ys a.1 b)

  AllIn-remove : (ps xs : List ℕ) (tmp : ℕ) → AllIn ps xs → AllIn ps (ptr_array_remove xs tmp)
  unfolding ptr_array_remove
  AllIn-remove ps [] tmp a = tt
  AllIn-remove ps (x ∷ xs) tmp a = ground (arith, AllIn-remove ps xs tmp a.1)

  visit-AllIn :
      (ps xs : List ℕ) (p : ℕ) (o : Option Bytes)
      → is_in p ps ≡ true
      → AllIn ps xs
      → AllIn ps (visit_ap nm p o xs)
  unfolding visit_ap
  visit-AllIn ps xs p none h a = a
  visit-AllIn ps xs p (some ssid) h a = elim (Option-cases (find_same nm ssid xs)) [
    | inl f ↦ rw (f, add_ap) (AllIn-append ps xs (p ∷ []) a (h, tt))
    | inr (tmp, f) ↦
        let stronger =
          AllIn-append ps (ptr_array_remove xs tmp) (p ∷ []) (AllIn-remove ps xs tmp a) (h, tt) in
        rw (f, add_ap) (ground (arith, stronger))
  ]

  run-AllIn :
      (all xs ps : List ℕ) → AllIn all ps → AllIn all xs → AllIn all (strongest_from nm xs ps)
  unfolding strongest_from
  run-AllIn all xs [] b a = a
  run-AllIn all xs (p ∷ ps) b a =
      run-AllIn all (visit_ap nm p (nm.get_ssid p) xs) ps b.1
        (visit-AllIn all xs p (nm.get_ssid p) b.0 a)

  AllIn-cons : (p : ℕ) (ps xs : List ℕ) → AllIn ps xs → AllIn (p ∷ ps) xs
  AllIn-cons p ps [] a = tt
  AllIn-cons p ps (x ∷ xs) a = (ground arith, AllIn-cons p ps xs a.1)

  AllIn-refl : (ps : List ℕ) → AllIn ps ps
  AllIn-refl [] = tt
  AllIn-refl (p ∷ ps) = (ground arith, AllIn-cons p ps ps (AllIn-refl ps))

  -- The list has one access point for each network, and it is the strongest: its entries are among the
  -- access points, no two of them are of the same network, and every access point with a name has an
  -- entry of its network that is no weaker.
  pub unique_strongest :
      (ps : List ℕ)
      → AllIn ps (get_strongest_unique_aps nm (some ps))
        × AllDifferent nm (get_strongest_unique_aps nm (some ps))
        × AllCovered ps (get_strongest_unique_aps nm (some ps))
  unfolding get_strongest_unique_aps
  unique_strongest ps =
      (run-AllIn ps [] ps (AllIn-refl ps) tt, run-AllDifferent [] ps tt, run-AllCovered [] ps)
