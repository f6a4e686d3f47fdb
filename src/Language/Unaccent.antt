-- ===== src/Language/Unaccent.antt =====
-- src/cc-util.c: what is left of a text without its combining marks.
use mathlib.Core.List.{append_assoc, append-nil}
use furios_initial_setup.Common.{
  All, Bool-cases, List, [], ap, arith, false, if◌then◌else◌, inl, inr, length, length-append, ltb,
  none, refl, some, suc, sym, true, zero, ℕ, ◌++◌, ◌+◌, ◌<◌, ◌==◌, ◌∙◌, ◌∷◌, ◌≡◌, ◌≤◌, ◌⊎◌,
}
use furios_initial_setup.Common.Bytes.{Bytes}
use furios_initial_setup.Common.Slices.{
  drop, drop-append, drop-append_add, drop-append_le, length-drop, take, take-append,
}
use furios_initial_setup.Language.Normalize.{
  IsCharacter, IsUtf8, Round, Utf8, is_cdm, keep_char, memmove, unaccent, unaccent_loop,
  unaccent_round,
}

-- A text by its characters.
pub encode : Utf8 → List ℕ → Bytes
encode u [] = []
encode u (c ∷ cs) = u.utf8 c ++ encode u cs

-- The characters that are no combining marks.
unfoldable pub unmarked : List ℕ → List ℕ
unmarked [] = []
unmarked (c ∷ cs) = let rest = unmarked cs in if is_cdm c then rest else c ∷ rest

-- A character of length `n` moves down over the gap `mid`: what follows it stays where it was.
memmove_lem :
    (out mid x rest : Bytes) (j i n : ℕ)
    → j ≡ length out
    → i ≡ j + length mid
    → n ≡ length x
    → memmove (out ++ (mid ++ (x ++ rest))) j i n ≡ out ++ (x ++ (drop n (mid ++ x) ++ rest))
unfolding memmove
memmove_lem out mid x rest j i n ej ei en =
    rw
      (
        take-append out (mid ++ (x ++ rest)) j ej,
        drop-append_add out (mid ++ (x ++ rest)) i (length mid) (omega arith),
        drop-append mid (x ++ rest) (length mid) refl,
        take-append x rest n en,
        drop-append_add out (mid ++ (x ++ rest)) (j + n) n (omega arith),
        (sym (append_assoc mid x rest)),
        drop-append_le (mid ++ x) rest n (omega (arith, length-append mid x)),
      )
      refl

module _ (u : Utf8) (laws : IsUtf8 u) where
  open laws use {utf8_nonempty, get_char-utf8}

  -- A round at the end of the characters is the last one.
  round-end :
      (ilen : ℕ) (tmp bad : Bytes) (i j : ℕ)
      → drop i tmp ≡ bad
      → ilen ≡ i + length bad
      → (u.get_char bad ≡ none) ⊎ (bad ≡ [])
      → unaccent_round u ilen tmp i j ≡ none
  unfolding unaccent_round
  round-end ilen tmp bad i j d l (inl e) = rw (d, e) (ground arith)
  round-end ilen tmp bad i j d l (inr e) =
      let same : ilen ≡ i = omega (arith, ap length e) in ground (arith, same)

  -- A round at a character keeps it or not.
  round-char :
      (ilen : ℕ) (tmp rest : Bytes) (c i j : ℕ)
      → IsCharacter c
      → drop i tmp ≡ u.utf8 c ++ rest
      → ilen ≡ i + length (u.utf8 c ++ rest)
      → unaccent_round u ilen tmp i j ≡ keep_char (is_cdm c) tmp i j (length (u.utf8 c))
  unfolding unaccent_round
  round-char ilen tmp rest c i j k d l =
      let inside : ltb i ilen ≡ true =
        ground (arith, utf8_nonempty c k, length-append (u.utf8 c) rest) in
      rw (inside, d, get_char-utf8 c rest k) refl

  loop-stop :
      (fuel ilen : ℕ) (tmp : Bytes) (i j : ℕ)
      → unaccent_round u ilen tmp i j ≡ none
      → unaccent_loop u (suc fuel) ilen tmp i j ≡ some (take j tmp)
  unfolding unaccent_loop take
  loop-stop fuel ilen tmp i j e = rw (e, unaccent_loop) refl

  loop-go :
      (fuel ilen : ℕ) (tmp tmp' : Bytes) (i j i' j' : ℕ)
      → unaccent_round u ilen tmp i j ≡ some (tmp', (i', j'))
      → unaccent_loop u (suc fuel) ilen tmp i j ≡ unaccent_loop u fuel ilen tmp' i' j'
  unfolding unaccent_loop
  loop-go fuel ilen tmp tmp' i j i' j' e = rw (e, unaccent_loop) refl

  -- Where the next character stands behind the output and the gap.
  at_next :
      (out mid next : Bytes) (i j : ℕ)
      → j ≡ length out
      → i ≡ j + length mid
      → drop i (out ++ (mid ++ next)) ≡ next
  at_next out mid next i j ej ei =
      drop-append_add out (mid ++ next) i (length mid) (omega arith)
      ∙ drop-append mid next (length mid) refl

  -- A character is kept: behind the output if there is no gap, and moved over it if there is one.
  kept :
      (out mid x rest : Bytes) (i j : ℕ)
      → j ≡ length out
      → i ≡ j + length mid
      → (gap : Bytes) × (length gap ≡ length mid)
        × ((if i == j
              then out ++ (mid ++ (x ++ rest))
              else memmove (out ++ (mid ++ (x ++ rest))) j i (length x))
            ≡ (out ++ x) ++ (gap ++ rest))
  kept out [] x rest i j ej ei =
      let same : (i == j) ≡ true = ground arith in
      ([], refl, rw same (sym (append_assoc out x rest)))
  kept out (m ∷ mid) x rest i j ej ei =
      let other : (i == j) ≡ false = ground arith in
      let n = length x in
      (
        drop n ((m ∷ mid) ++ x),
        omega (arith, length-drop ((m ∷ mid) ++ x) n, length-append (m ∷ mid) x),
        rw other (
            memmove_lem out (m ∷ mid) x rest j i n ej ei refl
            ∙ sym (append_assoc out x (drop n ((m ∷ mid) ++ x) ++ rest))),
      )

  -- The loop at a character: the output `out` comes first, then a gap.
  loop_lem :
      (fuel ilen : ℕ) (out mid : Bytes) (cs : List ℕ) (bad : Bytes) (i j : ℕ)
      → length cs < fuel
      → All IsCharacter cs
      → j ≡ length out
      → i ≡ j + length mid
      → ilen ≡ i + length (encode u cs ++ bad)
      → (u.get_char bad ≡ none) ⊎ (bad ≡ [])
      → unaccent_loop u fuel ilen (out ++ (mid ++ (encode u cs ++ bad))) i j
        ≡ some (out ++ encode u (unmarked cs))
  unfolding encode unmarked keep_char
  loop_lem zero ilen out mid cs bad i j f ks ej ei el b = absurd (omega arith)
  loop_lem (suc fuel) ilen out mid [] bad i j f ks ej ei el b =
      let tmp = out ++ (mid ++ bad) in
      loop-stop fuel ilen tmp i j (round-end ilen tmp bad i j (at_next out mid bad i j ej ei) el b)
      ∙ ap some (take-append out (mid ++ bad) j ej ∙ sym (append-nil out))
  loop_lem (suc fuel) ilen out mid (c ∷ cs) bad i j f (k, ks) ej ei el b =
      let x = u.utf8 c in
      let rest = encode u cs ++ bad in
      let tmp = out ++ (mid ++ (x ++ rest)) in
      let joined : (x ++ encode u cs) ++ bad ≡ x ++ rest = append_assoc x (encode u cs) bad in
      let len : ilen ≡ i + length (x ++ rest) = omega (arith, ap length joined) in
      let at = round-char ilen tmp rest c i j k (at_next out mid (x ++ rest) i j ej ei) len in
      let after : Bytes → ℕ → Round = λ t j'. some (t, (i + length x, j')) in
      let tail : ilen ≡ (i + length x) + length rest = omega (arith, length-append x rest) in
      rw joined (elim (Bool-cases (is_cdm c)) [
        | inl e ↦
            let gap = mid ++ x in
            let same : tmp ≡ out ++ (gap ++ rest) = ap (◌++◌ out) (sym (append_assoc mid x rest)) in
            let marked : keep_char (is_cdm c) tmp i j (length x) ≡ after tmp j =
              ap (λ b. keep_char b tmp i j (length x)) e in
            let wide : i + length x ≡ j + length gap = omega (arith, length-append mid x) in
            rw e (
              loop-go fuel ilen tmp tmp i j (i + length x) j (at ∙ marked)
              ∙ ap (λ t. unaccent_loop u fuel ilen t (i + length x) j) same
              ∙ loop_lem fuel ilen out gap cs bad (i + length x) j (omega arith) ks ej wide tail b)
        | inr e ↦
            let (gap, width, moved) = kept out mid x rest i j ej ei in
            let next = (out ++ x) ++ (gap ++ rest) in
            let stays : keep_char (is_cdm c) tmp i j (length x)
                ≡ after (if i == j then tmp else memmove tmp j i (length x)) (j + length x) =
              ap (λ b. keep_char b tmp i j (length x)) e in
            let step = at ∙ stays ∙ ap (λ t. after t (j + length x)) moved in
            let longer : j + length x ≡ length (out ++ x) = omega (arith, length-append out x) in
            let wide : i + length x ≡ (j + length x) + length gap = omega arith in
            rw e (
              loop-go fuel ilen tmp next i j (i + length x) (j + length x) step
              ∙ loop_lem fuel ilen (out ++ x) gap cs bad (i + length x) (j + length x) (omega arith)
                  ks longer wide tail b
              ∙ ap some (append_assoc out x (encode u (unmarked cs))))
      ])

  -- A character has a byte at least.
  length-encode : (cs : List ℕ) → All IsCharacter cs → length cs ≤ length (encode u cs)
  unfolding encode
  length-encode [] ks = omega arith
  length-encode (c ∷ cs) (k, ks) =
      omega (arith, length-encode cs ks, utf8_nonempty c k, length-append (u.utf8 c) (encode u cs))

  -- For a text of Unicode characters, none of them a surrogate or the end of the text, that may end in bytes that are not valid, the loop ends within
  -- the fuel, and it leaves exactly the characters that are no combining marks, in their order;
  -- nothing is left of the bytes at the end.
  pub unaccent_keeps :
      (cs : List ℕ) (bad : Bytes)
      → All IsCharacter cs
      → (u.get_char bad ≡ none) ⊎ (bad ≡ [])
      → unaccent u (encode u cs ++ bad) ≡ some (encode u (unmarked cs))
  unfolding unaccent
  unaccent_keeps cs bad ks b =
      let tmp = encode u cs ++ bad in
      loop_lem (length tmp + 1) (length tmp) [] [] cs bad 0 0
        (omega (arith, length-encode cs ks, length-append (encode u cs) bad)) ks refl refl
        (omega arith) b
