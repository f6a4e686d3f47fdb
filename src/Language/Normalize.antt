-- ===== src/Language/Normalize.antt =====
-- src/cc-util.c: `cc_util_normalize_casefold_and_unaccent`, after GLib has decomposed and folded the
-- text.
use furios_initial_setup.Common.{
  Bool, Option, false, if◌then◌else◌, leb, length, ltb, none, some, suc, true, zero, ℕ, ◌&&◌, ◌++◌,
  ◌+◌, ◌<◌, ◌==◌, ◌||◌, ◌≡◌, ◌≢◌, ◌≤◌, ◌⊎◌,
}
use furios_initial_setup.Common.Bytes.{Bytes}
use furios_initial_setup.Common.Slices.{drop, take}

-- `g_utf8_get_char_validated` with `g_utf8_next_char`: the character at the start of a text and its
-- length, or none where the text is not valid there; and the encoding of a character.
pub record Utf8 : Type 0 where
  pub get_char : Bytes → Option (ℕ × ℕ)
  pub utf8 : ℕ → Bytes

-- A Unicode character but for the end of a text: not in the range of the surrogates.
abbrev pub IsCharacter : ℕ → Type 0
IsCharacter c = (c ≢ 0) × ((c < 0xD800) ⊎ ((0xE000 ≤ c) × (c < 0x110000)))

-- What is documented: an encoded character is not empty, and it is read back with its length.
pub record IsUtf8 (u : Utf8) : Type 0 where
  pub utf8_nonempty : (c : ℕ) → IsCharacter c → 1 ≤ length (u.utf8 c)
  pub get_char-utf8 :
      (c : ℕ) (rest : Bytes)
      → IsCharacter c
      → u.get_char (u.utf8 c ++ rest) ≡ some (c, length (u.utf8 c))

abbrev pub within : ℕ → ℕ → ℕ → Bool
within lo hi c = leb lo c && leb c hi

-- `IS_CDM_UCS4`
unfoldable pub is_cdm : ℕ → Bool
is_cdm c =
    within 0x0300 0x036F c
    || within 0x1DC0 0x1DFF c
    || within 0x20D0 0x20FF c
    || within 0xFE20 0xFE2F c

-- `memmove (&tmp[j], &tmp[i], n)`
unfoldable pub memmove : Bytes → ℕ → ℕ → ℕ → Bytes
unfolding take drop
memmove tmp j i n = take j tmp ++ (take n (drop i tmp) ++ drop (j + n) tmp)

-- The buffer with both indexes, where a round of the loop goes on; no value is the end of the loop.
abbrev pub Round : Type 0
Round = Option (Bytes × (ℕ × ℕ))

-- What a round does with a character of `n` bytes.
unfoldable pub keep_char : Bool → Bytes → ℕ → ℕ → ℕ → Round
keep_char true tmp i j n = some (tmp, (i + n, j))
keep_char false tmp i j n = some (if i == j then tmp else memmove tmp j i n, (i + n, j + n))

module _ (u : Utf8) where
  at_char : Option (ℕ × ℕ) → Bytes → ℕ → ℕ → Round
  at_char none tmp i j = none
  at_char (some (c, n)) tmp i j = keep_char (is_cdm c) tmp i j n

  unfoldable pub unaccent_round : ℕ → Bytes → ℕ → ℕ → Round
  unfolding at_char
  unaccent_round ilen tmp i j =
      if ltb i ilen then at_char (u.get_char (drop i tmp)) tmp i j else none

  -- The loop, with fuel, and the end that is forced after it.
  unfoldable pub unaccent_loop : ℕ → ℕ → Bytes → ℕ → ℕ → Option Bytes
  unaccent_loop zero ilen tmp i j = none
  unaccent_loop (suc fuel) ilen tmp i j = elim (unaccent_round ilen tmp i j) [
    | none ↦ some (take j tmp)
    | some (tmp', (i', j')) ↦ unaccent_loop fuel ilen tmp' i' j'
  ]

  -- Each round goes on by a byte or more, so that there are no more rounds than bytes.
  unfoldable pub unaccent : Bytes → Option Bytes
  unaccent tmp = unaccent_loop (length tmp + 1) (length tmp) tmp 0 0

-- `cc_util_normalize_casefold_and_unaccent`, where `fold` is `g_utf8_normalize` and then
-- `g_utf8_casefold`; no value is NULL.
unfoldable pub cc_util_normalize_casefold_and_unaccent :
    Utf8 → (Bytes → Bytes) → Option Bytes → Option Bytes
cc_util_normalize_casefold_and_unaccent u fold none = none
cc_util_normalize_casefold_and_unaccent u fold (some text) = unaccent u (fold text)
