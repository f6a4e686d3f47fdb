-- ===== src/Language/Utf8.antt =====
-- src/cc-util.c: the laws of UTF-8 that are relied on can hold. GLib's functions are a parameter; this is
-- UTF-8 by its definition, which meets them.
use furios_initial_setup.Common.{
  Bool, Option, [], arith, if◌then◌else◌, leb, length, ltb, none, some, ℕ, ◌%◌, ◌&&◌, ◌*◌, ◌++◌,
  ◌+◌, ◌-◌, ◌/◌, ◌==◌, ◌∷◌, ◌≡◌, ◌≤◌, not,
}
use furios_initial_setup.Common.Bytes.{Bytes}
use furios_initial_setup.Language.Normalize.{IsCharacter, IsUtf8, Utf8}

-- A byte after the first one, with the lowest 6 bits of a number.
abbrev tail_byte : ℕ → ℕ
tail_byte c = 0x80 + c % 64

abbrev encode_char : ℕ → Bytes
encode_char c =
    if ltb c 0x80
    then c ∷ []
    else if ltb c 0x800
    then (0xC0 + c / 64) ∷ tail_byte c ∷ []
    else if ltb c 0x10000
    then (0xE0 + c / 4096) ∷ tail_byte (c / 64) ∷ tail_byte c ∷ []
    else (0xF0 + c / 262144) ∷ tail_byte (c / 4096) ∷ tail_byte (c / 64) ∷ tail_byte c ∷ []

abbrev is_tail : ℕ → Bool
is_tail b = leb 0x80 b && ltb b 0xC0

-- No character has a longer encoding than it needs.
decode_2 : ℕ → Bytes → Option (ℕ × ℕ)
decode_2 a (b ∷ _) =
    let c = a * 64 + (b - 0x80) in if is_tail b && leb 0x80 c then some (c, 2) else none
decode_2 a _ = none

decode_3 : ℕ → Bytes → Option (ℕ × ℕ)
decode_3 a (b ∷ b' ∷ _) =
    let c = (a * 64 + (b - 0x80)) * 64 + (b' - 0x80) in
    if is_tail b && is_tail b' && leb 0x800 c && not (leb 0xD800 c && ltb c 0xE000)
    then some (c, 3)
    else none
decode_3 a _ = none

decode_4 : ℕ → Bytes → Option (ℕ × ℕ)
decode_4 a (b ∷ b' ∷ b'' ∷ _) =
    let c = ((a * 64 + (b - 0x80)) * 64 + (b' - 0x80)) * 64 + (b'' - 0x80) in
    if is_tail b && is_tail b' && is_tail b'' && leb 0x10000 c && ltb c 0x110000
    then some (c, 4)
    else none
decode_4 a _ = none

decode_char : Bytes → Option (ℕ × ℕ)
decode_char [] = none
decode_char (b ∷ rest) =
    if b == 0
    then none
    else if ltb b 0x80
    then some (b, 1)
    else if ltb b 0xC0
    then none
    else if ltb b 0xE0
    then decode_2 (b - 0xC0) rest
    else if ltb b 0xF0
    then decode_3 (b - 0xE0) rest
    else if ltb b 0xF8
    then decode_4 (b - 0xF0) rest
    else none

unfoldable pub utf_8 : Utf8
unfolding decode_char decode_2 decode_3 decode_4
utf_8 = record { get_char = decode_char; utf8 = encode_char }

encode_char-nonempty : (c : ℕ) → 1 ≤ length (encode_char c)
encode_char-nonempty c = ground arith

read_back :
    (c : ℕ) (rest : Bytes)
    → IsCharacter c
    → decode_char (encode_char c ++ rest) ≡ some (c, length (encode_char c))
unfolding decode_char decode_2 decode_3 decode_4
read_back c rest k = ground arith

pub utf_8-IsUtf8 : IsUtf8 utf_8
unfolding utf_8
utf_8-IsUtf8 = record {
  utf8_nonempty = λ c k. encode_char-nonempty c;
  get_char-utf8 = λ c rest k. read_back c rest k;
}
