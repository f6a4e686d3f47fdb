-- ===== src/Common/Bytes.antt =====
-- C strings as lists of bytes: what the sources use of `strlen`, `strcmp` and `strstr`.
use Prim.Native.Nat.{ℕ, zero, suc}
use Prim.Native.Char.{code}
use Prim.Native.String.{String}
use mathlib.Core.Path.{◌≡◌, refl, ap}
use mathlib.Core.Logic.{inl, inr}
use mathlib.Core.Bool.{Bool, true, false, ◌&&◌, ◌||◌}
use mathlib.Core.List.{List, [], ◌∷◌, ◌++◌}
use native.Mathlib.Omega.{arith}
use furios_initial_setup.Common.{Bool-cases, if◌then◌else◌, ◌==◌}

abbrev pub Bytes : Type 0
Bytes = List ℕ

-- The bytes of a literal, which is ASCII wherever this is used.
abbrev pub bytes : String → Bytes
bytes String.[] = []
bytes (String.◌∷◌ c s) = code c ∷ bytes s

-- What a C function sees of a buffer: the bytes up to the first NUL.
unfoldable pub c_string : Bytes → Bytes
c_string [] = []
c_string (b ∷ bs) = if b == 0 then [] else b ∷ c_string bs

unfoldable pub is_prefix : Bytes → Bytes → Bool
is_prefix [] ys = true
is_prefix (x ∷ xs) [] = false
is_prefix (x ∷ xs) (y ∷ ys) = x == y && is_prefix xs ys

unfoldable pub occurs : Bytes → Bytes → Bool
unfolding is_prefix
occurs word [] = is_prefix word []
occurs word (b ∷ bs) = is_prefix word (b ∷ bs) || occurs word bs

-- `strstr (text, word) != NULL`
unfoldable pub strstr : Bytes → String → Bool
unfolding occurs c_string
strstr text word = occurs (bytes word) (c_string text)

-- `strcmp (xs, ys) == 0` on strings that end at their first NUL
unfoldable pub bytes_eq : Bytes → Bytes → Bool
bytes_eq [] [] = true
bytes_eq [] (y ∷ ys) = false
bytes_eq (x ∷ xs) [] = false
bytes_eq (x ∷ xs) (y ∷ ys) = x == y && bytes_eq xs ys

pub bytes_eq_sound : (xs ys : Bytes) → bytes_eq xs ys ≡ true → xs ≡ ys
unfolding bytes_eq
bytes_eq_sound [] [] h = refl
bytes_eq_sound [] (y ∷ ys) h = cc
bytes_eq_sound (x ∷ xs) [] h = cc
bytes_eq_sound (x ∷ xs) (y ∷ ys) h = ground (arith, bytes_eq_sound xs ys)

pub bytes_eq_refl : (xs : Bytes) → bytes_eq xs xs ≡ true
unfolding bytes_eq
bytes_eq_refl [] = refl
bytes_eq_refl (x ∷ xs) = ground (arith, bytes_eq_refl xs)

is_prefix-append : (w xs ys : Bytes) → is_prefix w xs ≡ true → is_prefix w (xs ++ ys) ≡ true
unfolding is_prefix
is_prefix-append [] xs ys h = refl
is_prefix-append (a ∷ w) [] ys h = cc
is_prefix-append (a ∷ w) (x ∷ xs) ys h = ground (arith, is_prefix-append w xs ys)

occurs-append : (w xs ys : Bytes) → occurs w xs ≡ true → occurs w (xs ++ ys) ≡ true
unfolding occurs
occurs-append [] [] [] h = refl
occurs-append [] [] (y ∷ ys) h = refl
occurs-append (a ∷ w) [] ys h = cc
occurs-append w (x ∷ xs) ys h =
    ground (arith, is_prefix-append w (x ∷ xs) ys, occurs-append w xs ys)

c_string-append : (xs ys : Bytes) → (zs : Bytes) × (c_string (xs ++ ys) ≡ c_string xs ++ zs)
unfolding c_string
c_string-append [] ys = (c_string ys, refl)
c_string-append (x ∷ xs) ys = elim (Bool-cases (x == 0)) [
  | inl e ↦ ([], rw (e, c_string))
  | inr e ↦ let (zs, p) = c_string-append xs ys in (zs, rw (e, c_string) (ap (◌∷◌ x) p))
]

-- A word that was found is still found when more text follows.
pub strstr-append :
    (xs ys : Bytes) (word : String) → strstr xs word ≡ true → strstr (xs ++ ys) word ≡ true
unfolding strstr
strstr-append xs ys word h =
    let (zs, p) = c_string-append xs ys in rw p (occurs-append (bytes word) (c_string xs) zs h)

-- `n` times the first byte of a text.
abbrev pub repeat : ℕ → Bytes → Bytes
repeat n [] = []
repeat zero (b ∷ bs) = []
repeat (suc n) (b ∷ bs) = b ∷ repeat n (b ∷ bs)
