-- ===== src/Update/Provision/Form.antt =====
-- src/pt-update-progress.c: the body of the provisioning request, read back.
use mathlib.Core.List.{append-nil, append_assoc}
use furios_initial_setup.Common.{
  All, List, Option, [], ap, arith, false, if◌then◌else◌, none, refl, some, ℕ, ◌++◌, ◌==◌, ◌∙◌, ◌∷◌,
  ◌≡◌,
}
use furios_initial_setup.Common.Bytes.{Bytes, bytes}
use furios_initial_setup.Update.Provision.{Facts, Library, append_fact, post_data}

-- The pieces of a text between its `&`; the first argument is the piece read so far.
split_from : Bytes → Bytes → List Bytes
split_from acc [] = acc ∷ []
split_from acc (b ∷ bs) =
    let rest = split_from [] bs in
    let more = split_from (acc ++ b ∷ []) bs in if b == b'&' then acc ∷ rest else more

-- The value behind the first `=` of a piece.
value_of : Bytes → Bytes → Bytes × Bytes
value_of name [] = (name, [])
value_of name (b ∷ bs) =
    let more = value_of (name ++ b ∷ []) bs in if b == b'=' then (name, bs) else more

pairs : List Bytes → List (Bytes × Bytes)
pairs [] = []
pairs ([] ∷ ps) = pairs ps
pairs ((b ∷ bs) ∷ ps) = value_of [] (b ∷ bs) ∷ pairs ps

-- How a server reads `application/x-www-form-urlencoded`: names and values, still escaped.
pub parse_form : Bytes → List (Bytes × Bytes)
unfolding split_from value_of pairs
parse_form text = pairs (split_from [] text)

-- The facts that are known, by name.
known : Library → Bytes → Option Bytes → List (Bytes × Bytes)
known lib name none = []
known lib name (some output) = (name, lib.escape output) ∷ []

pub known_facts : Library → Facts → List (Bytes × Bytes)
unfolding known
known_facts lib f =
    known lib (bytes "uname") f.uname
    ++ (known lib (bytes "sdk_version") f.sdk_version
        ++ (known lib (bytes "build_date") f.build_date
            ++ (known lib (bytes "build_fingerprint") f.build_fingerprint
                ++ known lib (bytes "furios_version") f.furios_version)))

-- No byte of the text is an `&`.
abbrev pub IsClean : Bytes → Type 0
IsClean = All (λ b. (b == b'&') ≡ false)

split_from-append :
    (acc xs rest : Bytes)
    → IsClean xs
    → split_from acc (xs ++ b'&' ∷ rest) ≡ (acc ++ xs) ∷ split_from [] rest
unfolding split_from
split_from-append acc [] rest c = simp append-nil
split_from-append acc (x ∷ xs) rest c =
    rw c.0 (split_from-append (acc ++ x ∷ []) xs rest c.1 ∙ simp append_assoc)

split_from-clean : (acc xs : Bytes) → IsClean xs → split_from acc xs ≡ (acc ++ xs) ∷ []
unfolding split_from
split_from-clean acc [] c = simp append-nil
split_from-clean acc (x ∷ xs) c =
    rw c.0 (split_from-clean (acc ++ x ∷ []) xs c.1 ∙ simp append_assoc)

value_of-append :
    (acc name v : Bytes)
    → All (λ b. (b == b'=') ≡ false) name
    → value_of acc (name ++ b'=' ∷ v) ≡ (acc ++ name, v)
unfolding value_of
value_of-append acc [] v c = simp append-nil
value_of-append acc (x ∷ name) v c =
    rw c.0 (value_of-append (acc ++ x ∷ []) name v c.1 ∙ simp append_assoc)

All-append {ℓ κ} :
    {A : Type ℓ} (P : A → Type κ) (xs ys : List A) → All P xs → All P ys → All P (xs ++ ys)
All-append P [] ys p q = q
All-append P (x ∷ xs) ys p q = (p.0, All-append P xs ys p.1 q)

append_fact-append :
    (lib : Library) (format : Bytes) (o : Option Bytes) (ending acc : Bytes)
    → append_fact lib format o ending acc ≡ acc ++ append_fact lib format o ending []
unfolding append_fact
append_fact-append lib format none ending acc = simp append-nil
append_fact-append lib format (some output) ending acc = refl

-- What `g_uri_escape_string` promises: no `&` in an escaped text.
abbrev pub EscapesAmpersand : Library → Type 0
EscapesAmpersand lib = (output : Bytes) → IsClean (lib.escape output)

module _ (lib : Library) (escapes : EscapesAmpersand lib) where
  -- One pair, and what follows it.
  parse-append_fact :
      (b : ℕ) (name : Bytes) (o : Option Bytes) (rest : Bytes)
      → IsClean (b ∷ name)
      → All (λ x. (x == b'=') ≡ false) (b ∷ name)
      → pairs (split_from [] (append_fact lib ((b ∷ name) ++ b'=' ∷ []) o (b'&' ∷ []) [] ++ rest))
        ≡ known lib (b ∷ name) o ++ pairs (split_from [] rest)
  unfolding append_fact known pairs
  parse-append_fact b name none rest c d = refl
  parse-append_fact b name (some output) rest c d =
      ap (λ text. pairs (split_from [] text)) regroup
      ∙ ap pairs (split_from-append [] (b ∷ (name ++ b'=' ∷ value)) rest clean)
      ∙ ap (λ p. p ∷ pairs (split_from [] rest)) (value_of-append [] (b ∷ name) value d)
    where
      value : Bytes
      value = lib.escape output

      regroup :
          ((b ∷ name) ++ b'=' ∷ []) ++ (value ++ b'&' ∷ []) ++ rest
          ≡ (b ∷ (name ++ b'=' ∷ value)) ++ b'&' ∷ rest
      regroup = simp append_assoc

      clean : IsClean (b ∷ (name ++ b'=' ∷ value))
      clean = (c.0, All-append _ name _ c.1 (refl, escapes output))

  -- The last pair, which no `&` follows.
  parse-append_last :
      (b : ℕ) (name : Bytes) (o : Option Bytes)
      → IsClean (b ∷ name)
      → All (λ x. (x == b'=') ≡ false) (b ∷ name)
      → parse_form (append_fact lib ((b ∷ name) ++ b'=' ∷ []) o [] []) ≡ known lib (b ∷ name) o
  unfolding append_fact known parse_form
  parse-append_last b name none c d = refl
  parse-append_last b name (some output) c d =
      ap parse_form regroup
      ∙ ap pairs (split_from-clean [] (b ∷ (name ++ b'=' ∷ value)) clean)
      ∙ ap (λ p. p ∷ []) (value_of-append [] (b ∷ name) value d)
    where
      value : Bytes
      value = lib.escape output

      regroup : ((b ∷ name) ++ b'=' ∷ []) ++ (value ++ []) ≡ b ∷ (name ++ b'=' ∷ value)
      regroup = simp (append-nil, append_assoc)

      clean : IsClean (b ∷ (name ++ b'=' ∷ value))
      clean = (c.0, All-append _ name _ c.1 (refl, escapes output))

  post_data-parts :
      (f : Facts)
      → post_data lib f
        ≡ append_fact lib (bytes "uname=") f.uname (bytes "&") []
          ++ (append_fact lib (bytes "sdk_version=") f.sdk_version (bytes "&") []
              ++ (append_fact lib (bytes "build_date=") f.build_date (bytes "&") []
                  ++ (append_fact lib
                        (bytes "build_fingerprint=")
                        f.build_fingerprint
                        (bytes "&")
                        []
                      ++ append_fact lib (bytes "furios_version=") f.furios_version [] [])))
  unfolding post_data
  post_data-parts f =
      append_fact-append lib (bytes "furios_version=") f.furios_version [] _
      ∙ ap (λ text. text ++ e)
          (append_fact-append lib (bytes "build_fingerprint=") f.build_fingerprint (bytes "&") _
            ∙ ap (λ text. text ++ d)
                (append_fact-append lib (bytes "build_date=") f.build_date (bytes "&") _
                  ∙ ap (λ text. text ++ c)
                      (append_fact-append lib (bytes "sdk_version=") f.sdk_version (bytes "&") a)))
      ∙ regroup
    where
      a : Bytes
      a = append_fact lib (bytes "uname=") f.uname (bytes "&") []

      b : Bytes
      b = append_fact lib (bytes "sdk_version=") f.sdk_version (bytes "&") []

      c : Bytes
      c = append_fact lib (bytes "build_date=") f.build_date (bytes "&") []

      d : Bytes
      d = append_fact lib (bytes "build_fingerprint=") f.build_fingerprint (bytes "&") []

      e : Bytes
      e = append_fact lib (bytes "furios_version=") f.furios_version [] []

      regroup : (((a ++ b) ++ c) ++ d) ++ e ≡ a ++ (b ++ (c ++ (d ++ e)))
      regroup = simp append_assoc

  -- A server that reads the request's body as a form finds the facts that are known, by name and in
  -- order, where an escaped text has no `&` in it.
  pub parse-post_data : (f : Facts) → parse_form (post_data lib f) ≡ known_facts lib f
  unfolding known_facts parse_form
  parse-post_data f =
      ap parse_form (post_data-parts f)
      ∙ parse-append_fact _ _ f.uname _ (ground arith) (ground arith)
      ∙ ap (◌++◌ (known lib (bytes "uname") f.uname)) (
          parse-append_fact _ _ f.sdk_version _ (ground arith) (ground arith)
          ∙ ap (◌++◌ (known lib (bytes "sdk_version") f.sdk_version)) (
              parse-append_fact _ _ f.build_date _ (ground arith) (ground arith)
              ∙ ap (◌++◌ (known lib (bytes "build_date") f.build_date)) (
                  parse-append_fact _ _ f.build_fingerprint _ (ground arith) (ground arith)
                  ∙ ap (◌++◌ (known lib (bytes "build_fingerprint") f.build_fingerprint))
                      (parse-append_last _ _ f.furios_version (ground arith) (ground arith)))))
