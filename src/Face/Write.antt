-- ===== src/Face/Write.antt =====
-- src/pt-security-settings-face.c: `write_all`.
use furios_initial_setup.Common.{
  Bool, Bool-cases, List, Option, [], arith, count, false, if◌then◌else◌, inl, inr, ltb, none, some,
  true, ℕ, ◌+◌, ◌<◌, ◌==◌, ◌∷◌, ◌≡◌, ◌≤◌,
}

-- What one `write` comes to: a number of bytes, an interruption by a signal, or another error.
pub data WriteResult : Type 0 where
  wrote : ℕ → WriteResult
  interrupted : WriteResult
  write_failed : WriteResult

-- `write_all` from the offset `off` on, for the results of the calls to come. The result is what it
-- returns and how far it came; `none` means that there are more calls to come.
unfoldable pub write_from : List WriteResult → ℕ → ℕ → Option (Bool × ℕ)
write_from [] off len = if ltb off len then none else some (true, off)
write_from (w ∷ ws) off len =
    let rest = write_from ws in
    if ltb off len
    then elim w [
      | wrote n ↦ if n == 0 then some (false, off) else rest (off + n) len
      | interrupted ↦ rest off len
      | write_failed ↦ some (false, off)
    ]
    else some (true, off)

-- `write_all`
unfoldable pub write_all : List WriteResult → ℕ → Option (Bool × ℕ)
unfolding write_from
write_all results len = write_from results 0 len

-- What `write` documents: no call writes more than it was given.
abbrev pub Within : List WriteResult → ℕ → ℕ → Type 0
Within [] off len = off ≤ len
Within (wrote n ∷ ws) off len = (off ≤ len) × (off < len → Within ws (off + n) len)
Within (interrupted ∷ ws) off len = Within ws off len
Within (write_failed ∷ ws) off len = off ≤ len

abbrev pub is_answer : WriteResult → Bool
is_answer interrupted = false
is_answer _ = true

-- The whole buffer was written, or not the whole and the failure is told.
abbrev pub Complete : ℕ → Bool × ℕ → Type 0
Complete len (true, off) = off ≡ len
Complete len (false, off) = off < len

Within-le : (ws : List WriteResult) (off len : ℕ) → Within ws off len → off ≤ len
Within-le [] off len h = h
Within-le (wrote n ∷ ws) off len h = h.0
Within-le (interrupted ∷ ws) off len h = Within-le ws off len h
Within-le (write_failed ∷ ws) off len h = h

write_from_lem :
    (ws : List WriteResult) (off len : ℕ)
    → Within ws off len
    → len ≤ off + count is_answer ws
    → (r : Bool × ℕ) × (write_from ws off len ≡ some r) × Complete len r
unfolding write_from
write_from_lem [] off len h k = ((true, off), ground arith, omega arith)
write_from_lem (interrupted ∷ ws) off len h k = elim (Bool-cases (ltb off len)) [
  | inl e ↦ rw e (write_from_lem ws off len h k)
  | inr e ↦ ((true, off), rw e, ground (arith, e, Within-le ws off len h))
]
write_from_lem (write_failed ∷ ws) off len h k = elim (Bool-cases (ltb off len)) [
  | inl e ↦ ((false, off), rw e, ground (arith, e))
  | inr e ↦ ((true, off), rw e, ground (arith, e))
]
write_from_lem (wrote n ∷ ws) off len h k = elim (Bool-cases (ltb off len)) [
  | inl e ↦ elim (Bool-cases (n == 0)) [
    | inl z ↦ ((false, off), rw (e, z), ground (arith, e))
    | inr z ↦
        rw (e, z) (write_from_lem ws (off + n) len (h.1 (ground (arith, e))) (ground (arith, z)))
  ]
  | inr e ↦ ((true, off), rw e, ground (arith, e, h.0))
]

-- Where no call writes more than it was given, and there are as many calls that are not interrupted as
-- there are bytes, `write_all` returns: TRUE when it wrote the whole buffer, FALSE when it did not.
pub write_all-Complete :
    (ws : List WriteResult) (len : ℕ)
    → Within ws 0 len
    → len ≤ count is_answer ws
    → (r : Bool × ℕ) × (write_all ws len ≡ some r) × Complete len r
unfolding write_all
write_all-Complete ws len h k = write_from_lem ws 0 len h (omega arith)
