-- ===== src/Setup/Held.antt =====
-- src/pt-security-settings.c: the passwords that the entry holds, one after the other.
use furios_initial_setup.Common.{
  All, List, Option, [], arith, inl, inr, none, refl, some, ℕ, ◌∙◌, ◌∷◌, ◌≡◌, ◌⊎◌,
}
use furios_initial_setup.Common.Bytes.{Bytes}
use furios_initial_setup.Passwd.Process.{Spawn}
use furios_initial_setup.Security.Entry.{Entries, update_password_match}
use furios_initial_setup.Setup.State.{Setup}
use furios_initial_setup.Setup.Step.{
  Happening, chosen, commit_language_page, commit_page, commit_pages, commit_security_page,
  finished, passwd_ended, passwd_printed, typed, windowed,
}
use furios_initial_setup.Window.Commits.{Commit, commit_language, commit_security, no_commit}

abbrev typed_text : Happening → Option Bytes
typed_text (typed password verify) = some password
typed_text _ = none

commit_page-entries :
    (commits : ℕ → Commit) (c : Commit) (spawn : Spawn) (page : ℕ) (s : Setup)
    → (commit_page commits c spawn page s).entries ≡ s.entries
unfolding commit_page commit_language_page commit_security_page
commit_page-entries commits no_commit spawn page s = refl
commit_page-entries commits commit_language spawn page s = refl
commit_page-entries commits commit_security spawn page s = refl

-- A password that is typed into the password entry.
abbrev pub IsTyped : Bytes → List Happening → Type 0
IsTyped p [] = ⊥
IsTyped p (x ∷ xs) = (typed_text x ≡ some p) ⊎ IsTyped p xs

-- A password that the entry holds at the start, or that is typed into it.
abbrev pub WasHeld : Setup → List Happening → Bytes → Type 0
WasHeld s xs p = (p ≡ s.entries.password) ⊎ IsTyped p xs

-- A commit leaves the entries as they are.
pub commit_pages-entries :
    (commits : ℕ → Commit) (spawn : Spawn) (pages : List ℕ) (s : Setup)
    → (commit_pages commits spawn pages s).entries ≡ s.entries
unfolding commit_pages
commit_pages-entries commits spawn [] s = refl
commit_pages-entries commits spawn (page ∷ pages) s =
    commit_pages-entries commits spawn pages (commit_page commits (commits page) spawn page s)
    ∙ commit_page-entries commits (commits page) spawn page s

-- The check of the entries changes no text.
pub update_password_match-password : (s : Entries) → (update_password_match s).password ≡ s.password
unfolding update_password_match
update_password_match-password s = ground arith

module _ (P : Bytes → Type 0) where
  -- Only passwords with `P` are typed.
  abbrev pub Types : Happening → Type 0
  Types (typed password verify) = P password
  Types _ = Unit

  pub All-Types : (xs : List Happening) → ((p : Bytes) → IsTyped p xs → P p) → All Types xs
  All-Types [] h = tt
  All-Types (typed password verify ∷ xs) h =
      (h password (inl refl), All-Types xs (λ p k. h p (inr k)))
  All-Types (chosen e ∷ xs) h = (tt, All-Types xs (λ p k. h p (inr k)))
  All-Types (finished spawn ∷ xs) h = (tt, All-Types xs (λ p k. h p (inr k)))
  All-Types (passwd_printed n spawn chunk ∷ xs) h = (tt, All-Types xs (λ p k. h p (inr k)))
  All-Types (passwd_ended n spawn exit ∷ xs) h = (tt, All-Types xs (λ p k. h p (inr k)))
  All-Types (windowed x ∷ xs) h = (tt, All-Types xs (λ p k. h p (inr k)))
