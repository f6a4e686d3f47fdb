-- ===== src/Setup/Changes.antt =====
-- src/pt-window.c, src/pt-security-settings.c, src/run-passwd.c: what is known of all changes at once,
-- and the commits of the pages.
use furios_initial_setup.Common.{
  All, All-append, All-weaken, Bool-cases, List, Option-cases, [], arith, false, get_elem?, inl,
  inr, refl, some, suc, true, zero, ℕ, ◌++◌, ◌==◌, ◌∷◌, ◌≡◌,
}
use furios_initial_setup.Common.Bytes.{Bytes}
use furios_initial_setup.Passwd.Process.{Spawn}
use furios_initial_setup.Passwd.State.{Effect, applied, wrote}
use furios_initial_setup.Security.Apply.{Handler, default_password, pt_security_settings_apply}
use furios_initial_setup.Security.Protocol.{line}
use furios_initial_setup.Setup.Ends.{apply-Outcome}
use furios_initial_setup.Setup.Sent.{Paid, Sound, Sound-append, Within-append}
use furios_initial_setup.Setup.State.{Change, Setup}
use furios_initial_setup.Setup.Step.{
  commit_language_page, commit_page, commit_pages, commit_security_page, new_change, update_nth,
  watched,
}
use furios_initial_setup.Window.Commits.{Commit, commit_language, commit_security, no_commit}

pub Paid-append :
    (P : Bytes → Type 0) (newer log : List Effect) → Paid P log → Paid P (newer ++ log)
Paid-append P newer log (p, k, sent) = (
  p,
  k,
  Within-append newer
      (applied true ∷ wrote (line p) ∷ wrote (line p) ∷ wrote (line default_password) ∷ []) log
      sent,
)

-- What is known of the handlers of all changes.
abbrev pub AllSound : (Bytes → Type 0) → List Effect → List Change → Type 0
AllSound P log changes = All (λ change. Sound P log change.handler) changes

pub AllSound-append :
    (P : Bytes → Type 0) (newer log : List Effect) (changes : List Change)
    → AllSound P log changes
    → AllSound P (newer ++ log) changes
AllSound-append P newer log changes h =
    All-weaken (λ change. Sound P log change.handler)
      (λ change. Sound P (newer ++ log) change.handler)
      (λ change. Sound-append P newer log change.handler) changes h

pub AllSound-update_nth :
    (P : Bytes → Type 0) (log : List Effect) (n : ℕ) (d : Change) (cs : List Change)
    → Sound P log d.handler
    → AllSound P log cs
    → AllSound P log (update_nth n d cs)
unfolding update_nth
AllSound-update_nth P log n d [] k h = tt
AllSound-update_nth P log zero d (c ∷ cs) k (h, hs) = (k, hs)
AllSound-update_nth P log (suc n) d (c ∷ cs) k (h, hs) = (h, AllSound-update_nth P log n d cs k hs)

-- A change that is watched is one of the changes, and its watch was not removed.
pub watched_lem :
    (watch : Handler → ℕ) (n : ℕ) (cs : List Change) (d : Change)
    → watched watch n cs ≡ some d
    → (get_elem? cs n ≡ some d) × ((watch d.handler == 0) ≡ false)
unfolding watched
watched_lem watch n cs d e = elim (Option-cases (get_elem? cs n)) [
  | inl g ↦ ground (arith, e, g)
  | inr (c, g) ↦ elim (Bool-cases (watch c.handler == 0)) [
    | inl t ↦ ground (arith, e, g, t)
    | inr t ↦ ground (arith, e, g, t)
  ]
]

-- A commit of the password adds a handler that is known.
new_change-AllSound :
    (P : Bytes → Type 0) (spawn : Spawn) (page : ℕ) (s : Setup)
    → let h = pt_security_settings_apply s.entries spawn s.buffer in
      AllSound P (h.log ++ s.effects) (new_change s.entries.ready page h)
new_change-AllSound P spawn page s = elim (Bool-cases s.entries.ready) [
  | inl e ↦
      rw e
        ((apply-Outcome P s.effects (record s.entries { ready = true }) spawn s.buffer refl).0, tt)
  | inr e ↦ rw e tt
]

module _ (P : Bytes → Type 0) (commits : ℕ → Commit) where
  commit_page-AllSound :
      (c : Commit) (spawn : Spawn) (page : ℕ) (s : Setup)
      → AllSound P s.effects s.changes
      → AllSound P
          (commit_page commits c spawn page s).effects
          (commit_page commits c spawn page s).changes
  unfolding commit_page commit_language_page commit_security_page
  commit_page-AllSound no_commit spawn page s h = h
  commit_page-AllSound commit_language spawn page s h = h
  commit_page-AllSound commit_security spawn page s h =
      let log = (pt_security_settings_apply s.entries spawn s.buffer).log in
      All-append (λ c. Sound P (log ++ s.effects) c.handler) s.changes _
        (AllSound-append P log s.effects s.changes h) (new_change-AllSound P spawn page s)

  commit_page-Paid :
      (c : Commit) (spawn : Spawn) (page : ℕ) (s : Setup)
      → Paid P s.effects
      → Paid P (commit_page commits c spawn page s).effects
  unfolding commit_page commit_language_page commit_security_page
  commit_page-Paid no_commit spawn page s h = h
  commit_page-Paid commit_language spawn page s h = h
  commit_page-Paid commit_security spawn page s h = Paid-append P _ s.effects h

  pub commit_pages-AllSound :
      (spawn : Spawn) (pages : List ℕ) (s : Setup)
      → AllSound P s.effects s.changes
      → AllSound P
          (commit_pages commits spawn pages s).effects
          (commit_pages commits spawn pages s).changes
  unfolding commit_pages
  commit_pages-AllSound spawn [] s h = h
  commit_pages-AllSound spawn (page ∷ pages) s h =
      commit_pages-AllSound spawn pages (commit_page commits (commits page) spawn page s)
        (commit_page-AllSound (commits page) spawn page s h)

  pub commit_pages-Paid :
      (spawn : Spawn) (pages : List ℕ) (s : Setup)
      → Paid P s.effects
      → Paid P (commit_pages commits spawn pages s).effects
  unfolding commit_pages
  commit_pages-Paid spawn [] s h = h
  commit_pages-Paid spawn (page ∷ pages) s h =
      commit_pages-Paid spawn pages (commit_page commits (commits page) spawn page s)
        (commit_page-Paid (commits page) spawn page s h)
