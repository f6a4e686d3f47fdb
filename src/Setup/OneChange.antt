-- ===== src/Setup/OneChange.antt =====
-- src/pt-window.c, src/pt-security-settings.c: the button Finish with one page that commits the
-- password.
use furios_initial_setup.Common.{List, [], ap, arith, inl, inr, refl, true, ℕ, ◌++◌, ◌∙◌, ◌∷◌, ◌≡◌}
use furios_initial_setup.Common.Bytes.{Bytes}
use furios_initial_setup.Passwd.Process.{Spawn}
use furios_initial_setup.Passwd.State.{Effect}
use furios_initial_setup.Security.Apply.{pt_security_settings_apply}
use furios_initial_setup.Security.Entry.{Entries}
use furios_initial_setup.Setup.Refines.{commit-cases}
use furios_initial_setup.Setup.State.{Change, Setup}
use furios_initial_setup.Setup.Step.{
  commit_language_page, commit_page, commit_pages, commit_security_page, new_change, unlogged,
}
use furios_initial_setup.Window.Commits.{Commit}
use furios_initial_setup.Window.Exit.{securities}

module _ (commits : ℕ → Commit) (spawn : Spawn) where
  -- What the commits do to the rest of the program.
  abbrev pub rest : Setup → Entries × (List Change × (Bytes × List Effect))
  rest s = (s.entries, (s.changes, (s.buffer, s.effects)))

  commit_pages-none :
      (pages : List ℕ) (s : Setup)
      → securities commits pages ≡ 0
      → rest (commit_pages commits spawn pages s) ≡ rest s
  unfolding commit_pages commit_page commit_language_page
  commit_pages-none [] s h = refl
  commit_pages-none (page ∷ pages) s h = elim (commit-cases (commits page)) [
    | inl e ↦ rw (e, commit_pages) (commit_pages-none pages s (ground (arith, h, e)))
    | inr (inl e) ↦
        rw (e, commit_pages)
          (commit_pages-none pages (commit_language_page s) (ground (arith, h, e)))
    | inr (inr e) ↦ ground (arith, h, e)
  ]

  -- One page that commits the password starts one change.
  pub commit_pages-one :
      (pages : List ℕ) (s : Setup)
      → s.entries.ready ≡ true
      → securities commits pages ≡ 1
      → let h = pt_security_settings_apply s.entries spawn s.buffer in
        (page : ℕ) × (rest (commit_pages commits spawn pages s) ≡ (
          s.entries,
          (
            s.changes ++ record { page = page; handler = unlogged h } ∷ [],
            (s.buffer, h.log ++ s.effects),
          ),
        ))
  unfolding commit_pages commit_page commit_language_page commit_security_page
  commit_pages-one [] s r h = ground (arith, h)
  commit_pages-one (page ∷ pages) s r h = elim (commit-cases (commits page)) [
    | inl e ↦ rw (e, commit_pages) (commit_pages-one pages s r (ground (arith, h, e)))
    | inr (inl e) ↦
        rw (e, commit_pages)
          (commit_pages-one pages (commit_language_page s) r (ground (arith, h, e)))
    | inr (inr e) ↦ (
      page,
      rw (e, commit_pages)
          (commit_pages-none pages (commit_security_page spawn page s) (ground (arith, h, e))
            ∙ ap
                (λ b. (
                  s.entries,
                  (
                    s.changes
                        ++ new_change b page (pt_security_settings_apply s.entries spawn s.buffer),
                    (
                      s.buffer,
                      (pt_security_settings_apply s.entries spawn s.buffer).log ++ s.effects,
                    ),
                  ),
                ))
                r),
    )
  ]
