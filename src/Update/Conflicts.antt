-- ===== src/Update/Conflicts.antt =====
-- src/pt-update-progress.c: configuration files that a package changes and the user changed.
use text.Mathlib.TextPositions.{eq_refl}
use furios_initial_setup.Common.{String, arith, ℕ, ◌≡◌}
use furios_initial_setup.Update.State.{Progress}
use furios_initial_setup.Update.Transaction.{aptkit_resolve_config_conflict, contains}

-- A conflict is answered once in a transaction, whoever reports it again.
conflict_once :
    (p q : ℕ) (file : String) (s : Progress)
    → aptkit_resolve_config_conflict q file (aptkit_resolve_config_conflict p file s)
      ≡ aptkit_resolve_config_conflict p file s
unfolding aptkit_resolve_config_conflict contains
conflict_once p q file s = ground (arith, eq_refl file)
