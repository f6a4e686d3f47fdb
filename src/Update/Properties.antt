-- ===== src/Update/Properties.antt =====
-- src/pt-update-progress.c: the property ready, as others set and read it.
use furios_initial_setup.Common.{Bool}
use furios_initial_setup.Update.State.{Progress}

unfoldable pub pt_update_progress_set_property : Bool → Progress → Progress
pt_update_progress_set_property value s = record s { ready = value }

unfoldable pub pt_update_progress_get_property : Progress → Bool
pt_update_progress_get_property s = s.ready
