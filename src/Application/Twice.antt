-- ===== src/Application/Twice.antt =====
-- src/pt-application.c: the program is started twice.
use furios_initial_setup.Application.{Application, pt_application_activate, window_or}
use furios_initial_setup.Common.{Option, refl, some, ℕ, ◌≡◌}
use furios_initial_setup.Common.Bytes.{Bytes, bytes}

-- The second activation takes the locale that the first has set for the current language, and shows the
-- same window.
started_twice :
    (normalize : Bytes → Option Bytes) (first second : ℕ) (s : Application)
    → let t =
        pt_application_activate normalize second (pt_application_activate normalize first s) in
      (t.current_language ≡ normalize (bytes "C"))
      × (t.active_window ≡ some (window_or s.active_window first))
unfolding pt_application_activate
started_twice normalize first second s = (refl, refl)
