-- ===== src/Network/Timer.antt =====
-- src/cc-network-list.c: the timer of the refresh.
use furios_initial_setup.Common.{Bool, count, false, if◌then◌else◌, true, ◌+◌, ◌==◌, ◌≡◌}
use furios_initial_setup.Common.Bytes.{Bytes}
use furios_initial_setup.Network.Rows.{Call, NetworkList, source_added, source_removed}

abbrev pub is_added : Call → Bool
is_added (source_added id) = true
is_added _ = false

abbrev pub is_removed : Call → Bool
is_removed (source_removed id) = true
is_removed _ = false

-- Every timer that was started was removed, but for the one whose handle is kept.
abbrev pub OneTimer : NetworkList → Type 0
OneTimer s =
    count is_added s.log ≡ count is_removed s.log + (if s.refresh_timeout_id == 0 then 0 else 1)
