-- ===== src/SocketLimit/Examples.antt =====
-- A short run of limiter.go: two sockets of one address, one of another, and a limit reached.
use cordis.Common.{count_if, ◌≤◌, ◌≡◌, List, [], ◌∷◌}
use cordis.SocketLimit.{new_manager, scope_count}
use cordis.SocketLimit.Counts.{is_held, is_pending, pends_for}
use cordis.SocketLimit.Limits.{Call, acquires, readies, releases, run, leases_within_limits}

abbrev calls : List Call
calls =
    acquires "10.0.0.1"
    ∷ acquires "10.0.0.1"
    ∷ acquires "10.0.0.2"
    ∷ readies 0
    ∷ acquires "10.0.0.1"
    ∷ releases 1
    ∷ releases 1
    ∷ []

leases_within_limits_example :
    (count_if is_held (run 3 2 1 new_manager calls).leases ≤ 3)
    × (count_if is_pending (run 3 2 1 new_manager calls).leases ≤ 2)
    × (count_if (pends_for "10.0.0.1") (run 3 2 1 new_manager calls).leases ≤ 1)
    × ((run 3 2 1 new_manager calls).connections
        ≡ count_if is_held (run 3 2 1 new_manager calls).leases)
    × ((run 3 2 1 new_manager calls).pending
        ≡ count_if is_pending (run 3 2 1 new_manager calls).leases)
    × (scope_count (run 3 2 1 new_manager calls) "10.0.0.1"
        ≡ count_if (pends_for "10.0.0.1") (run 3 2 1 new_manager calls).leases)
leases_within_limits_example = leases_within_limits 3 2 1 calls "10.0.0.1"
