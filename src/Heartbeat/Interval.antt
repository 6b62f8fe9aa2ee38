-- ===== src/Heartbeat/Interval.antt =====
-- The interval of the ticker of pkg/heartbeat/service.go.
use picoclaw.Prelude.{Bool, arith}
use picoclaw.Prelude.Int.{ℤ, pos, negsuc, wrap64, ◌*ℤ◌, ◌≤ℤ◌}
use picoclaw.State.{Disk, Io}
use picoclaw.Heartbeat.{new_heartbeat_service, at_least_minimum}

-- The interval is at least five minutes, in nanoseconds, when at most 153,722,867 minutes are configured:
-- then the product does not leave 64 bits.
interval_bounds :
    (io : Io) (d : Disk) (minutes : ℤ) (enabled : Bool)
    → minutes ≤ℤ pos 153722867
    → pos 300000000000 ≤ℤ (new_heartbeat_service io d minutes enabled).interval
unfolding new_heartbeat_service at_least_minimum wrap64 ◌*ℤ◌
interval_bounds io d (pos n) enabled h = ground arith
interval_bounds io d (negsuc n) enabled h = ground arith
