-- ===== src/Node/Restart/Delay.antt =====
-- restartDelay of internal/agent/handlers.go, in nanoseconds.
use easyrun.Prelude.{ℕ, ◌-◌, ◌*◌, ◌^◌, arith, leb, if◌then◌else◌}
use easyrun.Prelude.Int.{ℤ, pos, ltb_ℤ, ◌≤ℤ◌}

abbrev pub max_restart_delay : ℕ
max_restart_delay = 30000000000

-- The delay before the jitter.
unfoldable pub base_delay : ℕ → ℕ
base_delay count = if leb count 5 then 1000000000 * 2 ^ (count - 1) else max_restart_delay

-- `jitter` is leanrand.Jitter.
unfoldable pub restart_delay : (ℕ → ℤ) → ℕ → ℤ
restart_delay jitter count =
    if leb count 0
    then pos 0
    else (let delay = jitter (base_delay count) in
        if ltb_ℤ delay (pos 0)
        then pos 0
        else if ltb_ℤ (pos max_restart_delay) delay
        then pos max_restart_delay
        else delay)

-- Whatever the jitter and however large the count: the delay lies between 0 and 30 seconds.
restart_delay_bounds :
    (jitter : ℕ → ℤ) (count : ℕ)
    → (pos 0 ≤ℤ restart_delay jitter count) × (restart_delay jitter count ≤ℤ pos max_restart_delay)
unfolding restart_delay
restart_delay_bounds jitter count = ground arith
