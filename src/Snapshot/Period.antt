-- ===== src/Snapshot/Period.antt =====
-- The periods of the schedule.
use cloud_drive.Prelude.{ℕ, ◌+◌, ◌-◌, ◌*◌, ◌/◌, ◌%◌, ◌≤◌, ◌<◌, max, arith}
use native.Mathlib.Nat.{div-mul-le_self, lt-div-mul-add}
use cloud_drive.Model.{Time}
use cloud_drive.Snapshot.{period_start}

-- The period that is computed holds the present instant: it starts at that instant or before, and
-- less than the interval ago.
pub period_start-bounds :
    (now : Time) (interval : ℕ)
    → (period_start now interval ≤ now) × (now < period_start now interval + max 1 interval * 60)
unfolding period_start
period_start-bounds now interval =
    let step : 0 < max 1 interval = omega arith in
    let elapsed = (now - (now - now % 86400)) / 60 in
    (
      omega (arith, div-mul-le_self elapsed (max 1 interval)),
      omega (arith, lt-div-mul-add {a = elapsed} {b = max 1 interval} step),
    )
