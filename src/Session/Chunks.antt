-- ===== src/Session/Chunks.antt =====
-- The arithmetic of chunks.
use cloud_drive.Prelude.{ℕ, ◌+◌, ◌-◌, ◌*◌, ◌≤◌, ◌<◌, arith}
use native.Mathlib.Nat.{div-mul-le_self, lt-div-mul-add}
use cloud_drive.Session.{chunk_count}

-- Where a chunk has room for a byte, the chunks of a file cover it with less than one chunk to spare.
pub chunk_count-bounds :
    (total_size chunk_size : ℕ)
    → 0 < chunk_size
    → (total_size ≤ chunk_count total_size chunk_size * chunk_size)
      × (chunk_count total_size chunk_size * chunk_size < total_size + chunk_size)
unfolding chunk_count
chunk_count-bounds total_size chunk_size pos = (
  omega (
    arith,
    div-mul-le_self (total_size + (chunk_size - 1)) chunk_size,
    lt-div-mul-add {a = total_size + (chunk_size - 1)} {b = chunk_size} pos,
  ),
  omega (arith, div-mul-le_self (total_size + (chunk_size - 1)) chunk_size),
)
