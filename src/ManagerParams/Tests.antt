-- ===== src/ManagerParams/Tests.antt =====
-- The rounding of sizes that are no whole numbers of pages.
use mcsb.Base.{ℕ, ◌≡◌, arith, ok}
use mcsb.ManagerParams.{Sizes, or_default, param_check}
use mcsb.ManagerParams.Rounding.{Checked, param_check-Checked}

abbrev sizes : Sizes
sizes = record { block_size = 10000; slab_size = 100000; buffer_size = 0; num_blocks = 0 }

param_check-Checked_example :
    (counts : ℕ × ℕ) × (p' : Sizes) × (param_check 4096 sizes ≡ ok counts p')
    × Checked 4096 sizes counts p'
unfolding or_default
param_check-Checked_example =
    param_check-Checked 4096 sizes (omega arith) (omega arith) (omega arith) (omega arith)
      (omega arith) (omega arith)
