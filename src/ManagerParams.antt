-- ===== src/ManagerParams.antt =====
-- apps/MCSBManager/ManagerParams.cc: how `ManagerParams::ParamCheck` rounds the sizes. The page size
-- is the system's; the floating-point percentage and the printing are left out.
use mcsb.Base.{
  ℕ, ◌+◌, ◌*◌, ◌/◌, ◌-◌, ◌^◌, ◌==◌, Bool, ◌||◌, ltb, leb, if◌then◌else◌, u32, u64, sub32, Proc,
  Outcome, ok, throw, divide_fault,
}
pub mod Rounding
mod Tests

pub record Sizes : Type 0 where
  pub block_size : ℕ
  pub slab_size : ℕ
  pub buffer_size : ℕ
  pub num_blocks : ℕ

-- `kDefaultBlockSize`, `kDefaultSlabSize` and `kDefaultBufferSize`.
abbrev pub default_block_size : ℕ
default_block_size = 8192

abbrev pub default_slab_size : ℕ
default_slab_size = 8388608

abbrev pub default_buffer_size : ℕ
default_buffer_size = 268435456

-- A size that is zero or past the largest signed number gets the default.
pub or_default : ℕ → ℕ → ℕ → ℕ
or_default limit default size = if ltb limit size || size == 0 then default else size

-- An `int` below one, by its 32-bit pattern.
abbrev pub below_one : ℕ → Bool
below_one k = k == 0 || leb (2 ^ 31) k

-- An `int` made `unsigned long`, by its patterns.
abbrev pub widen : ℕ → ℕ
widen k = if leb (2 ^ 31) k then k + (2 ^ 64 - 2 ^ 32) else k

-- How many units a 32-bit size has, and the size rounded up to them.
pub round_up : ℕ → ℕ → ℕ × ℕ
round_up unit size =
    let k = u32 (sub32 size 1 + unit) / unit in
    let units = if below_one k then 1 else k in
    if size == u32 (k * unit) then (k, size) else (units, u32 (units * unit))

-- The same for the 64-bit size of a buffer, where the number of units is cut to an `int`.
pub round_up_buffer : ℕ → ℕ → ℕ × ℕ
round_up_buffer unit size =
    let k = u32 (u64 ((size + 2 ^ 64 - 1) + unit) / unit) in
    let units = if below_one k then 1 else k in
    if size == u64 (widen k * unit) then (k, size) else (units, u64 (units * unit))

pub param_check : ℕ → Proc Sizes (ℕ × ℕ)
unfolding or_default round_up round_up_buffer
param_check page_size p =
    let (pages, block) =
      round_up page_size (or_default (2 ^ 31 - 1) default_block_size p.block_size) in
    let (per_slab, slab) = round_up block (or_default (2 ^ 31 - 1) default_slab_size p.slab_size) in
    let (per_buffer, buffer) =
      round_up_buffer slab (or_default (2 ^ 63 - 1) default_buffer_size p.buffer_size) in
    if page_size == 0
    then throw divide_fault p
    else ok (per_slab, per_buffer)
        (record {
          block_size = block;
          slab_size = slab;
          buffer_size = buffer;
          num_blocks = u32 (per_slab * per_buffer);
        })
