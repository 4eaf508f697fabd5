-- ===== src/ManagerParams/Rounding.antt =====
-- `ManagerParams::ParamCheck`: the rounding of a size to a whole number of units.
use native.Mathlib.Nat.{
  mul-le-mul_right, div-mul-le_self, lt-div-mul-add, mul-le-mul_left, le-div_iff_mul-le,
  div-lt_iff_lt-mul,
}
use mcsb.Base.{
  ℕ, ◌+◌, ◌*◌, ◌/◌, ◌-◌, ◌^◌, ◌==◌, ◌≤◌, ◌<◌, ◌≡◌, refl, inl, inr, false, arith, leb, u32, u64,
  sub32, Bool-cases, ok,
}
use mcsb.ManagerParams.{
  Sizes, default_block_size, default_slab_size, default_buffer_size, or_default, below_one,
  round_up, round_up_buffer, param_check,
}

-- `size` in units: `k` of them make up `rounded`, which is less than a unit larger.
pub record Rounded (unit size k rounded : ℕ) : Type 0 where
  pub whole : rounded ≡ k * unit
  pub enough : size ≤ rounded
  pub near : rounded < size + unit
  pub some : 1 ≤ k

abbrev pub RoundedTo : ℕ → ℕ → ℕ × ℕ → Type 0
RoundedTo unit size (k, rounded) = Rounded unit size k rounded

-- A size and a unit that do not pass 2 ^ 32 together, rounded as `ParamCheck` does it: up to a whole
-- number of units, at least one, and by less than a unit.
pub round_up-Rounded :
    (unit size : ℕ)
    → 0 < unit
    → 0 < size
    → size + unit ≤ 2 ^ 32
    → size < 2 ^ 31
    → RoundedTo unit size (round_up unit size)
unfolding round_up
round_up-Rounded unit size pos some_size small inside =
    let exact : u32 (sub32 size 1 + unit) ≡ size - 1 + unit = omega arith in
    let k = (size - 1 + unit) / unit in
    let below : k * unit ≤ size - 1 + unit = div-mul-le_self (size - 1 + unit) unit in
    let above : size - 1 + unit < k * unit + unit = lt-div-mul-add pos in
    let positive : 1 ≤ k = (le-div_iff_mul-le pos).1 (omega arith) in
    let spread : size * 1 ≤ size * unit = mul-le-mul_left size pos in
    let few : k < size + 1 = (div-lt_iff_lt-mul pos).1 (omega arith) in
    let fits : k < 2 ^ 31 = omega arith in
    elim (Bool-cases (size == u32 (k * unit))) [
      | inl same ↦
          rw (exact, same)
            (record {
              whole = ground arith;
              enough = omega arith;
              near = omega arith;
              some = positive;
            })
      | inr other ↦
          let there : below_one k ≡ false = ground arith in
          rw (exact, other, there)
            (record {
              whole = omega arith;
              enough = omega arith;
              near = omega arith;
              some = positive;
            })
    ]

-- A buffer's size below 2 ^ 63 with fewer than 2 ^ 31 slabs, rounded as `ParamCheck` does it: up to a
-- whole number of slabs, at least one, and by less than a slab.
pub round_up_buffer-Rounded :
    (unit size : ℕ)
    → 0 < unit
    → 0 < size
    → unit < 2 ^ 32
    → size < 2 ^ 63
    → (size - 1 + unit) / unit < 2 ^ 31
    → RoundedTo unit size (round_up_buffer unit size)
unfolding round_up_buffer
round_up_buffer-Rounded unit size pos some_size small inside few =
    let exact : u64 ((size + 2 ^ 64 - 1) + unit) ≡ size - 1 + unit = omega arith in
    let k = (size - 1 + unit) / unit in
    let below : k * unit ≤ size - 1 + unit = div-mul-le_self (size - 1 + unit) unit in
    let above : size - 1 + unit < k * unit + unit = lt-div-mul-add pos in
    let positive : 1 ≤ k = (le-div_iff_mul-le pos).1 (omega arith) in
    let cut : u32 k ≡ k = omega arith in
    let wide : leb (2 ^ 31) k ≡ false = ground arith in
    elim (Bool-cases (size == u64 (k * unit))) [
      | inl same ↦
          rw (exact, cut, wide, same)
            (record {
              whole = ground arith;
              enough = omega arith;
              near = omega arith;
              some = positive;
            })
      | inr other ↦
          let there : (k == 0) ≡ false = ground arith in
          rw (exact, cut, wide, other, there)
            (record {
              whole = omega arith;
              enough = omega arith;
              near = omega arith;
              some = positive;
            })
    ]

or_default-pos : (limit default size : ℕ) → 0 < default → 0 < or_default limit default size
unfolding or_default
or_default-pos limit default size pos = ground arith

-- The sizes that are checked, with the defaults put in.
abbrev pub given_block : Sizes → ℕ
given_block p = or_default (2 ^ 31 - 1) default_block_size p.block_size

abbrev pub given_slab : Sizes → ℕ
given_slab p = or_default (2 ^ 31 - 1) default_slab_size p.slab_size

abbrev pub given_buffer : Sizes → ℕ
given_buffer p = or_default (2 ^ 63 - 1) default_buffer_size p.buffer_size

-- `p` are the sizes after the check, with so many blocks in a slab and slabs in a buffer.
pub record Checked (page_size : ℕ) (p : Sizes) (counts : ℕ × ℕ) (p' : Sizes) : Type 0 where
  pub pages : ℕ
  pub block : Rounded page_size (given_block p) pages p'.block_size
  pub slab : Rounded p'.block_size (given_slab p) counts.0 p'.slab_size
  pub buffer : Rounded p'.slab_size (given_buffer p) counts.1 p'.buffer_size
  pub blocks : p'.num_blocks ≡ u32 (counts.0 * counts.1)

-- `ParamCheck` with sizes of pages, blocks and slabs up to 2 ^ 30, defaults put in, and a buffer of
-- fewer than 2 ^ 31 - 1 pages returns: a block is a whole number of pages, a slab of blocks and a
-- buffer of slabs, each rounded up by less than its unit, and the number of blocks is the product
-- of the counts.
pub param_check-Checked :
    (page_size : ℕ) (p : Sizes)
    → 0 < page_size
    → page_size ≤ 2 ^ 30
    → given_block p ≤ 2 ^ 30
    → given_slab p ≤ 2 ^ 30
    → given_buffer p < 2 ^ 63
    → given_buffer p < (2 ^ 31 - 1) * page_size
    → (counts : ℕ × ℕ) × (p' : Sizes) × (param_check page_size p ≡ ok counts p')
      × Checked page_size p counts p'
unfolding param_check
param_check-Checked page_size p pos page_small block_small slab_small buffer_small few =
    let block = round_up page_size (given_block p) in
    let b : Rounded page_size (given_block p) block.0 block.1 =
      round_up-Rounded page_size (given_block p) pos (or_default-pos _ _ p.block_size (omega arith))
        (omega arith) (omega arith) in
    let slab = round_up block.1 (given_slab p) in
    let s : Rounded block.1 (given_slab p) slab.0 slab.1 =
      round_up-Rounded block.1 (given_slab p)
        (omega (
          arith,
          b.enough,
          or_default-pos (2 ^ 31 - 1) default_block_size p.block_size (omega arith),
        ))
        (or_default-pos _ _ p.slab_size (omega arith)) (omega (arith, b.near)) (omega arith) in
    let buffer = round_up_buffer slab.1 (given_buffer p) in
    let page_le : 1 * page_size ≤ block.0 * page_size = mul-le-mul_right page_size b.some in
    let block_le : 1 * block.1 ≤ slab.0 * block.1 = mul-le-mul_right block.1 s.some in
    let large : page_size ≤ slab.1 = omega (arith, b.whole, s.whole) in
    let r : Rounded slab.1 (given_buffer p) buffer.0 buffer.1 =
      round_up_buffer-Rounded slab.1 (given_buffer p) (omega arith)
        (or_default-pos _ _ p.buffer_size (omega arith)) (omega (arith, b.near, s.near))
        buffer_small ((div-lt_iff_lt-mul (omega arith)).1 (omega arith)) in
    let paged : (page_size == 0) ≡ false = ground arith in
    (
      (slab.0, buffer.0),
      record {
        block_size = block.1;
        slab_size = slab.1;
        buffer_size = buffer.1;
        num_blocks = u32 (slab.0 * buffer.0);
      },
      rw paged refl,
      record { pages = block.0; block = b; slab = s; buffer = r; blocks = refl },
    )
