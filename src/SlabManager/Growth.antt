-- ===== src/SlabManager/Growth.antt =====
-- `NumBuffers(n)`: the slabs of the new buffers join the free list.
use native.Mathlib.Nat.{div-lt_iff_lt-mul, mul-zero, mul-le-mul_right}
use Prim.Native.Nat.{max}
use mathlib.Core.Path.{ap₂}
use mcsb.Base.{
  update, ℕ, zero, suc, ◌+◌, ◌-◌, ◌*◌, ◌/◌, ◌^◌, ◌≡◌, ◌↔◌, ◌∙◌, refl, sym, fun_ext, ◌<◌, [], ◌∷◌,
  ◌++◌, arith, ltb, leb, not-leb→lt, u32, count-append, ok, Bool-cases, inl, inr, subst,
}
use mcsb.SlabManager.{
  SlabManager, num_slabs, is_slab, new_info, add_slabs, add_buffers, set_num_buffers,
}
use mcsb.SlabManager.Places.{PlacedBy, Inv}

-- The slabs are the numbers below their total.
is_slab-ltb : (s n z : ℕ) → is_slab s n z ≡ ltb z (n * s)
unfolding is_slab
is_slab-ltb zero n z = ground (arith, mul-zero n)
is_slab-ltb (suc s) n z =
    let in_range : (z / suc s < n) ↔ (z < n * suc s) = div-lt_iff_lt-mul (omega arith) in
    ground (arith, in_range.0, in_range.1)

module _ {W : Type 0} where
  abbrev Below : ℕ → SlabManager W → Type 0
  Below n m = (z : ℕ) → PlacedBy (λ i. ltb i n) m z

  add_slabs-Below :
      (count base slab : ℕ) (m : SlabManager W)
      → base + slab + count < 2 ^ 32
      → Below (base + slab) m
      → Below (base + slab + count) (add_slabs count base slab m)
  unfolding add_slabs
  add_slabs-Below zero base slab m fits b = λ z. ground (arith, b z)
  add_slabs-Below (suc count) base slab m fits b =
      let m1 : SlabManager W = record m {
        info = update m.info (u32 (base + slab)) new_info;
        free_slabs = m.free_slabs ++ (u32 (base + slab) ∷ []);
      } in
      let b1 : Below (base + (slab + 1)) m1 =
        λ z. ground (arith, b z, count-append z m.free_slabs (u32 (base + slab) ∷ [])) in
      subst (λ k. Below k (add_slabs count base (slab + 1) m1)) (omega arith)
        (add_slabs-Below count base (slab + 1) m1 (omega arith) b1)

  add_slabs-same :
      (count base slab : ℕ) (m : SlabManager W)
      → ((add_slabs count base slab m).num_buffers ≡ m.num_buffers)
        × ((add_slabs count base slab m).slabs_per_buf ≡ m.slabs_per_buf)
  unfolding add_slabs
  add_slabs-same zero base slab m = (refl, refl)
  add_slabs-same (suc count) base slab m = add_slabs-same count base (slab + 1) _

  abbrev total : SlabManager W → ℕ
  total m = m.num_buffers * m.slabs_per_buf

  -- Adding a buffer's slabs, and then the rest, leaves every slab in its place.
  record Grown (count : ℕ) (m m' : SlabManager W) : Type 0 where
    buffers : m'.num_buffers ≡ m.num_buffers + count
    size : m'.slabs_per_buf ≡ m.slabs_per_buf
    below : Below (total m') m'

  add_buffer-Grown :
      (m : SlabManager W)
      → total m + m.slabs_per_buf < 2 ^ 32
      → Below (total m) m
      → Grown 1 m
          (add_slabs m.slabs_per_buf (total m) 0 (record m { num_buffers = m.num_buffers + 1 }))
  add_buffer-Grown m fits b =
      let m1 : SlabManager W = record m { num_buffers = m.num_buffers + 1 } in
      let m2 : SlabManager W = add_slabs m.slabs_per_buf (total m) 0 m1 in
      let same = add_slabs-same m.slabs_per_buf (total m) 0 m1 in
      let widened : total m + 0 + m.slabs_per_buf ≡ (m.num_buffers + 1) * m.slabs_per_buf =
        omega arith in
      let one_more_buffer : total m + 0 + m.slabs_per_buf ≡ total m2 =
        widened ∙ sym (ap₂ (λ (x y : ℕ). x * y) same.0 same.1) in
      record {
        buffers = same.0;
        size = same.1;
        below =
            subst (λ k. Below k m2) one_more_buffer
              (add_slabs-Below m.slabs_per_buf (total m) 0 m1 (omega arith)
                (λ z. ground (arith, b z)));
      }

  add_buffers-Grown :
      (count : ℕ) (m : SlabManager W)
      → (m.num_buffers + count) * m.slabs_per_buf < 2 ^ 32
      → Below (total m) m
      → Grown count m (add_buffers count m)
  unfolding add_buffers
  add_buffers-Grown zero m fits b = record { buffers = omega arith; size = refl; below = b }
  add_buffers-Grown (suc count) m fits b =
      let m2 : SlabManager W =
        add_slabs m.slabs_per_buf (total m) 0 (record m { num_buffers = m.num_buffers + 1 }) in
      let wide : total m + m.slabs_per_buf < 2 ^ 32 = omega (
        arith,
        mul-le-mul_right {m = m.num_buffers + 1} {n = m.num_buffers + suc count} m.slabs_per_buf
            (omega arith),
      ) in
      let one = add_buffer-Grown m wide b in
      let fits' : (m2.num_buffers + count) * m2.slabs_per_buf < 2 ^ 32 =
        subst (λ k. k < 2 ^ 32)
          (ap₂ (λ (x y : ℕ). x * y) (omega (arith, one.buffers)) (sym one.size)) fits in
      let rest = add_buffers-Grown count m2 fits' one.below in
      record {
        buffers = omega (arith, rest.buffers, one.buffers);
        size = rest.size ∙ one.size;
        below = rest.below;
      }

  is_slab-total : (m : SlabManager W) → is_slab m.slabs_per_buf m.num_buffers ≡ λ i. ltb i (total m)
  is_slab-total m = fun_ext (is_slab-ltb m.slabs_per_buf m.num_buffers)

  -- While slabIDs fit in 32 bits, `NumBuffers(n)` returns `n`, with `n` buffers or as many as there
  -- were if they are more, and keeps every slab in its list.
  pub set_num_buffers-Inv :
      (n : ℕ) (m : SlabManager W)
      → Inv m
      → n * m.slabs_per_buf < 2 ^ 32
      → (m' : SlabManager W) × (set_num_buffers n m ≡ ok n m')
        × Inv m'
        × (m'.num_buffers ≡ max n m.num_buffers)
  unfolding set_num_buffers
  set_num_buffers-Inv n m v fits = elim (Bool-cases (leb n m.num_buffers)) [
    | inl small ↦ (m, ground arith, v, ground arith)
    | inr big ↦
        let grown_m : SlabManager W = add_buffers (n - m.num_buffers) m in
        let sum : m.num_buffers + (n - m.num_buffers) ≡ n = ground arith in
        let grown : Grown (n - m.num_buffers) m grown_m =
          add_buffers-Grown (n - m.num_buffers) m (rw sum fits)
            (λ z. subst (λ f. PlacedBy f m z) (is_slab-total m) (v z)) in
        let placed : Inv grown_m =
          λ z. subst (λ f. PlacedBy f grown_m z) (sym (is_slab-total grown_m)) (grown.below z) in
        (
          record grown_m { num_slabs_nonreservable = grown_m.share (num_slabs grown_m) },
          rw big,
          λ z. record {
            free = (placed z).free;
            held = (placed z).held;
            wanted = (placed z).wanted;
          },
          omega (arith, grown.buffers, sum, not-leb→lt n m.num_buffers big),
        )
  ]
