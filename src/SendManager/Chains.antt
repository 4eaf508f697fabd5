-- ===== src/SendManager/Chains.antt =====
-- The whole of `GetMessageDescriptor`: the bytes and the links of its message.
use native.Mathlib.Nat.{
  mul-le-mul_right, div-eq_of_lt, div-mul-le_self, lt-div-mul-add, mul_assoc, add-mul,
}
use mcsb.Base.{
  ℕ, zero, suc, ◌+◌, ◌-◌, ◌*◌, ◌/◌, ◌≤◌, ◌<◌, ◌^◌, ◌≡◌, refl, sym, ap, subst, ◌∙◌, inl, inr, Bool,
  true, false, ◌||◌, List, [], ◌∷◌, ◌++◌, Option, none, some, arith, ltb, leb, ◌==◌, u32, sub32,
  length, update, mem, fun_ext, total, count-append, append_assoc, Bool-cases, Outcome, ok,
}
use mcsb.SendManager.{
  SendManager, SendSegment, get_segment, link_after, add_whole_slabs, add_part_slab, get_multi_slab,
  get_message_descriptor, blocks_for,
}
use mcsb.SendManager.Pool.{Inv}
use mcsb.SendManager.Segments.{NewSegment, no_slab, made, get_segment-Got}
use mcsb.SendManager.Messages.{
  Linked, Sized, Added, no_slab-empty, add_whole_slabs-Added, link_after-Inv,
}

-- A message of `n` blocks that begins with `a`.
pub record Chain (n : ℕ) (m : SendManager) (a : ℕ) (m' : SendManager) : Type 0 where
  pub segs : List ℕ
  pub inv : Inv m'
  pub busy : m'.busy_segs ≡ m.busy_segs ++ (a ∷ segs)
  pub linked : Linked m'.seg (a ∷ segs)
  pub bytes : total (λ b. (m'.seg b).size) (a ∷ segs) ≡ n * m.block_size
  pub kept : (b : ℕ) → mem b m.busy_segs ≡ true → m'.seg b ≡ m.seg b
  pub same_slabs : m'.blocks_per_slab ≡ m.blocks_per_slab

single-Chain :
    (n a : ℕ) (b : Bool) (m m' : SendManager)
    → n * m.block_size < 2 ^ 32
    → NewSegment n b m a m'
    → Chain n m a m'
single-Chain n a b m m' small s = record {
  segs = [];
  inv = s.inv;
  busy = s.busy;
  linked = s.next;
  bytes = ground (arith, s.size);
  kept = λ c h. s.others c (λ e. ground (arith, s.new));
  same_slabs = s.blocks_per_slab;
}

total-Sized :
    (seg : ℕ → SendSegment) (size : ℕ) (segs : List ℕ)
    → Sized seg size segs
    → total (λ b. (seg b).size) segs ≡ length segs * size
total-Sized seg size [] z = omega arith
total-Sized seg size (a ∷ segs) z = ground (arith, total-Sized seg size segs z.1)

-- The first segment, of `n` blocks, and whole slabs behind it.
extended-Chain :
    (n k a : ℕ) (b : Bool) (next : Option ℕ) (m m1 m' : SendManager)
    → n * m.block_size < 2 ^ 32
    → m.blocks_per_slab * m.block_size < 2 ^ 32
    → NewSegment n b m a m1
    → Added (link_after a next m1) a k m'
    → Chain (n + k * m.blocks_per_slab) m a m'
unfolding link_after
extended-Chain n k a b next m m1 m' small slab_small s d = record {
  segs = d.added;
  inv = d.inv;
  busy = d.busy ∙ ap (λ q. q ++ d.added) s.busy ∙ append_assoc m.busy_segs (a ∷ []) d.added;
  linked = d.linked;
  bytes =
      let slab_bytes : u32 (m1.blocks_per_slab * m1.block_size) ≡ m.blocks_per_slab * m.block_size =
        ground (arith, s.block_size, s.blocks_per_slab) in
      let spread : (n + k * m.blocks_per_slab) * m.block_size
          ≡ n * m.block_size + k * (m.blocks_per_slab * m.block_size) =
        add-mul n (k * m.blocks_per_slab) m.block_size
        ∙ ap (λ q. n * m.block_size + q) (mul_assoc k m.blocks_per_slab m.block_size) in
      let rest : total (λ b. (m'.seg b).size) d.added ≡ k * (m.blocks_per_slab * m.block_size) =
        total-Sized m'.seg _ d.added d.sized
        ∙ ap (λ q. q * u32 (m1.blocks_per_slab * m1.block_size)) d.many
        ∙ ap (λ q. k * q) slab_bytes in
      ground (arith, s.size, d.size, spread, rest);
  kept = λ c h.
      d.others c (λ e. ground (arith, s.new))
        (ground (arith, d.new c, s.busy, count-append c m.busy_segs (a ∷ [])))
      ∙ ground (arith, s.others c (λ e. ground (arith, s.new)), s.new);
  same_slabs = d.same_slabs ∙ s.blocks_per_slab;
}

-- No segment and no change, or else a message of `n` blocks.
pub data Answer (n : ℕ) (m : SendManager) (r : Outcome SendManager (Option ℕ)) : Type 0 where
  refused : r ≡ ok none m → Answer n m r
  sent : (a : ℕ) (m' : SendManager) → r ≡ ok (some a) m' → Chain n m a m' → Answer n m r

link_after-same : (a : ℕ) (m : SendManager) → link_after a (m.seg a).next m ≡ m
unfolding link_after
link_after-same a m = ap (λ (q : ℕ → SendSegment). record m { seg = q }) (fun_ext λ b. same b)
  where
    same : (b : ℕ) → update m.seg a (record (m.seg a) { next = (m.seg a).next }) b ≡ m.seg b
    same b = ground arith

part-Chain :
    (n k a : ℕ) (b : Bool) (m m1 m' : SendManager)
    → n * m.block_size < 2 ^ 32
    → m.blocks_per_slab * m.block_size < 2 ^ 32
    → NewSegment n b m a m1
    → Added m1 a k m'
    → Chain (n + k * m.blocks_per_slab) m a m'
part-Chain n k a b m m1 m' small slab_small s d =
    extended-Chain n k a b (m1.seg a).next m m1 m' small slab_small s
      (subst (λ q. Added q a k m') (sym (link_after-same a m1)) d)

-- The whole slabs of a message without a part: the first one is linked to itself until the next.
whole_slabs-Answer :
    (k : ℕ) (m : SendManager)
    → Inv m
    → 0 < m.blocks_per_slab
    → m.blocks_per_slab * m.block_size < 2 ^ 32
    → 1 ≤ k
    → suc k ≤ length m.free_slabs
    → Answer (m.blocks_per_slab + k * m.blocks_per_slab) m (add_whole_slabs (suc k) none none m)
unfolding add_whole_slabs link_after
whole_slabs-Answer k m v pos slab_small two enough =
    elim (get_segment-Got m.blocks_per_slab false m v pos (omega arith)) [
      | no_slab nowhere run ↦ absurd (omega (arith, no_slab-empty m nowhere))
      | made a m1 run s ↦
          let (m', rest, d) =
            add_whole_slabs-Added k a a (link_after a (some a) m1)
              (link_after-Inv a (some a) m1 s.inv) (ground (arith, s.blocks_per_slab))
              (ground (arith, s.free_slabs))
              (ground (arith, s.busy, count-append a m.busy_segs (a ∷ [])))
              (λ none_left. absurd (omega arith)) in
          rw run (
            sent a m' rest (
              extended-Chain m.blocks_per_slab k a false (some a) m m1 m' slab_small slab_small s
                d))
    ]

-- The part first, and the whole slabs behind it.
part_slab-Answer :
    (whole n : ℕ) (m : SendManager)
    → Inv m
    → 0 < n
    → n < m.blocks_per_slab
    → m.blocks_per_slab * m.block_size < 2 ^ 32
    → whole ≤ length m.free_slabs
    → Answer (n + whole * m.blocks_per_slab) m (get_multi_slab whole n m)
unfolding get_multi_slab add_part_slab
part_slab-Answer whole n m v pos inside slab_small enough =
    let small : n * m.block_size ≤ m.blocks_per_slab * m.block_size =
      mul-le-mul_right m.block_size (omega arith) in
    let first : ltb (length m.free_slabs) whole ≡ false = ground arith in
    let part : (n == 0) ≡ false = ground arith in
    elim (get_segment-Got n (whole == length m.free_slabs) m v pos (omega arith)) [
      | no_slab nowhere run ↦ rw (first, part, run) (refused refl)
      | made a m1 run s ↦
          let (m', rest, d) =
            add_whole_slabs-Added whole a a m1 s.inv (ground (arith, s.blocks_per_slab))
              (ground (arith, s.free_slabs))
              (ground (arith, s.busy, count-append a m.busy_segs (a ∷ []))) (λ none_left. s.next) in
          rw (first, part, run)
            (sent a m' rest (part-Chain n whole a _ m m1 m' (omega arith) slab_small s d))
    ]

-- Fewer free slabs than whole slabs.
short_slabs-Answer :
    (n whole part : ℕ) (m : SendManager)
    → length m.free_slabs < whole
    → Answer n m (get_multi_slab whole part m)
unfolding get_multi_slab
short_slabs-Answer n whole part m few =
    let short : ltb (length m.free_slabs) whole ≡ true = ground arith in rw short (refused refl)

multi_slab-Answer :
    (whole part : ℕ) (m : SendManager)
    → Inv m
    → part < m.blocks_per_slab
    → m.blocks_per_slab * m.block_size < 2 ^ 32
    → m.blocks_per_slab < part + whole * m.blocks_per_slab
    → Answer (part + whole * m.blocks_per_slab) m (get_multi_slab whole part m)
unfolding get_multi_slab add_part_slab
multi_slab-Answer whole (suc n) m v inside slab_small large =
    elim (Bool-cases (ltb (length m.free_slabs) whole)) [
      | inl short ↦ short_slabs-Answer _ whole (suc n) m (ground arith)
      | inr enough ↦
          part_slab-Answer whole (suc n) m v (omega arith) inside slab_small (ground arith)
    ]
multi_slab-Answer zero zero m v inside slab_small large = absurd (omega arith)
multi_slab-Answer (suc zero) zero m v inside slab_small large = absurd (omega arith)
multi_slab-Answer (suc (suc k)) zero m v inside slab_small large =
    elim (Bool-cases (ltb (length m.free_slabs) (suc (suc k)))) [
      | inl short ↦ short_slabs-Answer _ (suc (suc k)) zero m (ground arith)
      | inr enough ↦ rw enough (
          subst (λ n. Answer n m (add_whole_slabs (suc (suc k)) none none m)) (omega arith)
            (whole_slabs-Answer (suc k) m v (omega arith) slab_small (omega arith) (ground arith)))
    ]

single_slab-Answer :
    (n : ℕ) (m : SendManager)
    → Inv m
    → 0 < n
    → n ≤ m.blocks_per_slab
    → m.blocks_per_slab * m.block_size < 2 ^ 32
    → Answer n m (get_segment n false m)
single_slab-Answer n m v pos small slab_small =
    let bytes : n * m.block_size ≤ m.blocks_per_slab * m.block_size =
      mul-le-mul_right m.block_size small in
    elim (get_segment-Got n false m v pos small) [
      | no_slab nowhere run ↦ refused run
      | made a m' run s ↦ sent a m' run (single-Chain n a false m m' (omega arith) s)
    ]

pub blocks_for-pos : (len block_size : ℕ) → 0 < blocks_for len block_size
unfolding blocks_for
blocks_for-pos len block_size = ground arith

-- Under the pool's invariant, with a block and a slab size that are not zero and a slab below 2 ^
-- 32 bytes, `GetMessageDescriptor` for a message that may be spread over slabs or fits in one
-- returns: no segment, with nothing changed, or else a chain of segments, added to the busy ones,
-- linked in order and ended, whose sizes add up to the blocks asked for; the invariant holds again
-- and the segments that were busy are as they were.
pub get_message_descriptor-Answer :
    (len : ℕ) (contiguous : Bool) (m : SendManager)
    → Inv m
    → 0 < m.block_size
    → 0 < m.blocks_per_slab
    → m.blocks_per_slab * m.block_size < 2 ^ 32
    → (contiguous ≡ true → blocks_for len m.block_size ≤ m.blocks_per_slab)
    → Answer (blocks_for len m.block_size) m (get_message_descriptor len contiguous m)
unfolding get_message_descriptor
get_message_descriptor-Answer len contiguous m v bs bps slab_small small =
    let n = blocks_for len m.block_size in
    let sized : (m.block_size == 0) ≡ false = ground arith in
    let room : (m.blocks_per_slab == 0) ≡ false = ground arith in
    elim (Bool-cases (contiguous || leb n m.blocks_per_slab)) [
      | inl single ↦
          rw (sized, single)
            (single_slab-Answer n m v (blocks_for-pos len m.block_size) (ground (arith, small))
              slab_small)
      | inr spread ↦
          let whole = n / m.blocks_per_slab in
          let part = n - whole * m.blocks_per_slab in
          let below : whole * m.blocks_per_slab ≤ n = div-mul-le_self n m.blocks_per_slab in
          let above : n < whole * m.blocks_per_slab + m.blocks_per_slab = lt-div-mul-add bps in
          rw (sized, spread, room)
            (subst (λ k. Answer k m (get_multi_slab whole part m)) (omega arith)
              (multi_slab-Answer whole part m v (omega arith) slab_small (ground arith)))
    ]

-- The blocks that `GetMessageDescriptor` takes for a message that is not empty hold its bytes, with
-- less than a block to spare, if the length and a block together do not pass 2 ^ 32.
pub blocks_for-enough :
    (len block_size : ℕ)
    → 0 < block_size
    → 0 < len
    → len + block_size ≤ 2 ^ 32
    → (len ≤ blocks_for len block_size * block_size)
      × (blocks_for len block_size * block_size < len + block_size)
unfolding blocks_for
blocks_for-enough len block_size pos some_bytes small =
    let k = len - 1 + block_size in
    let exact : u32 (sub32 len 1 + block_size) ≡ k = omega arith in
    let below : k / block_size * block_size ≤ k = div-mul-le_self k block_size in
    let above : k < k / block_size * block_size + block_size = lt-div-mul-add pos in
    rw exact (ground arith)

-- For a 32-bit length that passes 2 ^ 32 together with a block, `GetMessageDescriptor` takes a
-- single block.
pub blocks_for_wraps :
    (len block_size : ℕ)
    → len < 2 ^ 32
    → block_size < 2 ^ 32
    → 2 ^ 32 < len + block_size
    → blocks_for len block_size ≡ 1
unfolding blocks_for
blocks_for_wraps len block_size fits block_fits large =
    let wrapped : u32 (sub32 len 1 + block_size) < block_size = omega arith in
    let none_left : u32 (sub32 len 1 + block_size) / block_size ≡ 0 = div-eq_of_lt wrapped in
    ground arith
