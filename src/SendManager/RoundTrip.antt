-- ===== src/SendManager/RoundTrip.antt =====
-- `GetMessageDescriptor` and then `ReleaseMessageDescriptor`.
use mcsb.Base.{
  ℕ, ◌*◌, ◌≤◌, ◌<◌, ◌^◌, ◌≡◌, sym, ap, subst, ◌∙◌, true, Bool, Option, some, none, arith, count,
  Outcome, ok, throw, final,
}
use mcsb.SendManager.{SendManager, get_message_descriptor, release_message_descriptor, blocks_for}
use mcsb.SendManager.Pool.{Inv}
use mcsb.SendManager.Chains.{Chain, Answer, refused, sent, get_message_descriptor-Answer}
use mcsb.SendManager.Release.{release-Chain}

-- The segment that an outcome gives, or else `d`.
abbrev segment_of : ℕ → Outcome SendManager (Option ℕ) → ℕ
segment_of d (ok (some a) m) = a
segment_of d (ok none m) = d
segment_of d (throw e m) = d

-- An answer with a segment is that segment's chain.
Answer-sent :
    (n : ℕ) (m : SendManager) (a : ℕ) (m' : SendManager) (r : Outcome SendManager (Option ℕ))
    → r ≡ ok (some a) m'
    → Answer n m r
    → Chain n m a m'
Answer-sent n m a m' r run (refused e) =
    absurd (ground (arith, ap (segment_of 0) (sym run ∙ e), ap (segment_of 1) (sym run ∙ e)))
Answer-sent n m a m' r run (sent b m1 e c) =
    let same : ok (some b) m1 ≡ ok (some a) m' = sym e ∙ run in
    subst (λ q. Chain n m a q) (ap final same)
      (subst (λ q. Chain n m q m1) (ap (segment_of b) same) c)

-- Under the pool's invariant, with a block and a slab size that are not zero and a slab below 2 ^
-- 32 bytes, and for a message that may be spread over slabs or fits in one: if
-- `GetMessageDescriptor` returns a segment, then `ReleaseMessageDescriptor` of that segment, in the
-- state that is left, returns; each segment is then busy as often as before the message was made,
-- and the pool's invariant holds again.
pub release_message_descriptor-get_message_descriptor :
    (len : ℕ) (contiguous : Bool) (m : SendManager)
    → Inv m
    → 0 < m.block_size
    → 0 < m.blocks_per_slab
    → m.blocks_per_slab * m.block_size < 2 ^ 32
    → (contiguous ≡ true → blocks_for len m.block_size ≤ m.blocks_per_slab)
    → (a : ℕ) (m' : SendManager) → get_message_descriptor len contiguous m ≡ ok (some a) m'
    → (m'' : SendManager) × (release_message_descriptor (some a) m' ≡ ok tt m'')
      × (Inv m'')
      × ((z : ℕ) → count z m''.busy_segs ≡ count z m.busy_segs)
release_message_descriptor-get_message_descriptor len contiguous m v bs bps slab_small fits a m'
      run =
    let c =
      Answer-sent _ m a m' _ run
        (get_message_descriptor-Answer len contiguous m v bs bps slab_small fits) in
    release-Chain _ a m m' (ground (arith, c.same_slabs)) c
