-- ===== src/RecvManager/Scan.antt =====
-- The three things that the loop of `GetMessageDescriptor` does with the front pending segment.
use mcsb.Base.{
  ℕ, ◌-◌, ◌≡◌, ◌≤◌, ◌<◌, inl, inr, false, List, ◌∷◌, none, some, arith, ltb, length, Bool-cases,
}
use mcsb.RecvManager.{RecvManager, unusable, drop_front, deliver, count_matches, next_message}

-- It is dropped, or the loop waits for the rest of its message, or its message is delivered.
pub data Scanned (a : ℕ) (rest : List ℕ) (m : RecvManager) : Type 0 where
  drops : next_message (a ∷ rest) m ≡ next_message rest (drop_front a rest m) → Scanned a rest m
  waits :
      unusable m.num_cons_slabs (m.seg a).block_info ≡ false
      → length (a ∷ rest) < (m.seg a).block_info.num_segments
      → next_message (a ∷ rest) m ≡ (none, m)
      → Scanned a rest m
  delivers :
      unusable m.num_cons_slabs (m.seg a).block_info ≡ false
      → (m.seg a).block_info.num_segments ≤ length (a ∷ rest)
      → (m.seg a).block_info.num_segments
        ≤ count_matches m.seg (m.seg a).block_info ((m.seg a).block_info.num_segments - 1) 1 rest
      → next_message (a ∷ rest) m ≡ (some a, deliver (m.seg a).block_info.num_segments (a ∷ rest) m)
      → Scanned a rest m

pub scan : (a : ℕ) (rest : List ℕ) (m : RecvManager) → Scanned a rest m
unfolding next_message
scan a rest m =
    let n = (m.seg a).block_info.num_segments in
    let matched = count_matches m.seg (m.seg a).block_info (n - 1) 1 rest in
    elim (Bool-cases (unusable m.num_cons_slabs (m.seg a).block_info)) [
      | inl bad ↦ drops (rw bad)
      | inr good ↦ elim (Bool-cases (ltb (length (a ∷ rest)) n)) [
        | inl short ↦ waits good (ground arith) (rw (good, short))
        | inr long ↦ elim (Bool-cases (ltb matched n)) [
          | inl broken ↦ drops (rw (good, long, broken))
          | inr whole ↦ delivers good (ground arith) (ground arith) (rw (good, long, whole))
        ]
      ]
    ]
