-- ===== src/RecvManager/Messages.antt =====
-- What `GetMessageDescriptor` takes for a message.
use mcsb.Base.{
  ℕ, zero, suc, ◌+◌, ◌≤◌, ◌≡◌, refl, ap, ◌∙◌, false, List, [], ◌∷◌, ◌++◌, none, some, arith, length,
  update, take, mem, Distinct,
}
use mcsb.RecvManager.{RecvSegment, BlockInfo, count_matches, link_segments}

-- The segments carry the numbers from `k` on of the message that began with `first`.
abbrev pub Continues : (ℕ → RecvSegment) → BlockInfo → ℕ → List ℕ → Type 0
Continues seg first k [] = Unit {0}
Continues seg first k (b ∷ segs) =
    ((seg b).block_info.num_segments ≡ first.num_segments)
    × ((seg b).block_info.segment_number ≡ k)
    × ((seg b).block_info.message_id ≡ first.message_id)
    × Continues seg first (k + 1) segs

-- `a` and the segments behind it are all segments of one message, in order, and no more than the
-- client may hold.
pub record IsMessage (seg : ℕ → RecvSegment) (num_cons_slabs : ℕ) (a : ℕ) (segs : List ℕ)
    : Type 0 where
  pub begins : (seg a).block_info.segment_number ≡ 0
  pub whole : suc (length segs) ≡ (seg a).block_info.num_segments
  pub fits : (seg a).block_info.num_segments ≤ num_cons_slabs
  pub continues : Continues seg (seg a).block_info 1 segs

-- The `next` pointers lead through the segments, in order, and end.
abbrev pub Linked : (ℕ → RecvSegment) → List ℕ → Type 0
Linked seg [] = Unit {0}
Linked seg (a ∷ []) = (seg a).next ≡ none
Linked seg (a ∷ b ∷ segs) = ((seg a).next ≡ some b) × Linked seg (b ∷ segs)

count_matches-le :
    (seg : ℕ → RecvSegment) (first : BlockInfo) (left k : ℕ) (segs : List ℕ)
    → count_matches seg first left k segs ≤ k + left
unfolding count_matches
count_matches-le seg first zero k segs = omega arith
count_matches-le seg first (suc left) k [] = omega arith
count_matches-le seg first (suc left) k (b ∷ segs) =
    ground (arith, count_matches-le seg first left (k + 1) segs)

pub Continues-of_count :
    (seg : ℕ → RecvSegment) (first : BlockInfo) (left k : ℕ) (segs : List ℕ)
    → k + left ≤ count_matches seg first left k segs
    → Continues seg first k (take left segs)
unfolding count_matches
Continues-of_count seg first zero k segs h = tt
Continues-of_count seg first (suc left) k [] h = tt
Continues-of_count seg first (suc left) k (b ∷ segs) h =
    let rest = Continues-of_count seg first left (k + 1) segs in
    (ground arith, ground arith, ground arith, rest (ground arith))

pub count_of_Continues :
    (seg : ℕ → RecvSegment) (first : BlockInfo) (k : ℕ) (segs rest : List ℕ)
    → Continues seg first k segs
    → count_matches seg first (length segs) k (segs ++ rest) ≡ k + length segs
unfolding count_matches
count_of_Continues seg first k [] rest c = omega arith
count_of_Continues seg first k (b ∷ segs) rest c =
    ground (arith, count_of_Continues seg first (k + 1) segs rest c.3)

link_segments-other :
    (segs : List ℕ) (seg : ℕ → RecvSegment) (z : ℕ)
    → mem z segs ≡ false
    → link_segments segs seg z ≡ seg z
unfolding link_segments
link_segments-other [] seg z new = refl
link_segments-other (a ∷ []) seg z new = ground arith
link_segments-other (a ∷ b ∷ segs) seg z new =
    let seg1 : ℕ → RecvSegment = update seg a (record (seg a) { next = some b }) in
    link_segments-other (b ∷ segs) seg1 z (ground arith) ∙ ground arith

pub link_segments-Linked :
    (segs : List ℕ) (seg : ℕ → RecvSegment) → Distinct segs → Linked (link_segments segs seg) segs
unfolding link_segments
link_segments-Linked [] seg d = tt
link_segments-Linked (a ∷ []) seg d = ground arith
link_segments-Linked (a ∷ b ∷ segs) seg d =
    let seg1 : ℕ → RecvSegment = update seg a (record (seg a) { next = some b }) in
    (
      ap (λ (s : RecvSegment). s.next) (link_segments-other (b ∷ segs) seg1 a d.0) ∙ ground arith,
      link_segments-Linked (b ∷ segs) seg1 d.1,
    )
