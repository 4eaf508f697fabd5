-- ===== src/MessageSegments/Chains.antt =====
-- The functions of a message segment on a chain that spells a list.
use mathlib.Core.Path.{ap₂}
use mcsb.Base.{
  ℕ, zero, suc, ◌+◌, ◌^◌, ◌≤◌, ◌<◌, ◌≡◌, refl, ap, ◌∙◌, List, [], ◌∷◌, Option, none, some, arith,
  u32, u64, leb, ltb, if◌then◌else◌, Bool-cases, inl, inr, length, total, take,
}
use mcsb.MessageSegments.{
  Segment, Iovec, with_piece, count_from, num_segments, size_from, total_size, iovec_from,
  get_iovec, answer, answer_to, filled, needs,
}

-- The segments from `next` on are `segs`.
abbrev pub Spells : (ℕ → Segment) → Option ℕ → List ℕ → Type 0
Spells seg next [] = next ≡ none
Spells seg next (a ∷ segs) = (next ≡ some a) × Spells seg (seg a).next segs

abbrev pub pieces : (ℕ → Segment) → List ℕ → List Iovec
pieces seg [] = []
pieces seg (a ∷ segs) = record { iov_base = (seg a).buf; iov_len = (seg a).size } ∷ pieces seg segs

module _ (seg : ℕ → Segment) where
  count_from-length :
      (fuel count : ℕ) (next : Option ℕ) (segs : List ℕ)
      → Spells seg next segs
      → length segs ≤ fuel
      → count + length segs < 2 ^ 32
      → count_from seg fuel count next ≡ some (count + length segs)
  unfolding count_from
  count_from-length fuel count next [] e enough small = rw e (ap some (omega arith))
  count_from-length zero count next (a ∷ segs) e enough small = absurd (omega arith)
  count_from-length (suc fuel) count next (a ∷ segs) e enough small =
      let exact : u32 (count + 1) ≡ count + 1 = omega arith in
      rw e.0 (
        ap (λ c. count_from seg fuel c (seg a).next) exact
        ∙ count_from-length fuel (count + 1) (seg a).next segs e.1 (omega arith) (omega arith)
        ∙ ap some (omega arith))

  size_from-total :
      (fuel size : ℕ) (next : Option ℕ) (segs : List ℕ)
      → Spells seg next segs
      → length segs ≤ fuel
      → size + total (λ a. (seg a).size) segs < 2 ^ 64
      → size_from seg fuel size next ≡ some (size + total (λ a. (seg a).size) segs)
  unfolding size_from
  size_from-total fuel size next [] e enough small = rw e (ap some (omega arith))
  size_from-total zero size next (a ∷ segs) e enough small = absurd (omega arith)
  size_from-total (suc fuel) size next (a ∷ segs) e enough small =
      let exact : u64 (size + (seg a).size) ≡ size + (seg a).size = omega arith in
      rw e.0 (
        ap (λ c. size_from seg fuel c (seg a).next) exact
        ∙ size_from-total fuel (size + (seg a).size) (seg a).next segs e.1 (omega arith)
            (omega arith)
        ∙ ap some (omega arith))

  iovec_from-pieces :
      (fuel left : ℕ) (next : Option ℕ) (segs : List ℕ)
      → Spells seg next segs
      → length segs ≤ fuel
      → iovec_from seg fuel left next ≡ some (leb (length segs) left, pieces seg (take left segs))
  unfolding iovec_from
  iovec_from-pieces fuel zero next [] e enough = rw e (ap (λ b. some (b, [])) (ground arith))
  iovec_from-pieces fuel (suc left) next [] e enough = rw e (ap (λ b. some (b, [])) (ground arith))
  iovec_from-pieces zero left next (a ∷ segs) e enough = absurd (omega arith)
  iovec_from-pieces (suc fuel) zero next (a ∷ segs) e enough =
      rw e.0 (ap (λ b. some (b, [])) (ground arith))
  iovec_from-pieces (suc fuel) (suc left) next (a ∷ segs) e enough =
      let rest = iovec_from-pieces fuel left (seg a).next segs e.1 (omega arith) in
      let v : Iovec = record { iov_base = (seg a).buf; iov_len = (seg a).size } in
      rw e.0 (
        ap (with_piece v) rest ∙ ap (λ b. some (b, v ∷ pieces seg (take left segs))) (ground arith))

  length-pieces : (segs : List ℕ) → length (pieces seg segs) ≡ length segs
  length-pieces [] = refl
  length-pieces (a ∷ segs) = ap suc (length-pieces segs)

  take_all : (left : ℕ) (segs : List ℕ) → length segs ≤ left → take left segs ≡ segs
  take_all zero [] h = refl
  take_all (suc left) [] h = refl
  take_all zero (a ∷ segs) h = absurd (omega arith)
  take_all (suc left) (a ∷ segs) h = ap (λ q. a ∷ q) (take_all left segs (omega arith))

  -- What `GetIovec` returns for the pieces that it writes.
  answer-pieces :
      (left : ℕ) (segs : List ℕ)
      → answer left (leb (length segs) left) (pieces seg (take left segs)) (some (length segs))
        ≡ some (
            if leb (length segs) left
            then filled (pieces seg segs) (ltb (length segs) left)
            else needs (length segs) (pieces seg (take left segs)))
  answer-pieces left segs = elim (Bool-cases (leb (length segs) left)) [
    | inr h ↦ rw h refl
    | inl h ↦
        let all : take left segs ≡ segs = take_all left segs (ground arith) in
        let written : ltb (length (pieces seg segs)) left ≡ ltb (length segs) left =
          ap (λ n. ltb n left) (length-pieces segs) in
        rw (h, all) (ap (λ b. some (filled (pieces seg segs) b)) written)
  ]

  -- For a chain that spells a list of fewer than 2 ^ 32 segments and 2 ^ 64 bytes, with rounds
  -- enough for them, `NumSegments` gives their number and `TotalSize` the sum of their sizes;
  -- `GetIovec` writes the pieces of the first segments, as many as there are places, and returns
  -- their number if there are places for all, with an empty base behind them if a place is left, or
  -- else the negative of the number of segments.
  pub chain-Functions :
      (fuel left a : ℕ) (segs : List ℕ)
      → Spells seg (some a) segs
      → length segs ≤ fuel
      → length segs < 2 ^ 32
      → total (λ b. (seg b).size) segs < 2 ^ 64
      → (num_segments seg fuel a ≡ some (length segs))
        × (total_size seg fuel a ≡ some (total (λ b. (seg b).size) segs))
        × (get_iovec seg fuel left a
            ≡ some (
                if leb (length segs) left
                then filled (pieces seg segs) (ltb (length segs) left)
                else needs (length segs) (pieces seg (take left segs))))
  unfolding num_segments total_size get_iovec
  chain-Functions fuel left a segs e enough small bytes = (
    count_from-length fuel 0 (some a) segs e enough (omega arith) ∙ ap some (omega arith),
    size_from-total fuel 0 (some a) segs e enough (omega arith) ∙ ap some (omega arith),
    (ap₂ (answer_to left) (iovec_from-pieces fuel left (some a) segs e enough)
          (count_from-length fuel 0 (some a) segs e enough (omega arith) ∙ ap some (omega arith))
        ∙ answer-pieces left segs),
  )
