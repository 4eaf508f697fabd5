-- ===== src/MessageSegments.antt =====
-- src/MessageSegment.cc: what a message's chain of segments is asked for. The loops along the `next`
-- pointers have a number of rounds, and give none if it does not reach the end of the chain.
use mcsb.Base.{
  ℕ, zero, suc, ◌+◌, ◌==◌, Bool, true, false, not, ◌||◌, List, [], ◌∷◌, ◌++◌, Option, none, some,
  ltb, if◌then◌else◌, u32, u64, length,
}
pub mod Chains
pub mod Payload
mod Tests

pub record Segment : Type 0 where
  pub buf : ℕ
  pub size : ℕ
  pub next : Option ℕ

-- The base and the length of a piece of a message.
pub record Iovec : Type 0 where
  pub iov_base : ℕ
  pub iov_len : ℕ

-- What `GetIovec` returns: the number of pieces, with an empty base behind them if there is a place
-- for it, or the negative of the number that it needs. The pieces are those that it has written.
pub data IovecAnswer : Type 0 where
  filled : (iov : List Iovec) (ended : Bool) → IovecAnswer
  needs : (num_segments : ℕ) (iov : List Iovec) → IovecAnswer

abbrev pub answer : ℕ → Bool → List Iovec → Option ℕ → Option IovecAnswer
answer iovcnt true iov needed = some (filled iov (ltb (length iov) iovcnt))
answer iovcnt false iov none = none
answer iovcnt false iov (some n) = some (needs n iov)

abbrev pub answer_to : ℕ → Option (Bool × List Iovec) → Option ℕ → Option IovecAnswer
answer_to iovcnt none needed = none
answer_to iovcnt (some (all, iov)) needed = answer iovcnt all iov needed

abbrev pub with_piece : Iovec → Option (Bool × List Iovec) → Option (Bool × List Iovec)
with_piece v none = none
with_piece v (some (all, iov)) = some (all, v ∷ iov)

module _ (seg : ℕ → Segment) where
  -- The loop of `NumSegments`, with `count` segments counted.
  pub count_from : ℕ → ℕ → Option ℕ → Option ℕ
  count_from fuel count none = some count
  count_from zero count (some a) = none
  count_from (suc fuel) count (some a) = count_from fuel (u32 (count + 1)) (seg a).next

  pub num_segments : ℕ → ℕ → Option ℕ
  unfolding count_from
  num_segments fuel a = count_from fuel 0 (some a)

  -- The loop of `TotalSize`, with `size` bytes added.
  pub size_from : ℕ → ℕ → Option ℕ → Option ℕ
  size_from fuel size none = some size
  size_from zero size (some a) = none
  size_from (suc fuel) size (some a) = size_from fuel (u64 (size + (seg a).size)) (seg a).next

  pub total_size : ℕ → ℕ → Option ℕ
  unfolding size_from
  total_size fuel a = size_from fuel 0 (some a)

  -- The loop of `GetIovec`: the pieces that are written, with `left` places left, and whether the
  -- chain came to its end.
  pub iovec_from : ℕ → ℕ → Option ℕ → Option (Bool × List Iovec)
  iovec_from fuel left none = some (true, [])
  iovec_from zero left (some a) = none
  iovec_from (suc fuel) zero (some a) = some (false, [])
  iovec_from (suc fuel) (suc left) (some a) =
      with_piece (record { iov_base = (seg a).buf; iov_len = (seg a).size })
        (iovec_from fuel left (seg a).next)

  pub get_iovec : ℕ → ℕ → ℕ → Option IovecAnswer
  unfolding num_segments iovec_from
  get_iovec fuel iovcnt a = answer_to iovcnt (iovec_from fuel iovcnt (some a)) (num_segments fuel a)

  -- Whether each piece stands at the front of the segment in its place.
  pub iovec_match : List Iovec → Option ℕ → Bool
  iovec_match [] next = true
  iovec_match (v ∷ iov) none = false
  iovec_match (v ∷ iov) (some a) =
      let rest = iovec_match iov (seg a).next in
      if not (v.iov_base == (seg a).buf)
      then false
      else if ltb (seg a).size v.iov_len
      then false
      else rest
