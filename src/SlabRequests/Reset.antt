-- ===== src/SlabRequests/Reset.antt =====
-- `Reset`: its loops over the levels and over the requests of each.
use mcsb.Base.{
  ℕ, zero, suc, ◌+◌, ◌≤◌, ◌<◌, ◌^◌, ◌≡◌, ◌≢◌, refl, ap, ◌∙◌, inl, inr, true, List, [], ◌∷◌, arith,
  ◌==◌, length, Bool-cases, ok,
}
use mcsb.SlabRequests.{SlabRequestManager, pop_front_request, pop_all, reset_from, reset}
use mcsb.SlabRequests.Sums.{sum_to}
use mcsb.SlabRequests.Levels.{Inv, pop_front_request-Popped}

-- The level is empty, and the others are as they were.
record Emptied (level : ℕ) (m m' : SlabRequestManager) : Type 0 where
  pub inv : Inv m'
  pub left : m'.request_lists level ≡ []
  pub levels : (i : ℕ) → i ≢ level → m'.request_lists i ≡ m.request_lists i
  pub max_level : m'.max_level ≡ m.max_level
  pub bounded : m'.num_requests < 2 ^ 32

one_pop :
    (left level : ℕ) (m m1 : SlabRequestManager)
    → pop_front_request level m ≡ ok tt m1
    → pop_all (suc left) level m ≡ pop_all left level m1
unfolding pop_all
one_pop left level m m1 run = rw run refl

-- The count is a sum of lengths, so it does not grow when a list shrinks.
pop_all-Emptied :
    (xs : List ℕ) (level : ℕ) (m : SlabRequestManager)
    → Inv m
    → level ≤ m.max_level
    → m.num_requests < 2 ^ 32
    → m.request_lists level ≡ xs
    → (m' : SlabRequestManager) × (pop_all (length xs) level m ≡ ok tt m') × Emptied level m m'
unfolding pop_all
pop_all-Emptied [] level m v below bounded e = (
  m,
  refl,
  record { inv = v; left = e; levels = λ i ne. refl; max_level = refl; bounded = bounded },
)
pop_all-Emptied (a ∷ rest) level m v below bounded e =
    let (front, m1, run, p) = pop_front_request-Popped level a rest m v below bounded e in
    let (m', more, q) =
      pop_all-Emptied rest level m1 p.inv (ground (arith, p.max_level)) p.bounded p.left in
    (
      m',
      one_pop (length rest) level m m1 run ∙ more,
      record {
        inv = q.inv;
        left = q.left;
        levels = λ i ne. q.levels i ne ∙ p.levels i ne;
        max_level = q.max_level ∙ p.max_level;
        bounded = q.bounded;
      },
    )

-- The levels from `level` on are empty, those below are as they were.
record Cleared (level : ℕ) (m m' : SlabRequestManager) : Type 0 where
  pub inv : Inv m'
  pub above : (i : ℕ) → level ≤ i → i ≤ m.max_level → m'.request_lists i ≡ []
  pub below : (i : ℕ) → i < level → m'.request_lists i ≡ m.request_lists i
  pub max_level : m'.max_level ≡ m.max_level

one_level :
    (left level : ℕ) (m m1 : SlabRequestManager)
    → pop_all (length (m.request_lists level)) level m ≡ ok tt m1
    → reset_from (suc left) level m ≡ reset_from left (level + 1) m1
unfolding reset_from
one_level left level m m1 run = rw run refl

reset_from-Cleared :
    (left level : ℕ) (m : SlabRequestManager)
    → Inv m
    → level + left ≡ m.max_level + 1
    → m.num_requests < 2 ^ 32
    → (m' : SlabRequestManager) × (reset_from left level m ≡ ok tt m') × Cleared level m m'
unfolding reset_from
reset_from-Cleared zero level m v all bounded = (
  m,
  refl,
  record { inv = v; above = λ i h k. absurd (omega arith); below = λ i h. refl; max_level = refl },
)
reset_from-Cleared (suc left) level m v all bounded =
    let (m1, run, q) =
      pop_all-Emptied (m.request_lists level) level m v (omega arith) bounded refl in
    let (m', more, c) =
      reset_from-Cleared left (level + 1) m1 q.inv (omega (arith, q.max_level)) q.bounded in
    (
      m',
      one_level left level m m1 run ∙ more,
      record {
        inv = c.inv;
        above = λ i h k. elim (Bool-cases (i == level)) [
          | inl here ↦
              let same : i ≡ level = ground arith in
              c.below i (omega arith) ∙ ap m1.request_lists same ∙ q.left
          | inr up ↦ c.above i (ground arith) (omega (arith, q.max_level))
        ];
        below = λ i h. c.below i (omega arith) ∙ q.levels i (λ e. omega arith);
        max_level = c.max_level ∙ q.max_level;
      },
    )

sum_to-nil :
    (n : ℕ) (lists : ℕ → List ℕ)
    → ((i : ℕ) → i < n → lists i ≡ [])
    → sum_to n (λ i. length (lists i)) ≡ 0
sum_to-nil zero lists h = refl
sum_to-nil (suc n) lists h =
    omega (arith, sum_to-nil n lists (λ i lt. h i (omega arith)), ap length (h n (omega arith)))

after_loop :
    (m m' : SlabRequestManager)
    → reset_from (m.max_level + 1) 0 m ≡ ok tt m'
    → (m'.num_requests == 0) ≡ true
    → reset m ≡ ok tt m'
unfolding reset
after_loop m m' run tested = rw (run, tested) refl

-- While each request stands in one list and the count of requests is their number, `Reset` returns,
-- so its `assert` holds: every level is empty, the count is zero, and each request stands in one
-- list.
pub reset-empties :
    (m : SlabRequestManager)
    → Inv m
    → m.num_requests < 2 ^ 32
    → (m' : SlabRequestManager) × (reset m ≡ ok tt m')
      × (Inv m')
      × (m'.num_requests ≡ 0)
      × ((i : ℕ) → i ≤ m.max_level → m'.request_lists i ≡ [])
reset-empties m v bounded =
    let (m', run, c) = reset_from-Cleared (m.max_level + 1) 0 m v (omega arith) bounded in
    let gone : (i : ℕ) → i ≤ m.max_level → m'.request_lists i ≡ [] =
      λ i h. c.above i (omega arith) h in
    let none_left : m'.num_requests ≡ 0 =
      c.inv.counted
      ∙ sum_to-nil (m'.max_level + 1) m'.request_lists
          (λ i h. gone i (omega (arith, c.max_level))) in
    let tested : (m'.num_requests == 0) ≡ true = ground (arith, none_left) in
    (m', after_loop m m' run tested, c.inv, none_left, gone)
