-- ===== src/SlabRequests.antt =====
-- apps/MCSBManager/SlabRequestManager.cc and apps/MCSBManager/MCSB/SlabRequestManager.h: the clients' requests for
-- slabs, queued by level. A `SlabRequest` is numbered by its place in the blocks of 256 that are
-- allocated, and `req` says what it holds; a level's list holds those numbers. An `int` level is its
-- 32-bit pattern.
use mcsb.Base.{
  ℕ, zero, suc, ◌+◌, ◌-◌, ◌*◌, ◌^◌, ◌==◌, Bool, true, false, not, ◌||◌, List, [], ◌∷◌, ◌++◌, Option,
  none, some, ltb, leb, if◌then◌else◌, u32, sub32, length, is_nil, update, Outcome, Proc, ok, throw,
  ◌>>=◌, ◌>>◌, assert_failed, hook_fault,
}
pub mod Sums
pub mod Levels
pub mod Lowest
pub mod Reset
mod Tests

pub record SlabRequest : Type 0 where
  pub id : ℕ
  pub num_slabs : ℕ
  pub arg : ℕ

pub record SlabRequestManager : Type 0 where
  pub max_level : ℕ
  pub num_requests : ℕ
  pub request_lists : ℕ → List ℕ
  pub num_request_blocks : ℕ
  pub empty_requests : List ℕ
  pub req : ℕ → SlabRequest

-- `kNumReqs`.
abbrev pub reqs_per_block : ℕ
reqs_per_block = 256

unfoldable pub numbers_from : ℕ → ℕ → List ℕ
numbers_from zero i = []
numbers_from (suc count) i = i ∷ numbers_from count (i + 1)

pub add_slab_request_block : SlabRequestManager → SlabRequestManager
unfolding numbers_from
add_slab_request_block m = record m {
  num_request_blocks = m.num_request_blocks + 1;
  empty_requests =
      m.empty_requests ++ numbers_from reqs_per_block (m.num_request_blocks * reqs_per_block);
}

-- `level<0 || unsigned(level)>maxLevel`.
abbrev pub outside : ℕ → SlabRequestManager → Bool
outside level m = leb (2 ^ 31) level || ltb m.max_level level

pub safe_level : ℕ → SlabRequestManager → ℕ
safe_level level m = if outside level m then m.max_level else level

-- The front empty request is filled out and queued.
pub queue_request : ℕ → SlabRequest → Proc SlabRequestManager (Unit {0})
queue_request level r m = elim m.empty_requests [
  | [] ↦ throw hook_fault m
  | a ∷ rest ↦ ok tt (record m {
    empty_requests = rest;
    req = update m.req a r;
    request_lists = update m.request_lists level (m.request_lists level ++ (a ∷ []));
    num_requests = u32 (m.num_requests + 1);
  })
]

pub stock_requests : SlabRequestManager → SlabRequestManager
unfolding add_slab_request_block
stock_requests m = if is_nil m.empty_requests then add_slab_request_block m else m

pub add_request : ℕ → SlabRequest → Proc SlabRequestManager (Unit {0})
unfolding stock_requests safe_level queue_request
add_request level r m = queue_request (safe_level level m) r (stock_requests m)

-- The loop of `LowestLevelPending`, with `left` levels left from `level` on.
pub lowest_from : ℕ → ℕ → (ℕ → List ℕ) → Option ℕ
lowest_from zero level lists = none
lowest_from (suc left) level lists =
    let higher = lowest_from left (level + 1) lists in
    if is_nil (lists level) then higher else some level

pub lowest_level_pending : SlabRequestManager → Option ℕ
unfolding lowest_from
lowest_level_pending m =
    if m.num_requests == 0 then none else lowest_from (m.max_level + 1) 0 m.request_lists

pub num_requests_at : ℕ → SlabRequestManager → ℕ
num_requests_at level m = if outside level m then 0 else length (m.request_lists level)

-- The `assert` and the reference to a null pointer behind it; an empty list has no front.
pub front_request : ℕ → Proc SlabRequestManager SlabRequest
front_request level m =
    if outside level m
    then throw assert_failed m
    else elim (m.request_lists level) [ [] ↦ throw hook_fault m | a ∷ rest ↦ ok (m.req a) m ]

pub pop_front_request : ℕ → Proc SlabRequestManager (Unit {0})
pop_front_request level m =
    if outside level m then throw assert_failed m else elim (m.request_lists level) [
      | [] ↦ throw assert_failed m
      | a ∷ rest ↦ ok tt (record m {
        request_lists = update m.request_lists level rest;
        num_requests = sub32 m.num_requests 1;
        empty_requests = m.empty_requests ++ (a ∷ []);
      })
    ]

-- The `while` loop of `Reset`, for a level with `left` requests.
pub pop_all : ℕ → ℕ → Proc SlabRequestManager (Unit {0})
unfolding pop_front_request
pop_all zero level = λ m. ok tt m
pop_all (suc left) level = pop_front_request level >> pop_all left level

-- The `for` loop of `Reset`, with `left` levels left from `level` on.
pub reset_from : ℕ → ℕ → Proc SlabRequestManager (Unit {0})
unfolding pop_all
reset_from zero level = λ m. ok tt m
reset_from (suc left) level =
    (λ m. pop_all (length (m.request_lists level)) level m) >> reset_from left (level + 1)

pub reset : Proc SlabRequestManager (Unit {0})
unfolding reset_from
reset m =
    (reset_from (m.max_level + 1) 0 >> λ m'.
    if m'.num_requests == 0 then ok tt m' else throw assert_failed m')
      m

pub new_slab_request_manager : ℕ → Outcome SlabRequestManager (Unit {0})
unfolding add_slab_request_block
new_slab_request_manager max_level =
    let empty : SlabRequestManager = record {
      max_level = max_level;
      num_requests = 0;
      request_lists = λ level. [];
      num_request_blocks = 0;
      empty_requests = [];
      req = λ a. record { id = 0; num_slabs = 0; arg = 0 };
    } in
    if max_level == 0 then throw assert_failed empty else ok tt (add_slab_request_block empty)
