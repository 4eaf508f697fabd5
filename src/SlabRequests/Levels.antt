-- ===== src/SlabRequests/Levels.antt =====
-- `AddRequest` and `PopFrontRequest`: the lists that a request stands in, and the count of requests.
use mcsb.Base.{
  ℕ, zero, suc, subst, ◌+◌, ◌*◌, ◌≤◌, ◌<◌, ◌^◌, ◌≡◌, ◌≢◌, refl, ap, ◌∙◌, inl, inr, true, false,
  ◌&&◌, List, [], ◌∷◌, ◌++◌, arith, ltb, leb, bit, u32, sub32, length, length-append, is_nil,
  update, count, count-append, Nil-cases, ok,
}
use Prim.Native.Nat.{min}
use mcsb.SlabRequests.{
  SlabRequest, SlabRequestManager, numbers_from, reqs_per_block, add_slab_request_block, outside,
  safe_level, queue_request, stock_requests, add_request, front_request, pop_front_request,
}
use mcsb.SlabRequests.Sums.{sum_to, sum_to-change}

-- How often the request `a` is queued.
abbrev pub queued : ℕ → SlabRequestManager → ℕ
queued a m = sum_to (m.max_level + 1) (λ level. count a (m.request_lists level))

abbrev pub pending : SlabRequestManager → ℕ
pending m = sum_to (m.max_level + 1) (λ level. length (m.request_lists level))

-- Each of the requests that are allocated stands once in the lists, and the count is the number of
-- those that are queued.
pub record Inv (m : SlabRequestManager) : Type 0 where
  pub once :
      (a : ℕ)
      → count a m.empty_requests + queued a m ≡ bit (ltb a (m.num_request_blocks * reqs_per_block))
  pub counted : m.num_requests ≡ pending m
  pub small : m.max_level < 2 ^ 31

pub count-numbers_from : (a n i : ℕ) → count a (numbers_from n i) ≡ bit (leb i a && ltb a (i + n))
unfolding numbers_from
count-numbers_from a zero i = ground arith
count-numbers_from a (suc n) i = ground (arith, count-numbers_from a n (i + 1))

add_slab_request_block-Inv : (m : SlabRequestManager) → Inv m → Inv (add_slab_request_block m)
unfolding add_slab_request_block
add_slab_request_block-Inv m v = record {
  once = λ a. ground (
    arith,
    v.once a,
    count-append a m.empty_requests
        (numbers_from reqs_per_block (m.num_request_blocks * reqs_per_block)),
    count-numbers_from a reqs_per_block (m.num_request_blocks * reqs_per_block),
  );
  counted = v.counted;
  small = v.small;
}

safe_level-inside : (level : ℕ) (m : SlabRequestManager) → safe_level level m < m.max_level + 1
unfolding safe_level
safe_level-inside level m = ground arith

-- A new request `r` is the last of its level, and every other one stays where it is and as it is.
pub record Queued (level : ℕ) (r : SlabRequest) (m m' : SlabRequestManager) : Type 0 where
  pub number : ℕ
  pub inv : Inv m'
  pub last : m'.request_lists level ≡ m.request_lists level ++ (number ∷ [])
  pub holds : m'.req number ≡ r
  pub levels : (i : ℕ) → i ≢ level → m'.request_lists i ≡ m.request_lists i
  pub others : (b : ℕ) → 0 < queued b m → m'.req b ≡ m.req b

-- The front empty request `a` is queued.
abbrev requested : ℕ → SlabRequest → ℕ → List ℕ → SlabRequestManager → SlabRequestManager
requested level r a rest m = record m {
  empty_requests = rest;
  req = update m.req a r;
  request_lists = update m.request_lists level (m.request_lists level ++ (a ∷ []));
  num_requests = u32 (m.num_requests + 1);
}

requested-Queued :
    (level : ℕ) (r : SlabRequest) (a : ℕ) (rest : List ℕ) (m : SlabRequestManager)
    → Inv m
    → level < m.max_level + 1
    → m.num_requests + 1 < 2 ^ 32
    → m.empty_requests ≡ a ∷ rest
    → Queued level r m (requested level r a rest m)
requested-Queued level r a rest m v inside small e =
    let m' : SlabRequestManager = requested level r a rest m in
    let times : (b : ℕ)
        → queued b m' + count b (m.request_lists level)
          ≡ queued b m + count b (m'.request_lists level) =
      λ b. sum_to-change (m.max_level + 1) level _ _ inside (λ i ne. ground arith) in
    let sizes : pending m' + length (m.request_lists level)
        ≡ pending m + length (m'.request_lists level) =
      sum_to-change (m.max_level + 1) level _ _ inside (λ i ne. ground arith) in
    record {
      number = a;
      inv = record {
        once =
            λ b. ground (arith, v.once b, times b, count-append b (m.request_lists level) (a ∷ []));
        counted = ground (arith, v.counted, sizes, length-append (m.request_lists level) (a ∷ []));
        small = v.small;
      };
      last = ground arith;
      holds = ground arith;
      levels = λ i ne. ground arith;
      others = λ b there. ground (arith, v.once b);
    }

add_slab_request_block-front :
    (m : SlabRequestManager)
    → (a : ℕ) × (rest : List ℕ) × ((add_slab_request_block m).empty_requests ≡ a ∷ rest)
unfolding add_slab_request_block numbers_from
add_slab_request_block-front m =
    let block = numbers_from reqs_per_block (m.num_request_blocks * reqs_per_block) in
    elim (Nil-cases m.empty_requests) [
      | inl empty ↦ (m.num_request_blocks * reqs_per_block, _, ap (λ q. q ++ block) empty)
      | inr (a, rest, e) ↦ (a, rest ++ block, ap (λ q. q ++ block) e)
    ]

-- With a request in stock.
queue_request-Queued :
    (level : ℕ) (r : SlabRequest) (a : ℕ) (rest : List ℕ) (m : SlabRequestManager)
    → Inv m
    → level < m.max_level + 1
    → m.num_requests + 1 < 2 ^ 32
    → m.empty_requests ≡ a ∷ rest
    → (m' : SlabRequestManager) × (queue_request level r m ≡ ok tt m') × Queued level r m m'
unfolding queue_request
queue_request-Queued level r a rest m v inside small e =
    (requested level r a rest m, rw e refl, requested-Queued level r a rest m v inside small e)

block-Queued :
    (level : ℕ) (r : SlabRequest) (m m' : SlabRequestManager)
    → Queued level r (add_slab_request_block m) m'
    → Queued level r m m'
unfolding add_slab_request_block
block-Queued level r m m' q = record {
  number = q.number;
  inv = q.inv;
  last = q.last;
  holds = q.holds;
  levels = q.levels;
  others = q.others;
}

stock-empty :
    (m : SlabRequestManager)
    → is_nil m.empty_requests ≡ true
    → stock_requests m ≡ add_slab_request_block m
unfolding stock_requests
stock-empty m empty = rw empty refl

stock-there : (m : SlabRequestManager) → is_nil m.empty_requests ≡ false → stock_requests m ≡ m
unfolding stock_requests
stock-there m there = rw there refl

block-level : (m : SlabRequestManager) → (add_slab_request_block m).max_level ≡ m.max_level
unfolding add_slab_request_block
block-level m = refl

block-num : (m : SlabRequestManager) → (add_slab_request_block m).num_requests ≡ m.num_requests
unfolding add_slab_request_block
block-num m = refl

-- A level is an `int`: the upper half of the 32-bit patterns is negative, and no level reaches it.
safe_level-min :
    (level : ℕ) (m : SlabRequestManager)
    → m.max_level < 2 ^ 31
    → safe_level level m ≡ min level m.max_level
unfolding safe_level
safe_level-min level m small = ground arith

-- `AddRequest` at the level that `SafeLevel` gives.
add_request_lem :
    (level : ℕ) (r : SlabRequest) (m : SlabRequestManager)
    → Inv m
    → m.num_requests + 1 < 2 ^ 32
    → (m' : SlabRequestManager) × (add_request level r m ≡ ok tt m')
      × Queued (safe_level level m) r m m'
unfolding add_request
add_request_lem level r m v small = elim (Nil-cases m.empty_requests) [
  | inr (a, rest, e) ↦
      rw (stock-there m (ap is_nil e))
        (queue_request-Queued (safe_level level m) r a rest m v (safe_level-inside level m) small e)
  | inl empty ↦
      let (a, rest, e) = add_slab_request_block-front m in
      let (m', run, q) =
        queue_request-Queued (safe_level level m) r a rest (add_slab_request_block m)
          (add_slab_request_block-Inv m v)
          (ground (arith, safe_level-inside level m, block-level m)) (ground (arith, block-num m))
          e in
      (
        m',
        ap (queue_request (safe_level level m) r) (stock-empty m (ap is_nil empty)) ∙ run,
        block-Queued (safe_level level m) r m m' q,
      )
]

-- While each request stands in one list, the count of requests is right and does not overflow, and
-- the highest level is below 2 ^ 31, `AddRequest` returns, with the request behind the others of
-- its level, or of the highest level if its level is higher or negative; the other levels and the
-- requests queued before are as they were, and each request stands in one list.
pub add_request-Queued :
    (level : ℕ) (r : SlabRequest) (m : SlabRequestManager)
    → Inv m
    → m.num_requests + 1 < 2 ^ 32
    → (m' : SlabRequestManager) × (add_request level r m ≡ ok tt m')
      × Queued (min level m.max_level) r m m'
add_request-Queued level r m v small =
    let (m', run, q) = add_request_lem level r m v small in
    (m', run, subst (λ l. Queued l r m m') (safe_level-min level m v.small) q)

-- The front request of `level` leaves it and is empty again.
pub record Popped (level a : ℕ) (rest : List ℕ) (m m' : SlabRequestManager) : Type 0 where
  pub inv : Inv m'
  pub left : m'.request_lists level ≡ rest
  pub levels : (i : ℕ) → i ≢ level → m'.request_lists i ≡ m.request_lists i
  pub req : m'.req ≡ m.req
  pub max_level : m'.max_level ≡ m.max_level
  pub bounded : m'.num_requests < 2 ^ 32

abbrev popped : ℕ → ℕ → List ℕ → SlabRequestManager → SlabRequestManager
popped level a rest m = record m {
  request_lists = update m.request_lists level rest;
  num_requests = sub32 m.num_requests 1;
  empty_requests = m.empty_requests ++ (a ∷ []);
}

-- While each request stands in one list and the count of requests is right and below 2 ^ 32, on a
-- level that there is and that has a request, `FrontRequest` gives the oldest one, and
-- `PopFrontRequest` returns with just that one taken off the level, each request in one list and
-- the count right again.
pub pop_front_request-Popped :
    (level a : ℕ) (rest : List ℕ) (m : SlabRequestManager)
    → Inv m
    → level ≤ m.max_level
    → m.num_requests < 2 ^ 32
    → m.request_lists level ≡ a ∷ rest
    → (front_request level m ≡ ok (m.req a) m)
      × (m' : SlabRequestManager) × (pop_front_request level m ≡ ok tt m')
      × Popped level a rest m m'
unfolding front_request pop_front_request
pop_front_request-Popped level a rest m v below bounded e =
    let there : outside level m ≡ false = ground (arith, v.small) in
    let m' : SlabRequestManager = popped level a rest m in
    let times : (b : ℕ)
        → queued b m' + count b (m.request_lists level)
          ≡ queued b m + count b (m'.request_lists level) =
      λ b. sum_to-change (m.max_level + 1) level _ _ (omega arith) (λ i ne. ground arith) in
    let sizes : pending m' + length (m.request_lists level)
        ≡ pending m + length (m'.request_lists level) =
      sum_to-change (m.max_level + 1) level _ _ (omega arith) (λ i ne. ground arith) in
    (
      rw (there, e) refl,
      m',
      rw (there, e) refl,
      record {
        inv = record {
          once =
              λ b. ground (arith, v.once b, times b, e, count-append b m.empty_requests (a ∷ []));
          counted = ground (arith, v.counted, sizes, e);
          small = v.small;
        };
        left = ground arith;
        levels = λ i ne. ground arith;
        req = refl;
        max_level = refl;
        bounded = omega arith;
      },
    )
