-- ===== src/SlabRequests/Tests.antt =====
-- The request manager's theorems with two requests on level 1 and one on level 3.
use mcsb.Base.{ℕ, ◌≤◌, ◌≡◌, refl, [], ◌∷◌, arith, ◌==◌, if◌then◌else◌, ok}
use mcsb.SlabRequests.{
  SlabRequestManager, numbers_from, add_request, lowest_level_pending, front_request,
  pop_front_request, reset,
}
use mcsb.SlabRequests.Levels.{
  Inv, Queued, Popped, count-numbers_from, add_request-Queued, pop_front_request-Popped,
}
use mcsb.SlabRequests.Lowest.{IsLowest, lowest_level_pending-IsLowest}
use mcsb.SlabRequests.Reset.{reset-empties}

abbrev requests : SlabRequestManager
requests = record {
  max_level = 3;
  num_requests = 3;
  request_lists = λ i. if i == 1 then 2 ∷ 0 ∷ [] else if i == 3 then 1 ∷ [] else [];
  num_request_blocks = 1;
  empty_requests = numbers_from 253 3;
  req = λ a. record { id = 7; num_slabs = a; arg = 0 };
}

requests-Inv : Inv requests
requests-Inv = record {
  once = λ a. ground (arith, count-numbers_from a 253 3);
  counted = refl;
  small = omega arith;
}

-- There is no level 9.
add_request-Queued_example :
    (m' : SlabRequestManager) × (add_request 9 (record { id = 8; num_slabs = 2; arg = 0 }) requests
      ≡ ok tt m')
    × Queued 3 (record { id = 8; num_slabs = 2; arg = 0 }) requests m'
add_request-Queued_example =
    add_request-Queued 9 (record { id = 8; num_slabs = 2; arg = 0 }) requests requests-Inv
      (omega arith)

pop_front_request-Popped_example :
    (front_request 1 requests ≡ ok (requests.req 2) requests)
    × (m' : SlabRequestManager) × (pop_front_request 1 requests ≡ ok tt m')
    × Popped 1 2 (0 ∷ []) requests m'
pop_front_request-Popped_example =
    pop_front_request-Popped 1 2 (0 ∷ []) requests requests-Inv (omega arith) (omega arith) refl

lowest_level_pending-IsLowest_example : IsLowest (lowest_level_pending requests) requests
lowest_level_pending-IsLowest_example = lowest_level_pending-IsLowest requests requests-Inv

reset-empties_example :
    (m' : SlabRequestManager) × (reset requests ≡ ok tt m')
    × (Inv m')
    × (m'.num_requests ≡ 0)
    × ((i : ℕ) → i ≤ requests.max_level → m'.request_lists i ≡ [])
reset-empties_example = reset-empties requests requests-Inv (omega arith)
