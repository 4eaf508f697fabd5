-- ===== src/GroupManager/Tests.antt =====
-- Runs of the group manager, and the theorems at them.
use mcsb.Base.{ℕ, ◌≡◌, refl, true, [], ◌∷◌, inl, ok, arith}
use mcsb.GroupManager.{
  Name, next_id, GroupManager, new_group_manager, add_group, new_group_str, get_group_id,
  dec_group_id, get_groups,
}
use mcsb.GroupManager.Maps.{IsPaired}
use mcsb.GroupManager.Fresh.{IsFresh, new_group_str-IsFresh}
use mcsb.GroupManager.Uses.{uses_of}
use mcsb.GroupManager.Calls.{get_id, make_call, Reachable, start, step, Reachable-IsPaired}
use mcsb.GroupManager.Refines.{Counted, unused, get_group_id-used, dec_group_id-unused}

abbrev video : Name
video = 118 ∷ []

abbrev audio : Name
audio = 97 ∷ []

-- Two groups; the first is used twice.
abbrev two_groups : GroupManager
two_groups = record {
  str_to_group_id = (audio, 2) ∷ (video, 1) ∷ [];
  group_id_to_str =
      (1, record { name = video; uses = 2 }) ∷ (2, record { name = audio; uses = 1 }) ∷ [];
  next_new_group_id = 3;
}

abbrev calls : GroupManager
calls =
    make_call (get_id audio true true)
      (make_call (get_id video true true) (make_call (get_id video true true) new_group_manager))

calls-two_groups : calls ≡ two_groups
unfolding get_group_id
calls-two_groups = refl

two_groups-Reachable : Reachable calls
two_groups-Reachable =
    step (get_id audio true true)
      (step (get_id video true true) (step (get_id video true true) start))

get_groups-two_groups : get_groups 2 two_groups ≡ (2, 1 ∷ 2 ∷ [])
unfolding get_groups
get_groups-two_groups = refl

new_group_str-IsFresh_example :
    (gid : ℕ) × (new_group_str video new_group_manager
      ≡ ok gid (add_group video gid (record new_group_manager { next_new_group_id = next_id gid })))
    × IsFresh gid new_group_manager
new_group_str-IsFresh_example =
    new_group_str-IsFresh video new_group_manager (Reachable-IsPaired new_group_manager start)
      (omega arith)

Reachable-IsPaired_example : IsPaired calls
Reachable-IsPaired_example = Reachable-IsPaired calls two_groups-Reachable

get_group_id-used_example : (gid : ℕ) × (m' : GroupManager) × Counted video calls gid m'
unfolding get_group_id
get_group_id-used_example =
    get_group_id-used video calls (Reachable-IsPaired calls two_groups-Reachable) refl
      (inl (1, refl))

dec_group_id-unused_example :
    (m' : GroupManager) × (dec_group_id 1 calls ≡ ok 1 m')
    × ((t : Name) → uses_of m' t ≡ unused video (uses_of calls) t)
unfolding get_group_id
dec_group_id-unused_example =
    dec_group_id-unused 1 (record { name = video; uses = 2 }) calls
      (Reachable-IsPaired calls two_groups-Reachable) refl (omega arith) (omega arith)
