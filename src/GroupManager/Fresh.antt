-- ===== src/GroupManager/Fresh.antt =====
-- `NewGroupStr`: while there are fewer than 9999 groups its loop comes to a free id.
use mcsb.Base.{
  find_free, ℕ, suc, zero, ◌+◌, ◌-◌, ◌≤◌, ◌<◌, ◌≡◌, ◌≢◌, refl, none, some, leb, lt→ltb,
  if◌then◌else◌, length, Option-cases, inl, inr, ok, arith,
}
use mcsb.GroupManager.{
  Name, Group, max_group_id, next_id, GroupManager, find_id, add_group, new_group_from,
  new_group_str,
}
use mcsb.GroupManager.Maps.{IsPaired}

-- How far a free id lies ahead of the next one.
abbrev rounds : ℕ → ℕ → ℕ
rounds n g = if leb n g then g - n else max_group_id + g - n

-- What is known of a new group's id.
unfoldable pub IsFresh : ℕ → GroupManager → Type 0
IsFresh gid m = (1 ≤ gid) × (gid ≤ max_group_id) × (find_id gid m ≡ none)

next_id_low : (n : ℕ) → n ≤ max_group_id → 1 ≤ next_id n
next_id_low n high = ground arith

next_id_high : (n : ℕ) → n ≤ max_group_id → next_id n ≤ max_group_id
next_id_high n high = ground arith

rounds-next_id :
    (fuel n g : ℕ)
    → 1 ≤ n
    → n ≤ max_group_id
    → g ≤ max_group_id
    → 1 ≤ g
    → n ≢ g
    → rounds n g < suc fuel
    → rounds (next_id n) g < fuel
rounds-next_id fuel n g low high g_high g_low other near = ground arith

ne_of_taken :
    (n g : ℕ) (m : GroupManager) {e : Group} → find_id n m ≡ some e → find_id g m ≡ none → n ≢ g
ne_of_taken n g m taken free same = grind arith

new_group_from-finds :
    (fuel : ℕ) (s : Name) (m : GroupManager) (g : ℕ)
    → length m.str_to_group_id < max_group_id
    → 1 ≤ m.next_new_group_id
    → m.next_new_group_id ≤ max_group_id
    → 1 ≤ g
    → g ≤ max_group_id
    → find_id g m ≡ none
    → rounds m.next_new_group_id g < fuel
    → (gid : ℕ) × (new_group_from fuel s m
        ≡ ok gid (add_group s gid (record m { next_new_group_id = next_id gid })))
      × IsFresh gid m
unfolding new_group_from add_group IsFresh
new_group_from-finds zero s m g room low high g_low g_high free near = absurd (omega arith)
new_group_from-finds (suc fuel) s m g room low high g_low g_high free near =
    elim (Option-cases (find_id m.next_new_group_id m)) [
      | inl none_there ↦ (
        m.next_new_group_id,
        rw (lt→ltb (length m.str_to_group_id) max_group_id room) (rw none_there refl),
        (low, high, none_there),
      )
      | inr (e, taken) ↦
          let other = ne_of_taken m.next_new_group_id g m taken free in
          let (gid, found, fresh) =
            new_group_from-finds fuel s
              (record m { next_new_group_id = next_id m.next_new_group_id }) g room
              (next_id_low m.next_new_group_id high) (next_id_high m.next_new_group_id high) g_low
              g_high free
              (rounds-next_id fuel m.next_new_group_id g low high g_high g_low other near) in
          (gid, rw (lt→ltb (length m.str_to_group_id) max_group_id room) (rw taken found), fresh)
    ]

rounds_lt :
    (n g : ℕ) → 1 ≤ n → n ≤ max_group_id → 1 ≤ g → g ≤ max_group_id → rounds n g < max_group_id
rounds_lt n g low high g_low g_high = ground arith

-- While the two maps are paired and there are fewer than 9999 groups, the loop of `NewGroupStr`
-- returns: with an id between 1 and 9999 that no group has, the new entries in both maps, and the
-- id behind it as the next one.
pub new_group_str-IsFresh :
    (s : Name) (m : GroupManager)
    → IsPaired m
    → length m.str_to_group_id < max_group_id
    → (gid : ℕ) × (new_group_str s m
        ≡ ok gid (add_group s gid (record m { next_new_group_id = next_id gid })))
      × IsFresh gid m
unfolding new_group_str
new_group_str-IsFresh s m p room =
    let as_many = p.as_many in
    let (g, above, below, free) = find_free max_group_id 1 m.group_id_to_str (omega arith) in
    new_group_from-finds max_group_id s m g room p.next_in_range.0 p.next_in_range.1 above
      (omega arith) free
      (rounds_lt m.next_new_group_id g p.next_in_range.0 p.next_in_range.1 above (omega arith))
