-- ===== src/GroupManager.antt =====
-- apps/MCSBManager/GroupManager.cc and apps/MCSBManager/MCSB/GroupManager.h: the ids of named groups. The two maps
-- are lists in the order of their keys. A `short` id is its 16-bit pattern, an `int` count its
-- 32-bit pattern, and a string the list of its characters' codes.
use mcsb.Base.{
  ℕ, zero, suc, ◌+◌, ◌-◌, ◌^◌, ◌==◌, Bool, true, false, ◌&&◌, ◌||◌, List, [], ◌∷◌, map, Option,
  none, some, ltb, leb, if◌then◌else◌, u16, u32, sub32, length, is_nil, lookup, insert, remove,
  modify, Outcome, Proc, ok, throw, ◌>>=◌, and_then, count_underflow, out_of_fuel,
}
pub mod Maps
pub mod Fresh
pub mod Counts
pub mod Uses
pub mod Calls
pub mod Refines
mod Tests

-- `std::string`, its test of equality and its order.
abbrev pub Name : Type 0
Name = List ℕ

abbrev pub same_name : Name → Name → Bool
same_name [] [] = true
same_name [] (d ∷ ds) = false
same_name (c ∷ cs) [] = false
same_name (c ∷ cs) (d ∷ ds) = (c == d) && same_name cs ds

abbrev pub before_name : Name → Name → Bool
before_name [] [] = false
before_name [] (d ∷ ds) = true
before_name (c ∷ cs) [] = false
before_name (c ∷ cs) (d ∷ ds) = ltb c d || ((c == d) && before_name cs ds)

-- The order of two `short`s: the negative ones, from 2 ^ 15 on, come first.
abbrev pub signed_lt : ℕ → ℕ → Bool
signed_lt a b = ltb (u16 (a + 2 ^ 15)) (u16 (b + 2 ^ 15))

abbrev pub max_group_id : ℕ
max_group_id = 9999

-- The 16-bit and the 32-bit pattern of -1.
abbrev pub no_group : ℕ
no_group = 2 ^ 16 - 1

abbrev pub not_found : ℕ
not_found = 2 ^ 32 - 1

-- The pair that `groupIDToStr` holds.
pub record Group : Type 0 where
  pub name : Name
  pub uses : ℕ

pub record GroupManager : Type 0 where
  pub str_to_group_id : List (Name × ℕ)
  pub group_id_to_str : List (ℕ × Group)
  pub next_new_group_id : ℕ

abbrev pub new_group_manager : GroupManager
new_group_manager = record { str_to_group_id = []; group_id_to_str = []; next_new_group_id = 1 }

abbrev pub find_str : Name → GroupManager → Option ℕ
find_str s m = lookup same_name s m.str_to_group_id

abbrev pub find_id : ℕ → GroupManager → Option Group
find_id gid m = lookup ◌==◌ gid m.group_id_to_str

-- What `nextNewGroupID++` leaves behind, set back to 1 behind the last id.
abbrev pub next_id : ℕ → ℕ
next_id n = if signed_lt max_group_id (u16 (n + 1)) then 1 else u16 (n + 1)

-- The new entries of both maps.
pub add_group : Name → ℕ → GroupManager → GroupManager
add_group s gid m = record m {
  str_to_group_id = insert same_name before_name s gid m.str_to_group_id;
  group_id_to_str = insert ◌==◌ signed_lt gid (record { name = s; uses = 0 }) m.group_id_to_str;
}

-- The loop, for at most `fuel` rounds.
pub new_group_from : ℕ → Name → Proc GroupManager ℕ
unfolding add_group
new_group_from zero s m =
    if ltb (length m.str_to_group_id) max_group_id then throw out_of_fuel m else ok no_group m
new_group_from (suc fuel) s m =
    let gid = m.next_new_group_id in
    let m1 : GroupManager = record m { next_new_group_id = next_id gid } in
    let again = new_group_from fuel s m1 in
    if ltb (length m.str_to_group_id) max_group_id
    then elim (find_id gid m) [ none ↦ ok gid (add_group s gid m1) | some e ↦ again ]
    else ok no_group m

-- Each round tries another id, so there are no more rounds than ids.
pub new_group_str : Name → Proc GroupManager ℕ
unfolding new_group_from
new_group_str s = new_group_from max_group_id s

pub inc_group_id : ℕ → Proc GroupManager ℕ
inc_group_id gid m = elim (find_id gid m) [
  | none ↦ ok not_found m
  | some g ↦ ok (u32 (g.uses + 1)) (record m {
    group_id_to_str =
        modify ◌==◌ gid (λ g'. record g' { uses = u32 (g'.uses + 1) }) m.group_id_to_str;
  })
]

-- `if (inc) IncGroupID(gid); return gid;`.
pub count_use : Bool → ℕ → Proc GroupManager ℕ
unfolding inc_group_id
count_use inc gid m = if inc then and_then (inc_group_id gid m) (λ n m'. ok gid m') else ok gid m

pub get_group_id : Name → Bool → Bool → Proc GroupManager ℕ
unfolding count_use new_group_str
get_group_id s create inc m = if is_nil s then ok 0 m else elim (find_str s m) [
  | some gid ↦ count_use inc gid m
  | none ↦ and_then (if create then new_group_str s m else ok no_group m) (count_use inc)
]

pub get_group_str : ℕ → GroupManager → Option Name
get_group_str gid m = elim (find_id gid m) [ none ↦ none | some g ↦ some g.name ]

-- The count is lowered before its sign is looked at, so the throw leaves it lowered.
pub dec_group_id : ℕ → Proc GroupManager ℕ
dec_group_id gid m = elim (find_id gid m) [
  | none ↦ ok not_found m
  | some g ↦
      let n = sub32 g.uses 1 in
      let m1 : GroupManager = record m {
        group_id_to_str = modify ◌==◌ gid (λ g'. record g' { uses = n }) m.group_id_to_str;
      } in
      if n == 0
      then ok n (record m1 {
        str_to_group_id = remove same_name g.name m1.str_to_group_id;
        group_id_to_str = remove ◌==◌ gid m1.group_id_to_str;
      })
      else if leb (2 ^ 31) n
      then throw count_underflow m1
      else ok n m1
]

pub num_groups : GroupManager → ℕ
num_groups m = u32 (length m.str_to_group_id)

-- The result and the ids written into an array with room for `count`.
pub get_groups : ℕ → GroupManager → ℕ × List ℕ
unfolding num_groups
get_groups count m =
    if ltb count (num_groups m)
    then (sub32 0 (num_groups m), [])
    else (num_groups m, map (λ e. e.0) m.group_id_to_str)
