-- ===== src/GroupManager/Calls.antt =====
-- `GetGroupID`, `IncGroupID` and `DecGroupID` on the table of names and counts, and every history of calls.
use mcsb.Base.{
  ℕ, zero, suc, ◌+◌, ◌≤◌, ◌^◌, ◌≡◌, refl, ◌==◌, Bool, true, false, none, some, u32, sub32,
  if◌then◌else◌, leb, ltb, length, is_nil, Bool-cases, Option-cases, inl, inr, Outcome, final,
  Keeps, ok, throw, count_underflow, and_then-Keeps, arith,
}
use mcsb.GroupManager.{
  Name, max_group_id, no_group, not_found, next_id, Group, GroupManager, new_group_manager,
  find_str, find_id, add_group, new_group_from, new_group_str, inc_group_id, dec_group_id,
  get_group_id, count_use,
}
use mcsb.GroupManager.Maps.{IsPaired, add_group-IsPaired}
use mcsb.GroupManager.Fresh.{IsFresh, new_group_str-IsFresh}
use mcsb.GroupManager.Counts.{
  with_uses, with_uses-IsPaired, find_id-with_uses_self, without, without-IsPaired,
}

abbrev pub moved_on : ℕ → GroupManager → GroupManager
moved_on n m = record m { next_new_group_id = n }

pub moved_on-IsPaired :
    (n : ℕ) (m : GroupManager) → IsPaired m → 1 ≤ n → n ≤ max_group_id → IsPaired (moved_on n m)
moved_on-IsPaired n m p low high = record {
  named = p.named;
  numbered = p.numbered;
  strs_unique = p.strs_unique;
  ids_unique = p.ids_unique;
  as_many = p.as_many;
  in_range = p.in_range;
  next_in_range = (low, high);
}

pub next_id_range :
    (n : ℕ) → 1 ≤ n → n ≤ max_group_id → (1 ≤ next_id n) × (next_id n ≤ max_group_id)
next_id_range n low high = (ground arith, ground arith)

-- The state that `NewGroupStr` leaves behind with the id `gid`.
abbrev pub grown : Name → ℕ → GroupManager → GroupManager
grown s gid m = add_group s gid (moved_on (next_id gid) m)

pub grown-IsPaired :
    (s : Name) (gid : ℕ) (m : GroupManager)
    → IsPaired m
    → find_str s m ≡ none
    → IsFresh gid m
    → IsPaired (grown s gid m)
unfolding IsFresh
grown-IsPaired s gid m p new (low, high, free) =
    let (l, h) = next_id_range gid low high in
    add_group-IsPaired s gid (moved_on (next_id gid) m) (moved_on-IsPaired (next_id gid) m p l h)
      new free low high

new_group_from_full :
    (fuel : ℕ) (s : Name) (m : GroupManager)
    → ltb (length m.str_to_group_id) max_group_id ≡ false
    → new_group_from fuel s m ≡ ok no_group m
unfolding new_group_from
new_group_from_full zero s m full = rw full refl
new_group_from_full (suc fuel) s m full = rw full refl

new_group_str_full :
    (s : Name) (m : GroupManager)
    → ltb (length m.str_to_group_id) max_group_id ≡ false
    → new_group_str s m ≡ ok no_group m
unfolding new_group_str
new_group_str_full s m full = new_group_from_full max_group_id s m full

new_group_str-Keeps :
    (s : Name) (m : GroupManager)
    → IsPaired m
    → find_str s m ≡ none
    → IsPaired (final (new_group_str s m))
new_group_str-Keeps s m p new = elim (Bool-cases (ltb (length m.str_to_group_id) max_group_id)) [
  | inl room ↦
      let (gid, e, fresh) = new_group_str-IsFresh s m p (ground arith) in
      rw e (grown-IsPaired s gid m p new fresh)
  | inr full ↦ rw (new_group_str_full s m full) p
]

pub inc_group_id_found :
    (gid : ℕ) (g : Group) (m : GroupManager)
    → find_id gid m ≡ some g
    → inc_group_id gid m ≡ ok (u32 (g.uses + 1)) (with_uses gid (λ n. u32 (n + 1)) m)
unfolding inc_group_id
inc_group_id_found gid g m at = rw (at, inc_group_id) refl

inc_group_id_missing :
    (gid : ℕ) (m : GroupManager) → find_id gid m ≡ none → inc_group_id gid m ≡ ok not_found m
unfolding inc_group_id
inc_group_id_missing gid m no_such = rw (no_such, inc_group_id) refl

inc_group_id-Keeps : (gid : ℕ) → Keeps IsPaired (inc_group_id gid)
inc_group_id-Keeps gid m p = elim (Option-cases (find_id gid m)) [
  | inl e ↦ rw (inc_group_id_missing gid m e) p
  | inr (g, e) ↦ rw (inc_group_id_found gid g m e) (with_uses-IsPaired gid (λ n. u32 (n + 1)) m p)
]

count_use-Keeps : (inc : Bool) (gid : ℕ) → Keeps IsPaired (count_use inc gid)
unfolding count_use
count_use-Keeps false gid m p = p
count_use-Keeps true gid m p =
    and_then-Keeps IsPaired (inc_group_id gid m) (λ n m'. ok gid m') (inc_group_id-Keeps gid m p)
      (λ n m' p'. p')

-- `create ? NewGroupStr(groupStr) : -1`.
abbrev created : Bool → Name → GroupManager → Outcome GroupManager ℕ
created create s m = if create then new_group_str s m else ok no_group m

created-Keeps :
    (create : Bool) (s : Name) (m : GroupManager)
    → IsPaired m
    → find_str s m ≡ none
    → IsPaired (final (created create s m))
created-Keeps true s m p new = new_group_str-Keeps s m p new
created-Keeps false s m p new = p

get_group_id-Keeps : (s : Name) (create inc : Bool) → Keeps IsPaired (get_group_id s create inc)
unfolding get_group_id
get_group_id-Keeps s create inc m p = elim (Bool-cases (is_nil s)) [
  | inl e ↦ rw e p
  | inr e ↦ elim (Option-cases (find_str s m)) [
    | inr (gid, known) ↦ rw e (rw known (count_use-Keeps inc gid m p))
    | inl new ↦ rw e (
        rw new (
          and_then-Keeps IsPaired (created create s m) (count_use inc)
            (created-Keeps create s m p new) (count_use-Keeps inc)))
  ]
]

-- The state that `DecGroupID` leaves behind, by its new count.
abbrev pub lowered : ℕ → Group → GroupManager → GroupManager
lowered gid g m =
    let m1 = with_uses gid (λ n. sub32 g.uses 1) m in
    if sub32 g.uses 1 == 0 then without gid g.name m1 else m1

lowered-IsPaired :
    (gid : ℕ) (g : Group) (m : GroupManager)
    → IsPaired m
    → find_id gid m ≡ some g
    → IsPaired (lowered gid g m)
lowered-IsPaired gid g m p at =
    let m1 = with_uses gid (λ n. sub32 g.uses 1) m in
    let p1 : IsPaired m1 = with_uses-IsPaired gid (λ n. sub32 g.uses 1) m p in
    let at1 = find_id-with_uses_self gid (λ n. sub32 g.uses 1) m p g at in
    elim (Bool-cases (sub32 g.uses 1 == 0)) [
      | inl e ↦ rw e (without-IsPaired gid (record g { uses = sub32 g.uses 1 }) m1 p1 at1)
      | inr e ↦ rw e p1
    ]

pub dec_group_id_found :
    (gid : ℕ) (g : Group) (m : GroupManager)
    → find_id gid m ≡ some g
    → dec_group_id gid m ≡ (
        if leb (2 ^ 31) (sub32 g.uses 1)
        then throw count_underflow (lowered gid g m)
        else ok (sub32 g.uses 1) (lowered gid g m))
unfolding dec_group_id
dec_group_id_found gid g m at = elim (Bool-cases (sub32 g.uses 1 == 0)) [
  | inl e ↦
      let low : leb (2 ^ 31) (sub32 g.uses 1) ≡ false = ground arith in
      rw (at, dec_group_id) (rw e (rw low refl))
  | inr e ↦ rw (at, dec_group_id) (rw e refl)
]

dec_group_id_missing :
    (gid : ℕ) (m : GroupManager) → find_id gid m ≡ none → dec_group_id gid m ≡ ok not_found m
unfolding dec_group_id
dec_group_id_missing gid m no_such = rw (no_such, dec_group_id) refl

dec_group_id-Keeps : (gid : ℕ) → Keeps IsPaired (dec_group_id gid)
dec_group_id-Keeps gid m p = elim (Option-cases (find_id gid m)) [
  | inl e ↦ rw (dec_group_id_missing gid m e) p
  | inr (g, e) ↦
      let p' = lowered-IsPaired gid g m p e in
      elim (Bool-cases (leb (2 ^ 31) (sub32 g.uses 1))) [
        | inl t ↦ rw (dec_group_id_found gid g m e) (rw t p')
        | inr t ↦ rw (dec_group_id_found gid g m e) (rw t p')
      ]
]

-- A client's calls on the manager, in any order; one that throws leaves its state behind.
pub data Call : Type 0 where
  get_id : Name → Bool → Bool → Call
  inc_id dec_id : ℕ → Call

abbrev pub make_call : Call → GroupManager → GroupManager
make_call (get_id s create inc) m = final (get_group_id s create inc m)
make_call (inc_id gid) m = final (inc_group_id gid m)
make_call (dec_id gid) m = final (dec_group_id gid m)

pub data Reachable : GroupManager → Type 0 where
  start : Reachable new_group_manager
  step : (c : Call) {m : GroupManager} → Reachable m → Reachable (make_call c m)

new_group_manager-IsPaired : IsPaired new_group_manager
new_group_manager-IsPaired = record {
  named = λ s gid e. cc;
  numbered = λ gid g e. cc;
  strs_unique = tt;
  ids_unique = tt;
  as_many = refl;
  in_range = λ gid g e. cc;
  next_in_range = (omega arith, omega arith);
}

make_call-IsPaired : (c : Call) (m : GroupManager) → IsPaired m → IsPaired (make_call c m)
make_call-IsPaired (get_id s create inc) m p = get_group_id-Keeps s create inc m p
make_call-IsPaired (inc_id gid) m p = inc_group_id-Keeps gid m p
make_call-IsPaired (dec_id gid) m p = dec_group_id-Keeps gid m p

-- After any calls of `GetGroupID`, `IncGroupID` and `DecGroupID` on a new group manager, also ones
-- that throw, the two maps are paired: each entry of one has its counterpart in the other, no key
-- stands twice, the maps are of one size, and the ids and the next id are between 1 and 9999.
pub Reachable-IsPaired : (m : GroupManager) → Reachable m → IsPaired m
Reachable-IsPaired _ start = new_group_manager-IsPaired
Reachable-IsPaired _ (step c {m} r) = make_call-IsPaired c m (Reachable-IsPaired m r)
