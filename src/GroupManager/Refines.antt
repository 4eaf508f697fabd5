-- ===== src/GroupManager/Refines.antt =====
-- The group manager as the table of names and counts that its clients see.
use mcsb.Base.{
  ℕ, ◌+◌, ◌-◌, ◌≤◌, ◌<◌, ◌^◌, ◌≡◌, refl, sym, ap, ◌∙◌, ◌==◌, true, false, Option, none, some, u32,
  sub32, if◌then◌else◌, leb, length, is_nil, Bool-cases, Option-cases, ◌⊎◌, inl, inr, ok, throw,
  count_underflow, arith,
}
use mcsb.GroupManager.{
  Name, same_name, max_group_id, next_id, Group, GroupManager, find_str, find_id, dec_group_id,
  get_group_id, get_group_str, count_use, new_group_str,
}
use mcsb.GroupManager.Maps.{IsPaired, find_id-add_self}
use mcsb.GroupManager.Fresh.{IsFresh, new_group_str-IsFresh}
use mcsb.GroupManager.Counts.{with_uses, find_id-with_uses_self, with_uses-IsPaired}
use mcsb.GroupManager.Uses.{
  Table, put, uses_of, uses_of-found, uses_of-missing, uses_of-with_uses, uses_of-without,
  uses_of-add_group,
}
use mcsb.GroupManager.Calls.{
  moved_on, grown, grown-IsPaired, next_id_range, moved_on-IsPaired, lowered, dec_group_id_found,
  inc_group_id_found,
}

-- A use more of a name, and a use less; the last use takes the name out.
abbrev pub count_in : Option ℕ → ℕ
count_in none = 0
count_in (some n) = n

abbrev pub used : Name → Table → Table
used s f = put s (some (u32 (count_in (f s) + 1))) f

abbrev pub left : ℕ → Option ℕ
left n = if n == 0 then none else some n

abbrev pub unused : Name → Table → Table
unused s f = put s (left (count_in (f s) - 1)) f

put-put :
    (s : Name) (a b : Option ℕ) (f g : Table) (t : Name)
    → g t ≡ put s b f t
    → put s a g t ≡ put s a f t
put-put s a b f g t e = elim (Bool-cases (same_name t s)) [
  | inl h ↦ rw h refl
  | inr h ↦ ground (arith, e)
]

put-same : (s : Name) (a b : Option ℕ) (f : Table) (t : Name) → a ≡ b → put s a f t ≡ put s b f t
put-same s a b f t e = ap (λ o. put s o f t) e

-- A use counted at a group that is there.
abbrev pub Counted : Name → GroupManager → ℕ → GroupManager → Type 0
Counted s m gid m' =
    (get_group_id s true true m ≡ ok gid m')
    × (get_group_str gid m' ≡ some s)
    × ((t : Name) → uses_of m' t ≡ used s (uses_of m) t)

count_use_found :
    (gid : ℕ) (g : Group) (m : GroupManager)
    → find_id gid m ≡ some g
    → count_use true gid m ≡ ok gid (with_uses gid (λ n. u32 (n + 1)) m)
unfolding count_use
count_use_found gid g m at = rw (inc_group_id_found gid g m at) refl

get_group_str_found :
    (gid : ℕ) (g : Group) (m : GroupManager)
    → find_id gid m ≡ some g
    → get_group_str gid m ≡ some g.name
unfolding get_group_str
get_group_str_found gid g m at = rw (at, get_group_str) refl

get_known :
    (s : Name) (gid : ℕ) (g : Group) (m : GroupManager)
    → IsPaired m
    → is_nil s ≡ false
    → find_str s m ≡ some gid
    → find_id gid m ≡ some g
    → g.name ≡ s
    → Counted s m gid (with_uses gid (λ n. u32 (n + 1)) m)
unfolding get_group_id
get_known s gid g m p full str id name =
    let h : ℕ → ℕ = λ n. u32 (n + 1) in
    (
      rw full (rw (str, get_group_id) (count_use_found gid g m id)),
      get_group_str_found gid (record g { uses = h g.uses }) (with_uses gid h m)
            (find_id-with_uses_self gid h m p g id)
          ∙ ap some name,
      λ t.
          uses_of-with_uses gid g m p id h t
          ∙ ap (λ u. put u (some (h g.uses)) (uses_of m) t) name
          ∙ put-same s (some (h g.uses)) (some (h (count_in (uses_of m s)))) (uses_of m) t
              (ap (λ o. some (h (count_in o))) (sym (uses_of-found m s gid g str id))),
    )

get_new :
    (s : Name) (gid : ℕ) (m : GroupManager)
    → IsPaired m
    → is_nil s ≡ false
    → find_str s m ≡ none
    → new_group_str s m ≡ ok gid (grown s gid m)
    → IsFresh gid m
    → Counted s m gid (with_uses gid (λ n. u32 (n + 1)) (grown s gid m))
unfolding get_group_id IsFresh
get_new s gid m p full new made fresh =
    let h : ℕ → ℕ = λ n. u32 (n + 1) in
    let (low, high, free) = fresh in
    let (l, r) = next_id_range gid low high in
    let p0 = moved_on-IsPaired (next_id gid) m p l r in
    let p1 = grown-IsPaired s gid m p new fresh in
    let g : Group = record { name = s; uses = 0 } in
    let id : find_id gid (grown s gid m) ≡ some g =
      find_id-add_self s gid (moved_on (next_id gid) m) p0 new free low high in
    (
      rw full (rw (new, get_group_id) (rw made (count_use_found gid g (grown s gid m) id))),
      get_group_str_found gid (record g { uses = h g.uses }) (with_uses gid h (grown s gid m))
          (find_id-with_uses_self gid h (grown s gid m) p1 g id),
      λ t.
          uses_of-with_uses gid g (grown s gid m) p1 id h t
          ∙ put-put s (some (h 0)) (some 0) (uses_of m) (uses_of (grown s gid m)) t
              (uses_of-add_group s gid (moved_on (next_id gid) m) p0 new free low high t)
          ∙ put-same s (some (h 0)) (some (h (count_in (uses_of m s)))) (uses_of m) t
              (ap (λ o. some (h (count_in o))) (sym (uses_of-missing m s new))),
    )

-- While the two maps are paired, a name that is not empty and has a group, or else while there are
-- fewer than 9999 groups, is given an id by `GetGroupID` with creation and counting: the id stands
-- for that name afterwards, and the table of names and their counts of uses is as before but for
-- one use more of the name.
pub get_group_id-used :
    (s : Name) (m : GroupManager)
    → IsPaired m
    → is_nil s ≡ false
    → ((gid : ℕ) × (find_str s m ≡ some gid)) ⊎ (length m.str_to_group_id < max_group_id)
    → (gid : ℕ) × (m' : GroupManager) × Counted s m gid m'
get_group_id-used s m p full room = elim (Option-cases (find_str s m)) [
  | inr (gid, str) ↦
      let (g, id, name) = p.named s gid str in (gid, _, get_known s gid g m p full str id name)
  | inl new ↦
      let (gid, made, fresh) = new_group_str-IsFresh s m p (has_room new room) in
      (gid, _, get_new s gid m p full new made fresh)
]
  where
    has_room :
        find_str s m ≡ none
        → ((gid : ℕ) × (find_str s m ≡ some gid)) ⊎ (length m.str_to_group_id < max_group_id)
        → length m.str_to_group_id < max_group_id
    has_room new (inl (gid, str)) = absurd (grind arith)
    has_room new (inr r) = r

returned :
    (n n' : ℕ) (m : GroupManager)
    → n ≡ n'
    → n' < 2 ^ 31
    → (if leb (2 ^ 31) n then throw count_underflow m else ok n m) ≡ ok n' m
returned n n' m e small = rw (sym e) (go (ground arith))
  where
    go :
        leb (2 ^ 31) n ≡ false
        → (if leb (2 ^ 31) n then throw count_underflow m else ok n m) ≡ ok n m
    go h = rw h refl

lowered-unused :
    (gid : ℕ) (g : Group) (m : GroupManager) (p : IsPaired m) (at : find_id gid m ≡ some g)
    (t : Name)
    → uses_of (lowered gid g m) t ≡ put g.name (left (sub32 g.uses 1)) (uses_of m) t
lowered-unused gid g m p at t =
    let h : ℕ → ℕ = λ n. sub32 g.uses 1 in
    let g1 : Group = record g { uses = sub32 g.uses 1 } in
    let m1 = with_uses gid h m in
    let p1 : IsPaired m1 = with_uses-IsPaired gid h m p in
    let at1 = find_id-with_uses_self gid h m p g at in
    elim (Bool-cases (sub32 g.uses 1 == 0)) [
      | inl e ↦ rw e (
          uses_of-without gid g1 m1 p1 at1 t
          ∙ put-put g.name none (some (sub32 g.uses 1)) (uses_of m) (uses_of m1) t
              (uses_of-with_uses gid g m p at h t))
      | inr e ↦ rw e (uses_of-with_uses gid g m p at h t)
    ]

-- While the two maps are paired, `DecGroupID` of a group with at least one and at most 2 ^ 31 uses
-- returns the lowered count, and the table of names and their counts of uses is as before but for
-- one use less of the group's name, which is taken out with its last use.
pub dec_group_id-unused :
    (gid : ℕ) (g : Group) (m : GroupManager)
    → IsPaired m
    → find_id gid m ≡ some g
    → 1 ≤ g.uses
    → g.uses ≤ 2 ^ 31
    → (m' : GroupManager) × (dec_group_id gid m ≡ ok (g.uses - 1) m')
      × ((t : Name) → uses_of m' t ≡ unused g.name (uses_of m) t)
dec_group_id-unused gid g m p at low high =
    let n : sub32 g.uses 1 ≡ g.uses - 1 = omega arith in
    let was = uses_of-found m g.name gid g (p.numbered gid g at) at in
    (
      lowered gid g m,
      dec_group_id_found gid g m at
          ∙ returned (sub32 g.uses 1) (g.uses - 1) (lowered gid g m) n (omega arith),
      λ t.
          lowered-unused gid g m p at t
          ∙ put-same g.name (left (sub32 g.uses 1)) (left (count_in (uses_of m g.name) - 1))
              (uses_of m) t (ap left n ∙ ap (λ o. left (count_in o - 1)) (sym was)),
    )
