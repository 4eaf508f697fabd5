-- ===== src/GroupManager/Maps.antt =====
-- Equality of names, the invariant of the two maps, and what adding a group does to it.
use mcsb.Base.{
  ℕ, ◌≤◌, ◌≡◌, ◌↔◌, refl, sym, ◌∙◌, ◌==◌, ==_iff, true, false, [], ◌∷◌, none, some, length, Unique,
  lookup-insert_self, lookup-insert_ne, length-insert, Unique-insert, Bool-cases, inl, inr,
  false≢true, arith,
}
use mcsb.GroupManager.{
  Name, same_name, before_name, signed_lt, max_group_id, Group, GroupManager, find_str, find_id,
  add_group,
}

pub same_name_iff : (a b : Name) → (same_name a b ≡ true) ↔ (a ≡ b)
same_name_iff [] [] = ((λ h. refl), (λ h. refl))
same_name_iff [] (d ∷ ds) = ((λ h. absurd (false≢true h)), (λ h. cc))
same_name_iff (c ∷ cs) [] = ((λ h. absurd (false≢true h)), (λ h. cc))
same_name_iff (c ∷ cs) (d ∷ ds) = ground (arith, same_name_iff cs ds, ==_iff c d)

-- The two maps name each other's entries, no key stands twice, ids are those of `short`s from 1 to
-- 9999 and so is the next one, and no group has the empty name.
pub record IsPaired (m : GroupManager) : Type 0 where
  pub named :
      (s : Name) (gid : ℕ)
      → find_str s m ≡ some gid
      → (g : Group) × (find_id gid m ≡ some g) × (g.name ≡ s)
  pub numbered : (gid : ℕ) (g : Group) → find_id gid m ≡ some g → find_str g.name m ≡ some gid
  pub strs_unique : Unique same_name m.str_to_group_id
  pub ids_unique : Unique ◌==◌ m.group_id_to_str
  pub as_many : length m.str_to_group_id ≡ length m.group_id_to_str
  pub in_range : (gid : ℕ) (g : Group) → find_id gid m ≡ some g → (1 ≤ gid) × (gid ≤ max_group_id)
  pub next_in_range : (1 ≤ m.next_new_group_id) × (m.next_new_group_id ≤ max_group_id)

module _ (s : Name) (gid : ℕ) (m : GroupManager) (p : IsPaired m) (new : find_str s m ≡ none)
    (free : find_id gid m ≡ none) (low : 1 ≤ gid) (high : gid ≤ max_group_id) where
  pub find_str-add_self : find_str s (add_group s gid m) ≡ some gid
  unfolding add_group
  find_str-add_self =
      lookup-insert_self same_name before_name same_name_iff s gid m.str_to_group_id new

  pub find_id-add_self : find_id gid (add_group s gid m) ≡ some (record { name = s; uses = 0 })
  unfolding add_group
  find_id-add_self = lookup-insert_self ◌==◌ signed_lt ==_iff gid _ m.group_id_to_str free

  pub find_str-add_ne :
      (t : Name) → same_name t s ≡ false → find_str t (add_group s gid m) ≡ find_str t m
  unfolding add_group
  find_str-add_ne t h =
      lookup-insert_ne same_name before_name same_name_iff s t gid m.str_to_group_id h

  pub find_id-add_ne : (j : ℕ) → (j == gid) ≡ false → find_id j (add_group s gid m) ≡ find_id j m
  unfolding add_group
  find_id-add_ne j h = lookup-insert_ne ◌==◌ signed_lt ==_iff gid j _ m.group_id_to_str h

  add_group-named :
      (t : Name) (j : ℕ)
      → find_str t (add_group s gid m) ≡ some j
      → (g : Group) × (find_id j (add_group s gid m) ≡ some g) × (g.name ≡ t)
  add_group-named t j h = elim (Bool-cases (same_name t s)) [
    | inl e ↦
        let t_s : t ≡ s = (same_name_iff t s).0 e in
        let here = find_str-add_self in
        let there = find_id-add_self in (record { name = s; uses = 0 }, grind arith, sym t_s)
    | inr e ↦
        let (g, at, same) = p.named t j (sym (find_str-add_ne t e) ∙ h) in
        (g, find_id-add_ne j (other j g at) ∙ at, same)
  ]
    where
      other : (j : ℕ) (g : Group) → find_id j m ≡ some g → (j == gid) ≡ false
      other j g at = ground (arith, ==_iff j gid, free)

  add_group-numbered :
      (j : ℕ) (g : Group)
      → find_id j (add_group s gid m) ≡ some g
      → find_str g.name (add_group s gid m) ≡ some j
  add_group-numbered j g h = elim (Bool-cases (j == gid)) [
    | inl e ↦
        let here = find_str-add_self in
        let there = find_id-add_self in let j_gid = (==_iff j gid).0 e in grind arith
    | inr e ↦
        let old : find_str g.name m ≡ some j = p.numbered j g (sym (find_id-add_ne j e) ∙ h) in
        find_str-add_ne g.name (other g.name j old) ∙ old
  ]
    where
      other : (t : Name) (j : ℕ) → find_str t m ≡ some j → same_name t s ≡ false
      other t j old = grind (arith, same_name_iff t s, new)

  add_group-in_range :
      (j : ℕ) (g : Group) → find_id j (add_group s gid m) ≡ some g → (1 ≤ j) × (j ≤ max_group_id)
  add_group-in_range j g h = elim (Bool-cases (j == gid)) [
    | inl e ↦ ground (arith, ==_iff j gid)
    | inr e ↦ p.in_range j g (sym (find_id-add_ne j e) ∙ h)
  ]

  pub add_group-IsPaired : IsPaired (add_group s gid m)
  unfolding add_group
  add_group-IsPaired = record {
    named = add_group-named;
    numbered = add_group-numbered;
    strs_unique =
        Unique-insert same_name before_name same_name_iff s gid m.str_to_group_id new p.strs_unique;
    ids_unique = Unique-insert ◌==◌ signed_lt ==_iff gid _ m.group_id_to_str free p.ids_unique;
    as_many = omega (
      arith,
      p.as_many,
      length-insert same_name before_name same_name_iff s gid m.str_to_group_id new,
      length-insert ◌==◌ signed_lt ==_iff gid (record { name = s; uses = 0 }) m.group_id_to_str
          free,
    );
    in_range = add_group-in_range;
    next_in_range = p.next_in_range;
  }
