-- ===== src/GroupManager/Counts.antt =====
-- The invariant of the two maps through every operation, and the counts that the ids stand for.
use mcsb.Base.{
  ℕ, ◌≡◌, sym, ap, ◌∙◌, ◌==◌, ==_iff, false, none, some, remove, modify, lookup-modify_self,
  lookup-modify_ne, lookup-modify_inv, length-modify, Unique-modify, lookup-remove_ne,
  lookup-remove_self, length-remove, Unique-remove, Bool-cases, inl, inr, arith,
}
use mcsb.GroupManager.{
  Name, same_name, before_name, signed_lt, Group, GroupManager, find_str, find_id,
}
use mcsb.GroupManager.Maps.{same_name_iff, IsPaired}

module _ (gid : ℕ) (h : ℕ → ℕ) where
  abbrev pub with_uses : GroupManager → GroupManager
  with_uses m = record m {
    group_id_to_str = modify ◌==◌ gid (λ g'. record g' { uses = h g'.uses }) m.group_id_to_str;
  }

  module _ (m : GroupManager) (p : IsPaired m) where
    pub find_id-with_uses_ne : (j : ℕ) → (j == gid) ≡ false → find_id j (with_uses m) ≡ find_id j m
    find_id-with_uses_ne j e = lookup-modify_ne ◌==◌ signed_lt ==_iff gid j _ m.group_id_to_str e

    pub find_id-with_uses_self :
        (g : Group)
        → find_id gid m ≡ some g
        → find_id gid (with_uses m) ≡ some (record g { uses = h g.uses })
    find_id-with_uses_self g e = lookup-modify_self ◌==◌ signed_lt ==_iff gid _ m.group_id_to_str e

    -- Every entry of the changed map comes from one with the same name.
    find_id-with_uses :
        (j : ℕ) (g : Group)
        → find_id j (with_uses m) ≡ some g
        → (g' : Group) × (find_id j m ≡ some g') × (g'.name ≡ g.name)
    find_id-with_uses j g at =
        let (g', was, is) =
          lookup-modify_inv ◌==◌ signed_lt ==_iff gid j _ {v = g} m.group_id_to_str at in
        (g', was, ground (arith, is))

    pub with_uses-IsPaired : IsPaired (with_uses m)
    with_uses-IsPaired = record {
      named = λ s j e.
          let (g, at, name) = p.named s j e in
          elim (Bool-cases (j == gid)) [
            | inl t ↦
                let j_gid = (==_iff j gid).0 t in
                (
                  record g { uses = h g.uses },
                  ap (λ i. find_id i (with_uses m)) j_gid
                      ∙ find_id-with_uses_self g (ap (λ i. find_id i m) (sym j_gid) ∙ at),
                  name,
                )
            | inr t ↦ (g, find_id-with_uses_ne j t ∙ at, name)
          ];
      numbered = λ j g at.
          let (g', was, name) = find_id-with_uses j g at in
          ap (λ t. find_str t m) (sym name) ∙ p.numbered j g' was;
      strs_unique = p.strs_unique;
      ids_unique = Unique-modify ◌==◌ signed_lt ==_iff gid _ m.group_id_to_str p.ids_unique;
      as_many = p.as_many ∙ sym (length-modify ◌==◌ signed_lt ==_iff gid _ m.group_id_to_str);
      in_range = λ j g at. let (g', was, name) = find_id-with_uses j g at in p.in_range j g' was;
      next_in_range = p.next_in_range;
    }

-- Both entries of a group, taken out.
abbrev pub without : ℕ → Name → GroupManager → GroupManager
without gid s m = record m {
  str_to_group_id = remove same_name s m.str_to_group_id;
  group_id_to_str = remove ◌==◌ gid m.group_id_to_str;
}

module _ (gid : ℕ) (g : Group) (m : GroupManager) (p : IsPaired m)
    (at : find_id gid m ≡ some g) where
  pub find_id-without_self : find_id gid (without gid g.name m) ≡ none
  find_id-without_self = lookup-remove_self ◌==◌ signed_lt ==_iff gid m.group_id_to_str p.ids_unique

  pub find_str-without_self : find_str g.name (without gid g.name m) ≡ none
  find_str-without_self =
      lookup-remove_self same_name before_name same_name_iff g.name m.str_to_group_id p.strs_unique

  pub find_id-without_ne :
      (j : ℕ) → (j == gid) ≡ false → find_id j (without gid g.name m) ≡ find_id j m
  find_id-without_ne j e = lookup-remove_ne ◌==◌ signed_lt ==_iff gid j m.group_id_to_str e

  pub find_str-without_ne :
      (t : Name) → same_name t g.name ≡ false → find_str t (without gid g.name m) ≡ find_str t m
  find_str-without_ne t e =
      lookup-remove_ne same_name before_name same_name_iff g.name t m.str_to_group_id e

  -- The entries that stay are the others.
  find_id-without :
      (j : ℕ) (g' : Group)
      → find_id j (without gid g.name m) ≡ some g'
      → ((j == gid) ≡ false) × (find_id j m ≡ some g')
  find_id-without j g' e = elim (Bool-cases (j == gid)) [
    | inl t ↦
        let gone = find_id-without_self in let same = (==_iff j gid).0 t in absurd (grind arith)
    | inr t ↦ (t, sym (find_id-without_ne j t) ∙ e)
  ]

  find_str-without :
      (t : Name) (j : ℕ)
      → find_str t (without gid g.name m) ≡ some j
      → (same_name t g.name ≡ false) × (find_str t m ≡ some j)
  find_str-without t j e = elim (Bool-cases (same_name t g.name)) [
    | inl u ↦
        let gone = find_str-without_self in
        let same = (same_name_iff t g.name).0 u in absurd (grind arith)
    | inr u ↦ (u, sym (find_str-without_ne t u) ∙ e)
  ]

  pub id_apart :
      (s : Name) (j : ℕ) (g' : Group)
      → find_id j m ≡ some g'
      → g'.name ≡ s
      → same_name s g.name ≡ false
      → (j == gid) ≡ false
  id_apart s j g' there name other = elim (Bool-cases (j == gid)) [
    | inl t ↦
        let same = (==_iff j gid).0 t in
        let eq = (same_name_iff s g.name).1 in absurd (grind (arith, at))
    | inr t ↦ t
  ]

  name_apart :
      (j : ℕ) (g' : Group)
      → find_id j m ≡ some g'
      → (j == gid) ≡ false
      → same_name g'.name g.name ≡ false
  name_apart j g' there other = elim (Bool-cases (same_name g'.name g.name)) [
    | inl t ↦
        let same = (same_name_iff g'.name g.name).0 t in
        let here = p.numbered gid g at in
        let j_str = p.numbered j g' there in
        let j_gid : j ≡ gid = grind arith in absurd (ground arith)
    | inr t ↦ t
  ]

  pub without-IsPaired : IsPaired (without gid g.name m)
  without-IsPaired = record {
    named = λ s j e.
        let (other, was) = find_str-without s j e in
        let (g', there, name) = p.named s j was in
        (g', find_id-without_ne j (id_apart s j g' there name other) ∙ there, name);
    numbered = λ j g' e.
        let (other, was) = find_id-without j g' e in
        find_str-without_ne g'.name (name_apart j g' was other) ∙ p.numbered j g' was;
    strs_unique =
        Unique-remove same_name before_name same_name_iff g.name m.str_to_group_id p.strs_unique;
    ids_unique = Unique-remove ◌==◌ signed_lt ==_iff gid m.group_id_to_str p.ids_unique;
    as_many = omega (
      arith,
      p.as_many,
      length-remove same_name before_name same_name_iff g.name m.str_to_group_id
          (p.numbered gid g at),
      length-remove ◌==◌ signed_lt ==_iff gid m.group_id_to_str at,
    );
    in_range = λ j g' e. p.in_range j g' (find_id-without j g' e).1;
    next_in_range = p.next_in_range;
  }
