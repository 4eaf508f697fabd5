-- ===== src/GroupManager/Uses.antt =====
-- The table of names and counts that the two maps stand for, through the changes of the maps.
use mcsb.Base.{
  ℕ, ◌≤◌, ◌≡◌, refl, ap, ◌∙◌, ◌==◌, ==_iff, false, Option, none, some, if◌then◌else◌, Bool-cases,
  Option-cases, inl, inr, arith,
}
use mcsb.GroupManager.{
  Name, same_name, max_group_id, Group, GroupManager, find_str, find_id, add_group,
}
use mcsb.GroupManager.Maps.{
  same_name_iff, IsPaired, find_str-add_self, find_str-add_ne, find_id-add_self, find_id-add_ne,
}
use mcsb.GroupManager.Counts.{
  with_uses, find_id-with_uses_self, find_id-with_uses_ne, without, find_str-without_self,
  find_str-without_ne, find_id-without_ne, id_apart,
}

-- A table from the names of groups to the counts of their uses.
abbrev pub Table : Type 0
Table = Name → Option ℕ

abbrev pub put : Name → Option ℕ → Table → Table
put s n f t = if same_name t s then n else f t

abbrev uses_at : Option Group → Option ℕ
uses_at none = none
uses_at (some g) = some g.uses

abbrev through : GroupManager → Option ℕ → Option ℕ
through m none = none
through m (some gid) = uses_at (find_id gid m)

abbrev pub uses_of : GroupManager → Table
uses_of m s = through m (find_str s m)

-- Managers that agree on a name's group, and on every group of another name.
uses_of-same :
    (m m' : GroupManager) (t : Name)
    → find_str t m' ≡ find_str t m
    → ((j : ℕ) → find_str t m ≡ some j → find_id j m' ≡ find_id j m)
    → uses_of m' t ≡ uses_of m t
uses_of-same m m' t strs ids = elim (Option-cases (find_str t m)) [
  | inl e ↦ rw strs (rw e refl)
  | inr (j, e) ↦ rw strs (rw e (rw (ids j e) refl))
]

pub uses_of-missing : (m : GroupManager) (t : Name) → find_str t m ≡ none → uses_of m t ≡ none
uses_of-missing m t e = rw e refl

pub uses_of-found :
    (m : GroupManager) (t : Name) (gid : ℕ) (g : Group)
    → find_str t m ≡ some gid
    → find_id gid m ≡ some g
    → uses_of m t ≡ some g.uses
uses_of-found m t gid g strs ids = rw strs (rw ids refl)

module _ (gid : ℕ) (g : Group) (m : GroupManager) (p : IsPaired m)
    (at : find_id gid m ≡ some g) where
  -- Another name's group has another id.
  elsewhere :
      (t : Name) (j : ℕ) → same_name t g.name ≡ false → find_str t m ≡ some j → (j == gid) ≡ false
  elsewhere t j other e =
      let (g', there, name) = p.named t j e in id_apart gid g m p at t j g' there name other

  pub uses_of-with_uses :
      (h : ℕ → ℕ) (t : Name)
      → uses_of (with_uses gid h m) t ≡ put g.name (some (h g.uses)) (uses_of m) t
  uses_of-with_uses h t = elim (Bool-cases (same_name t g.name)) [
    | inl e ↦ rw e (
        uses_of-found (with_uses gid h m) t gid (record g { uses = h g.uses })
          (ap (λ s. find_str s m) ((same_name_iff t g.name).0 e) ∙ p.numbered gid g at)
          (find_id-with_uses_self gid h m p g at))
    | inr e ↦ rw e (
        uses_of-same m (with_uses gid h m) t refl
          (λ j there. find_id-with_uses_ne gid h m p j (elsewhere t j e there)))
  ]

  pub uses_of-without :
      (t : Name) → uses_of (without gid g.name m) t ≡ put g.name none (uses_of m) t
  uses_of-without t = elim (Bool-cases (same_name t g.name)) [
    | inl e ↦
        let gone : find_str t (without gid g.name m) ≡ none =
          ap (λ s. find_str s (without gid g.name m)) ((same_name_iff t g.name).0 e)
          ∙ find_str-without_self gid g m p at in
        rw e (ap (through (without gid g.name m)) gone)
    | inr e ↦ rw e (
        uses_of-same m (without gid g.name m) t (find_str-without_ne gid g m p at t e)
          (λ j there. find_id-without_ne gid g m p at j (elsewhere t j e there)))
  ]

module _ (s : Name) (gid : ℕ) (m : GroupManager) (p : IsPaired m) (new : find_str s m ≡ none)
    (free : find_id gid m ≡ none) (low : 1 ≤ gid) (high : gid ≤ max_group_id) where
  pub uses_of-add_group : (t : Name) → uses_of (add_group s gid m) t ≡ put s (some 0) (uses_of m) t
  uses_of-add_group t = elim (Bool-cases (same_name t s)) [
    | inl e ↦ rw e (
        uses_of-found (add_group s gid m) t gid (record { name = s; uses = 0 })
          (ap (λ s'. find_str s' (add_group s gid m)) ((same_name_iff t s).0 e)
            ∙ find_str-add_self s gid m p new free low high)
          (find_id-add_self s gid m p new free low high))
    | inr e ↦ rw e (
        uses_of-same m (add_group s gid m) t (find_str-add_ne s gid m p new free low high t e)
          (λ j there.
            let (g, id, name) = p.named t j there in
            find_id-add_ne s gid m p new free low high j (apart j g id)))
  ]
    where
      apart : (j : ℕ) (g : Group) → find_id j m ≡ some g → (j == gid) ≡ false
      apart j g id = ground (arith, ==_iff j gid, free)
