-- ===== src/Base/Maps.antt =====
-- `std::map`: entries in the order of their keys, searched by key. The lemmas ask nothing of the
-- order, and of the test of keys only that it decides equality.
use Prim.Native.Nat.{ℕ, zero, suc, ◌+◌, ◌≤◌, ◌<◌}
use mathlib.Core.Path.{◌≡◌, refl, ap, sym, ◌∙◌}
use mathlib.Core.Logic.{◌↔◌, ◌⊎◌, inl, inr}
use mathlib.Core.Bool.{Bool, true, false, false≢true}
use mathlib.Core.List.{List, [], ◌∷◌}
use mathlib.Core.Option.{Option, none, some, some-ne-none}
use native.Mathlib.Omega.{arith}
use mcsb.Base.Tests.{◌==◌, ==_iff, ltb, Option-cases, if◌then◌else◌, Bool-cases}
use mcsb.Base.Lists.{length}

module _ {ℓ κ} {K : Type ℓ} {V : Type κ} (same : K → K → Bool) where
  abbrev pub lookup : K → List (K × V) → Option V
  lookup k [] = none
  lookup k (e ∷ es) = if same k e.0 then some e.1 else lookup k es

  -- `insert` leaves an entry that has the key already.
  abbrev pub insert : (K → K → Bool) → K → V → List (K × V) → List (K × V)
  insert before k v [] = (k, v) ∷ []
  insert before k v (e ∷ es) =
      if same k e.0
      then e ∷ es
      else if before k e.0
      then (k, v) ∷ e ∷ es
      else e ∷ insert before k v es

  abbrev pub remove : K → List (K × V) → List (K × V)
  remove k [] = []
  remove k (e ∷ es) = if same k e.0 then es else e ∷ remove k es

  -- A value that is changed in its place.
  abbrev pub modify : K → (V → V) → List (K × V) → List (K × V)
  modify k f [] = []
  modify k f (e ∷ es) = if same k e.0 then (e.0, f e.1) ∷ es else e ∷ modify k f es

  -- No key stands twice.
  abbrev pub Unique : List (K × V) → Type κ
  Unique [] = Unit
  Unique (e ∷ es) = (lookup e.0 es ≡ none) × Unique es

module _ {ℓ} {K : Type ℓ} (same : K → K → Bool)
    (same_iff : (a b : K) → (same a b ≡ true) ↔ (a ≡ b)) where
  same_refl : (k : K) → same k k ≡ true
  same_refl k = (same_iff k k).1 refl

  same_sym : (k j : K) → same k j ≡ false → same j k ≡ false
  same_sym k j h = elim (Bool-cases (same j k)) [
    | inl e ↦ absurd (false≢true (sym h ∙ (same_iff k j).1 (sym ((same_iff j k).0 e))))
    | inr e ↦ e
  ]

module _ {ℓ κ} {K : Type ℓ} {V : Type κ} (same before : K → K → Bool)
    (same_iff : (a b : K) → (same a b ≡ true) ↔ (a ≡ b)) where
  pub lookup-insert_self :
      (k : K) (v : V) (es : List (K × V))
      → lookup same k es ≡ none
      → lookup same k (insert same before k v es) ≡ some v
  lookup-insert_self k v [] h = ground (arith, same_refl same same_iff k)
  lookup-insert_self k v (e ∷ es) h =
      ground (arith, same_refl same same_iff k, lookup-insert_self k v es)

  pub lookup-insert_ne :
      (k j : K) (v : V) (es : List (K × V))
      → same j k ≡ false
      → lookup same j (insert same before k v es) ≡ lookup same j es
  lookup-insert_ne k j v [] h = ground arith
  lookup-insert_ne k j v (e ∷ es) h = ground (arith, lookup-insert_ne k j v es)

  pub length-insert :
      (k : K) (v : V) (es : List (K × V))
      → lookup same k es ≡ none
      → length (insert same before k v es) ≡ length es + 1
  length-insert k v [] h = omega arith
  length-insert k v (e ∷ es) h = ground (arith, length-insert k v es)

  pub remove-insert :
      (k : K) (v : V) (es : List (K × V))
      → lookup same k es ≡ none
      → remove same k (insert same before k v es) ≡ es
  remove-insert k v [] h = ground (arith, same_refl same same_iff k)
  remove-insert k v (e ∷ es) h = ground (arith, same_refl same same_iff k, remove-insert k v es)

  pub lookup-remove_ne :
      (k j : K) (es : List (K × V))
      → same j k ≡ false
      → lookup same j (remove same k es) ≡ lookup same j es
  lookup-remove_ne k j [] h = refl
  lookup-remove_ne k j (e ∷ es) h = elim (Bool-cases (same k e.0)) [
    | inl t ↦ ground (arith, (same_iff k e.0).0 t)
    | inr t ↦ ground (arith, lookup-remove_ne k j es)
  ]

  pub length-remove :
      (k : K) {v : V} (es : List (K × V))
      → lookup same k es ≡ some v
      → length (remove same k es) + 1 ≡ length es
  length-remove k {v} [] h = cc
  length-remove k {v} (e ∷ es) h = ground (arith, length-remove k {v = v} es)

  pub lookup-remove_self :
      (k : K) (es : List (K × V)) → Unique same es → lookup same k (remove same k es) ≡ none
  lookup-remove_self k [] u = refl
  lookup-remove_self k (e ∷ es) (f, u) = elim (Bool-cases (same k e.0)) [
    | inl t ↦ ground (arith, (same_iff k e.0).0 t)
    | inr t ↦ ground (arith, lookup-remove_self k es u)
  ]

  pub lookup-modify_self :
      (k : K) (f : V → V) {v : V} (es : List (K × V))
      → lookup same k es ≡ some v
      → lookup same k (modify same k f es) ≡ some (f v)
  lookup-modify_self k f {v} [] h = cc
  lookup-modify_self k f {v} (e ∷ es) h = ground (arith, lookup-modify_self k f {v = v} es)

  pub lookup-modify_ne :
      (k j : K) (f : V → V) (es : List (K × V))
      → same j k ≡ false
      → lookup same j (modify same k f es) ≡ lookup same j es
  lookup-modify_ne k j f [] h = refl
  lookup-modify_ne k j f (e ∷ es) h = elim (Bool-cases (same k e.0)) [
    | inl t ↦ ground (arith, (same_iff k e.0).0 t)
    | inr t ↦ ground (arith, lookup-modify_ne k j f es)
  ]

  pub length-modify :
      (k : K) (f : V → V) (es : List (K × V)) → length (modify same k f es) ≡ length es
  length-modify k f [] = refl
  length-modify k f (e ∷ es) = ground (arith, length-modify k f es)

  pub modify-insert :
      (k : K) (f : V → V) (v : V) (es : List (K × V))
      → lookup same k es ≡ none
      → modify same k f (insert same before k v es) ≡ insert same before k (f v) es
  modify-insert k f v [] h = ground (arith, same_refl same same_iff k)
  modify-insert k f v (e ∷ es) h = ground (arith, same_refl same same_iff k, modify-insert k f v es)

  Unique-if :
      (b : Bool) (xs ys : List (K × V))
      → Unique same xs
      → Unique same ys
      → Unique same (if b then xs else ys)
  Unique-if true xs ys p q = p
  Unique-if false xs ys p q = q

  pub Unique-insert :
      (k : K) (v : V) (es : List (K × V))
      → lookup same k es ≡ none
      → Unique same es
      → Unique same (insert same before k v es)
  Unique-insert k v [] h u = (refl, tt)
  Unique-insert k v (e ∷ es) h (f, u) = elim (Bool-cases (same k e.0)) [
    | inl t ↦
        absurd (some-ne-none e.1 (sym (ap (λ b. if b then some e.1 else lookup same k es) t) ∙ h))
    | inr t ↦
        let h' : lookup same k es ≡ none = ground (arith) in
        rw t (
          Unique-if (before k e.0) _ _ (h, (f, u))
            (
              lookup-insert_ne k e.0 v es (same_sym same same_iff k e.0 t) ∙ f,
              Unique-insert k v es h' u,
            ))
  ]

  pub Unique-remove : (k : K) (es : List (K × V)) → Unique same es → Unique same (remove same k es)
  Unique-remove k [] u = tt
  Unique-remove k (e ∷ es) (f, u) = elim (Bool-cases (same k e.0)) [
    | inl t ↦ rw t u
    | inr t ↦
        rw t (lookup-remove_ne k e.0 es (same_sym same same_iff k e.0 t) ∙ f, Unique-remove k es u)
  ]

  none-modify :
      (k j : K) (f : V → V) (es : List (K × V))
      → lookup same j es ≡ none
      → lookup same j (modify same k f es) ≡ none
  none-modify k j f [] h = refl
  none-modify k j f (e ∷ es) h = ground (arith, none-modify k j f es)

  pub Unique-modify :
      (k : K) (f : V → V) (es : List (K × V)) → Unique same es → Unique same (modify same k f es)
  Unique-modify k f [] u = tt
  Unique-modify k f (e ∷ es) (g, u) = elim (Bool-cases (same k e.0)) [
    | inl t ↦ rw t (g, u)
    | inr t ↦ rw t (none-modify k e.0 f es g, Unique-modify k f es u)
  ]

  pub lookup-modify_inv :
      (k j : K) (f : V → V) {v : V} (es : List (K × V))
      → lookup same j (modify same k f es) ≡ some v
      → (w : V) × (lookup same j es ≡ some w) × ((v ≡ w) ⊎ (v ≡ f w))
  lookup-modify_inv k j f {v} [] h = cc
  lookup-modify_inv k j f {v} (e ∷ es) h = elim (Bool-cases (same k e.0)) [
    | inl t ↦ elim (Bool-cases (same j e.0)) [
      | inl u ↦ (e.1, ground arith, inr (ground arith))
      | inr u ↦ (v, ground arith, inl refl)
    ]
    | inr t ↦ elim (Bool-cases (same j e.0)) [
      | inl u ↦ (v, ground arith, inl refl)
      | inr u ↦
          let (w, at, is) = lookup-modify_inv k j f {v = v} es (ground arith) in
          (w, ground arith, is)
    ]
  ]

-- The pigeonhole principle: fewer entries than ids leave an id free.
pub find_free {ℓ} :
    {V : Type ℓ} (n low : ℕ) (es : List (ℕ × V))
    → length es < n
    → (g : ℕ) × (low ≤ g) × (g < low + n) × (lookup ◌==◌ g es ≡ none)
find_free zero low es h = absurd (omega arith)
find_free (suc n) low es h = elim (Option-cases (lookup ◌==◌ low es)) [
  | inl free ↦ (low, omega arith, omega arith, free)
  | inr (e, taken) ↦
      let fewer = length-remove ◌==◌ ltb ==_iff low es taken in
      let (g, above, below, free) = find_free n (low + 1) (remove ◌==◌ low es) (omega arith) in
      (
        g,
        omega arith,
        omega arith,
        sym (lookup-remove_ne ◌==◌ ltb ==_iff low g es (ground (arith, ==_iff g low))) ∙ free,
      )
]
