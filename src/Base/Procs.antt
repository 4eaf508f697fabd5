-- ===== src/Base/Procs.antt =====
-- Procedures on a state that return or throw. A C++ exception leaves behind what was changed before
-- it, so a throw carries its state too.
use mathlib.Core.Bool.{Bool, true, false}
use mcsb.Base.Tests.{if◌then◌else◌}

-- `std::runtime_error`s of the sources, by their text; `range_fault` is an index past the end of a
-- vector, `assert_failed` a failed `assert`, `divide_fault` a division by zero, `hook_fault` an
-- erase through a list that does not hold the hook, `null_fault` a read through a null pointer. `out_of_fuel` is no outcome of the sources: a
-- loop over linked segments has used up its rounds.
pub data Error : Type 0 where
  invalid_slab not_held_or_wanted refcnt_underflow free_but_held free_but_wanted : Error
  no_wanted_slabs no_wanted_segs erase_empty : Error
  already_held not_held too_many_erased decrement_errors : Error
  too_many_blocks count_underflow out_of_fuel : Error
  range_fault assert_failed divide_fault hook_fault null_fault : Error
  send_failed reservation_denied memory_unlocked map_failed : Error
  client_mismatch group_mismatch reserved_msg_id : Error
  group_while_registered group_already_set invalid_block cci_mismatch cci_to_manager : Error

-- The faults that are no `std::runtime_error`.
abbrev pub is_runtime_error : Error → Bool
is_runtime_error e = elim e [
  | out_of_fuel ↦ false
  | range_fault ↦ false
  | assert_failed ↦ false
  | divide_fault ↦ false
  | hook_fault ↦ false
  | null_fault ↦ false
  | _ ↦ true
]

pub data Outcome {ℓ κ} (S : Type ℓ) (A : Type κ) : Type (ℓ ⊔ κ) where
  ok : A → S → Outcome S A
  throw : Error → S → Outcome S A

abbrev pub Proc {ℓ κ} : Type ℓ → Type κ → Type (ℓ ⊔ κ)
Proc S A = S → Outcome S A

module _ {ℓ κ} {S : Type ℓ} {A : Type κ} where
  -- The state at the end, either way.
  abbrev pub final : Outcome S A → S
  final (ok a s) = s
  final (throw e s) = s

  abbrev pub returns : Outcome S A → Bool
  returns (ok a s) = true
  returns (throw e s) = false

  abbrev pub pure : A → Proc S A
  pure a s = ok a s

  abbrev pub and_then {μ} : {B : Type μ} → Outcome S A → (A → Proc S B) → Outcome S B
  and_then (ok a s) f = f a s
  and_then (throw e s) f = throw e s

infixl 5 ◌>>=◌ ◌>>◌
abbrev pub ◌>>=◌ {ℓ κ μ} :
    {S : Type ℓ} {A : Type κ} {B : Type μ} → Proc S A → (A → Proc S B) → Proc S B
◌>>=◌ m f s = and_then (m s) f

abbrev pub ◌>>◌ {ℓ κ} : {S : Type ℓ} {B : Type κ} → Proc S (Unit {0}) → Proc S B → Proc S B
m >> k = m >>= λ _. k

-- A procedure that keeps a predicate of its state, whether it returns or throws.
abbrev pub Keeps {ℓ κ μ} : {S : Type ℓ} {A : Type κ} → (S → Type μ) → Proc S A → Type (ℓ ⊔ μ)
Keeps {S} P m = (s : S) → P s → P (final (m s))

module _ {ℓ κ μ} {S : Type ℓ} {A : Type κ} (P : S → Type μ) where
  pub and_then-Keeps {ν} :
      {B : Type ν} (r : Outcome S A) (f : A → Proc S B)
      → P (final r)
      → ((a : A) → Keeps P (f a))
      → P (final (and_then r f))
  and_then-Keeps (ok a s) f p k = k a s p
  and_then-Keeps (throw e s) f p k = p

-- One procedure after another.
module _ {ℓ μ} {S : Type ℓ} (P : S → Type μ) where
  pub bind-Keeps {ν o} :
      {A : Type ν} {B : Type o} (m : Proc S A) (f : A → Proc S B)
      → Keeps P m
      → ((a : A) → Keeps P (f a))
      → Keeps P (m >>= f)
  bind-Keeps m f km kf s p = and_then-Keeps P (m s) f (km s p) kf

  pub seq-Keeps {ν} :
      {B : Type ν} (m : Proc S (Unit {0})) (k : Proc S B) → Keeps P m → Keeps P k → Keeps P (m >> k)
  seq-Keeps m k km kk s p = and_then-Keeps P (m s) (λ _. k) (km s p) (λ _. kk)

  pub if-keeps {ν} :
      {A : Type ν} (b : Bool) (x y : Outcome S A)
      → P (final x)
      → P (final y)
      → P (final (if b then x else y))
  if-keeps true x y p q = p
  if-keeps false x y p q = q

  pub choose-Keeps {ν} :
      {A : Type ν} (b : Bool) (x y : Proc S A)
      → Keeps P x
      → Keeps P y
      → Keeps P (if b then x else y)
  choose-Keeps true x y kx ky = kx
  choose-Keeps false x y kx ky = ky
