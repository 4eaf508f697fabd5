-- ===== src/SlabTracker/Taking.antt =====
-- `TakeConsSlab` on a slab that there is: it returns, and there are as many slabs as before.
use mcsb.Base.{
  ℕ, ◌+◌, ◌<◌, ◌≡◌, Bool, true, false, ltb, ◌==◌, u16, length, get_elem?-some, length-set,
  if◌then◌else◌, Outcome, ok, throw, arith, ◌∙◌,
}
use mcsb.SlabTracker.{Tracker, take_cons_slab}

-- What an outcome leaves behind, if it is a return; a throw is none.
abbrev pub Leaves {ℓ} : {A : Type ℓ} → ℕ → Outcome Tracker A → Type 0
Leaves n (ok a t) = length t.cons_refcnt ≡ n
Leaves n (throw e t) = true ≡ false

Leaves-if :
    {A : Type 0} (n : ℕ) (b : Bool) (x y : Outcome Tracker A)
    → Leaves n x
    → Leaves n y
    → Leaves n (if b then x else y)
Leaves-if n true x y p q = p
Leaves-if n false x y p q = q

pub take_cons_slab-Leaves :
    (id n : ℕ) (t : Tracker) → length t.cons_refcnt ≡ n → id < n → Leaves n (take_cons_slab id t)
unfolding take_cons_slab
take_cons_slab-Leaves id n t e lt =
    let (c, there) = get_elem?-some t.cons_refcnt id (omega arith) in
    let same = length-set t.cons_refcnt id (u16 (c + 1)) ∙ e in
    rw (there, take_cons_slab)
      (Leaves-if n (ltb t.cons_slabs_held t.num_cons_slabs) _ _ same
        (Leaves-if n (c == 0) _ _ e same))
