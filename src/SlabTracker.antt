-- ===== src/SlabTracker.antt =====
-- apps/MCSBManager/ProxySlabTracker.cc and MCSB/ProxySlabTracker.h: which slabs a client's proxy
-- holds for it, as a producer and as a consumer. The source does not check a slabID against the
-- vectors' size: an index past the end is undefined there, and the fault `range_fault` here.
use mcsb.Base.{
  ℕ, zero, suc, ◌+◌, ◌-◌, Bool, true, false, not, ◌&&◌, List, [], ◌∷◌, ◌++◌, Option, none, some,
  ltb, ◌==◌, if◌then◌else◌, u16, u32, sub32, length, get_elem?, set, replicate, take, drop, Proc,
  ok, throw, and_then, pure, ◌>>=◌, ◌>>◌, range_fault, already_held, not_held, too_many_erased,
  decrement_errors,
}
pub mod Invariant
pub mod Producer
pub mod Consumer
pub mod Taking
pub mod Frame
mod Tests

-- `prod_refcnt` is a `vector<bool>`, `cons_refcnt` a `vector<uint16_t>`.
pub record Tracker : Type 0 where
  pub num_prod_slabs : ℕ
  pub num_cons_slabs : ℕ
  pub prod_slabs_held : ℕ
  pub cons_slabs_held : ℕ
  pub prod_refcnt : List Bool
  pub cons_refcnt : List ℕ

pub empty_tracker : Tracker
empty_tracker = record {
  num_prod_slabs = 0;
  num_cons_slabs = 0;
  prod_slabs_held = 0;
  cons_slabs_held = 0;
  prod_refcnt = [];
  cons_refcnt = [];
}

-- `vector::resize(n,0)`.
abbrev pub resize {ℓ} : {A : Type ℓ} → ℕ → A → List A → List A
resize n a xs = take n xs ++ replicate (n - length xs) a

pub total_num_slabs : ℕ → Tracker → Tracker
total_num_slabs n t = record t {
  prod_refcnt = resize n false t.prod_refcnt;
  cons_refcnt = resize n 0 t.cons_refcnt;
}

-- `NumProdSlabs(n)` and `NumConsSlabs(n)`.
pub set_num_prod_slabs : ℕ → Tracker → Tracker
set_num_prod_slabs n t = record t { num_prod_slabs = n }

pub set_num_cons_slabs : ℕ → Tracker → Tracker
set_num_cons_slabs n t = record t { num_cons_slabs = n }

pub prod_slabs_needed : Tracker → ℕ
prod_slabs_needed t =
    if ltb t.prod_slabs_held t.num_prod_slabs then t.num_prod_slabs - t.prod_slabs_held else 0

-- One round of the loop of `InsertProdSlabs`; it returns the errors so far.
pub insert_prod_slab : ℕ → ℕ → Proc Tracker ℕ
insert_prod_slab id errs t = elim (get_elem? t.prod_refcnt id) [
  | none ↦ throw range_fault t
  | some holds ↦ ok (if holds then errs + 1 else errs) (record t {
    prod_slabs_held = if holds then t.prod_slabs_held else u32 (t.prod_slabs_held + 1);
    prod_refcnt = set t.prod_refcnt id true;
  })
]

insert_loop : List ℕ → ℕ → Proc Tracker ℕ
unfolding insert_prod_slab
insert_loop [] errs t = ok errs t
insert_loop (id ∷ ids) errs t = and_then (insert_prod_slab id errs t) (insert_loop ids)

pub insert_prod_slabs : List ℕ → Proc Tracker (Unit {0})
unfolding insert_loop
insert_prod_slabs ids t =
    and_then (insert_loop ids 0 t) λ errs t'. if errs == 0 then ok tt t' else throw already_held t'

-- The first loop of `EraseProdSlabs`: every slab must be held.
check_prod_slabs : List ℕ → Proc Tracker (Unit {0})
check_prod_slabs [] t = ok tt t
check_prod_slabs (id ∷ ids) t =
    let rest = check_prod_slabs ids t in
    elim (get_elem? t.prod_refcnt id) [
      | none ↦ throw range_fault t
      | some false ↦ throw not_held t
      | some true ↦ rest
    ]

-- The second loop: they are let go.
abbrev erase_prod_slab : ℕ → Tracker → Tracker
erase_prod_slab id t = record t {
  prod_refcnt = set t.prod_refcnt id false;
  prod_slabs_held = sub32 t.prod_slabs_held 1;
}

drop_prod_slabs : List ℕ → Tracker → Tracker
drop_prod_slabs [] t = t
drop_prod_slabs (id ∷ ids) t = drop_prod_slabs ids (erase_prod_slab id t)

pub erase_prod_slabs : List ℕ → Proc Tracker (Unit {0})
unfolding check_prod_slabs drop_prod_slabs
erase_prod_slabs ids t =
    if ltb t.prod_slabs_held (length ids)
    then throw too_many_erased t
    else and_then (check_prod_slabs ids t) (λ _ t'. ok tt (drop_prod_slabs ids t'))

-- `GetAndEraseProdSlabs` over the flags from the slab `sid` on: the slabIDs found, at most `mxcount`,
-- and the flags left.
pub take_prod_from : ℕ → ℕ → List Bool → List ℕ × List Bool
take_prod_from sid mxcount [] = ([], [])
take_prod_from sid zero (b ∷ bs) = ([], b ∷ bs)
take_prod_from sid (suc mxcount) (true ∷ bs) =
    let (ids, rest) = take_prod_from (sid + 1) mxcount bs in (sid ∷ ids, false ∷ rest)
take_prod_from sid (suc mxcount) (false ∷ bs) =
    let (ids, rest) = take_prod_from (sid + 1) (suc mxcount) bs in (ids, false ∷ rest)

pub get_and_erase_prod_slabs : ℕ → Tracker → List ℕ × Tracker
unfolding take_prod_from
get_and_erase_prod_slabs mxcount t =
    let (ids, rest) = take_prod_from 0 mxcount t.prod_refcnt in
    (ids, record t { prod_refcnt = rest })

-- `GetAndEraseConsSlabs`, with the counts that the slabs had.
pub take_cons_from : ℕ → ℕ → List ℕ → List (ℕ × ℕ) × List ℕ
take_cons_from sid mxcount [] = ([], [])
take_cons_from sid zero (c ∷ cs) = ([], c ∷ cs)
take_cons_from sid (suc mxcount) (zero ∷ cs) =
    let (ids, rest) = take_cons_from (sid + 1) (suc mxcount) cs in (ids, 0 ∷ rest)
take_cons_from sid (suc mxcount) (suc c ∷ cs) =
    let (ids, rest) = take_cons_from (sid + 1) mxcount cs in ((sid, suc c) ∷ ids, 0 ∷ rest)

pub get_and_erase_cons_slabs : ℕ → Tracker → List (ℕ × ℕ) × Tracker
unfolding take_cons_from
get_and_erase_cons_slabs mxcount t =
    let (ids, rest) = take_cons_from 0 mxcount t.cons_refcnt in
    (ids, record t { cons_refcnt = rest })

-- `TakeConsSlab`: whether the client may hold the slab, with one more reference to it.
pub take_cons_slab : ℕ → Proc Tracker Bool
take_cons_slab id t = elim (get_elem? t.cons_refcnt id) [
  | none ↦ throw range_fault t
  | some c ↦
      let more = set t.cons_refcnt id (u16 (c + 1)) in
      if ltb t.cons_slabs_held t.num_cons_slabs
      then ok true (record t {
        cons_refcnt = more;
        cons_slabs_held = if c == 0 then u32 (t.cons_slabs_held + 1) else t.cons_slabs_held;
      })
      else if c == 0
      then ok false t
      else ok true (record t { cons_refcnt = more })
]

-- One round of the first loop of `DecrementConsSlabs`: both counts wrap.
pub decrement_cons_slab : ℕ → ℕ → Proc Tracker ℕ
decrement_cons_slab id errs t = elim (get_elem? t.cons_refcnt id) [
  | none ↦ throw range_fault t
  | some c ↦
      let errs1 = if c == 0 then errs + 1 else errs in
      let less = set t.cons_refcnt id (u16 (c + 65535)) in
      if u16 (c + 65535) == 0
      then ok (if t.cons_slabs_held == 0 then errs1 + 1 else errs1)
          (record t { cons_refcnt = less; cons_slabs_held = sub32 t.cons_slabs_held 1 })
      else ok errs1 (record t { cons_refcnt = less })
]

-- One round of the loop that undoes it.
pub undo_cons_slab : ℕ → Proc Tracker (Unit {0})
undo_cons_slab id t = elim (get_elem? t.cons_refcnt id) [
  | none ↦ throw range_fault t
  | some c ↦ ok tt (record t {
    cons_refcnt = set t.cons_refcnt id (u16 (c + 1));
    cons_slabs_held = if c == 0 then u32 (t.cons_slabs_held + 1) else t.cons_slabs_held;
  })
]

pub decrement_loop : List ℕ → ℕ → Proc Tracker ℕ
unfolding decrement_cons_slab
decrement_loop [] errs t = ok errs t
decrement_loop (id ∷ ids) errs t = and_then (decrement_cons_slab id errs t) (decrement_loop ids)

pub undo_loop : List ℕ → Proc Tracker (Unit {0})
unfolding undo_cons_slab
undo_loop [] t = ok tt t
undo_loop (id ∷ ids) t = and_then (undo_cons_slab id t) (λ _. undo_loop ids)

pub decrement_cons_slabs : List ℕ → Proc Tracker (Unit {0})
unfolding decrement_loop undo_loop
decrement_cons_slabs ids t = and_then (decrement_loop ids 0 t) λ errs t'.
    if errs == 0
    then ok tt t'
    else and_then (undo_loop ids t') (λ _ t''. throw decrement_errors t'')
