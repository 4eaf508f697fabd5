-- ===== src/Manager/Registrations/Ids.antt =====
-- The set of message ids of a client under `HandleRegistration`: what is added, what is taken out, and what is announced.
use mcsb.Base.{
  ℕ, ◌+◌, ◌-◌, ◌≤◌, ◌<◌, ◌≡◌, refl, ap, sym, fun_ext, length, ◌∙◌, ◌==◌, ==_iff, true, false, not,
  ◌&&◌, ◌||◌, List, [], ◌∷◌, count, mem, erase, count-erase, Bool-cases, inl, inr, ok, bit, arith,
}
use mcsb.Manager.{Manager, ClientProxy, Env, registration, get_proxy, put_proxy}
use mcsb.Manager.Sockets.Broadcast.{Told, send_registration-Told}
use mcsb.Manager.Store.{get_proxy-put_self}
use mcsb.Manager.Segments.{cci_message_id}
use mcsb.Manager.Registrations.{
  insert_id, set_registered, register_ids, deregister_ids, register_list, deregister_list, announce,
  handle_registration,
}

abbrev pub registered : ℕ → Manager → List ℕ
registered p m = (get_proxy p m).registered_msg_ids

count-insert_id :
    (k j : ℕ) (xs : List ℕ)
    → mem j xs ≡ false
    → count k (insert_id j xs) ≡ count k xs + bit (k == j)
count-insert_id k j [] h = ground arith
count-insert_id k j (x ∷ xs) h = ground (arith, count-insert_id k j xs)

count_same : (k j : ℕ) (xs : List ℕ) → (k == j) ≡ true → count k xs ≡ count j xs
count_same k j xs h = ap (λ i. count i xs) ((==_iff k j).0 h)

pub registered-set_registered :
    (p : ℕ) (ids : List ℕ) (m : Manager) → registered p (set_registered p ids m) ≡ ids
registered-set_registered p ids m = ap (λ x. x.registered_msg_ids) (get_proxy-put_self p _ m)

set_registered_same : (p : ℕ) (m : Manager) → set_registered p (registered p m) m ≡ m
set_registered_same p m =
    ap (λ (f : ℕ → ClientProxy). record m { arg = record m.arg { proxy = f } })
      (fun_ext (λ q. same q))
  where
    same : (q : ℕ) → get_proxy q (set_registered p (registered p m) m) ≡ get_proxy q m
    same q = elim (Bool-cases (q == p)) [
      | inl e ↦ rw e (ap m.arg.proxy (sym ((==_iff q p).0 e)))
      | inr e ↦ rw e refl
    ]

set_registered_twice :
    (p : ℕ) (ids after : List ℕ) (m : Manager)
    → set_registered p after (set_registered p ids m) ≡ set_registered p after m
set_registered_twice p ids after m =
    ap (λ (f : ℕ → ClientProxy). record m { arg = record m.arg { proxy = f } })
      (fun_ext (λ q. same q))
  where
    here :
        get_proxy p (set_registered p ids m) ≡ record (get_proxy p m) { registered_msg_ids = ids }
    here = get_proxy-put_self p _ m

    same :
        (q : ℕ)
        → get_proxy q (set_registered p after (set_registered p ids m))
          ≡ get_proxy q (set_registered p after m)
    same q = elim (Bool-cases (q == p)) [
      | inl e ↦ rw e (ap (λ (x : ClientProxy). record x { registered_msg_ids = after }) here)
      | inr e ↦ rw e refl
    ]

-- What registering does: `new` are the ids that were not there.
abbrev pub Registers : List ℕ → List ℕ → List ℕ → List ℕ → Type 0
Registers ks before new after =
    ((k : ℕ) → count k after ≡ count k before + count k new)
    × ((k : ℕ) → mem k after ≡ (mem k before || mem k ks))

-- What deregistering does: `gone` are the ids that were there.
abbrev pub Deregisters : List ℕ → List ℕ → List ℕ → List ℕ → Type 0
Deregisters ks before gone after =
    ((k : ℕ) → count k before ≡ count k after + count k gone)
    × ((k : ℕ) → mem k after ≡ (mem k before && not (mem k ks)))

-- Ids without the reserved one are registered.
pub register_ids-Registers :
    (p : ℕ) (ks : List ℕ) (m : Manager)
    → mem cci_message_id ks ≡ false
    → (new : List ℕ) × (after : List ℕ) × (register_ids p ks m ≡ ok new (set_registered p after m))
      × Registers ks (registered p m) new after
unfolding register_ids
register_ids-Registers p [] m ok_ids = (
  [],
  registered p m,
  ap (ok []) (sym (set_registered_same p m)),
  ((λ k. omega arith), (λ k. ground arith)),
)
register_ids-Registers p (j ∷ ks) m ok_ids =
    let plain : (j == cci_message_id) ≡ false = ground arith in
    let rest : mem cci_message_id ks ≡ false = ground arith in
    elim (Bool-cases (mem j (registered p m))) [
      | inl known ↦
          let (new, after, e, (counts, mems)) = register_ids-Registers p ks m rest in
          (
            new,
            after,
            rw plain (rw known e),
            (counts, λ k. ground (arith, mems k, count_same k j (registered p m))),
          )
      | inr new_id ↦
          let m1 = set_registered p (insert_id j (registered p m)) m in
          let (new, after, e, (counts, mems)) = register_ids-Registers p ks m1 rest in
          let base : (k : ℕ) → count k (registered p m1) ≡ count k (registered p m) + bit (k == j) =
            λ k.
              ap (count k) (registered-set_registered p _ m)
              ∙ count-insert_id k j (registered p m) new_id in
          (
            j ∷ new,
            after,
            rw plain (rw new_id (rw e (ap (ok (j ∷ new)) (set_registered_twice p _ after m)))),
            (λ k. omega (arith, counts k, base k), λ k. ground (arith, mems k, base k)),
          )
    ]

pub deregister_ids-Deregisters :
    (p : ℕ) (ks : List ℕ) (m : Manager)
    → ((k : ℕ) → count k (registered p m) ≤ 1)
    → (gone : List ℕ) × (after : List ℕ) × (deregister_ids p ks m
        ≡ ok gone (set_registered p after m))
      × Deregisters ks (registered p m) gone after
unfolding deregister_ids
deregister_ids-Deregisters p [] m once = (
  [],
  registered p m,
  ap (ok []) (sym (set_registered_same p m)),
  (λ k. omega arith, λ k. ground arith),
)
deregister_ids-Deregisters p (j ∷ ks) m once = elim (Bool-cases (mem j (registered p m))) [
  | inr unknown ↦
      let (gone, after, e, (counts, mems)) = deregister_ids-Deregisters p ks m once in
      (
        gone,
        after,
        rw unknown e,
        (counts, λ k. ground (arith, mems k, count_same k j (registered p m))),
      )
  | inl known ↦
      let m1 = set_registered p (erase j (registered p m)) m in
      let base : (k : ℕ) → count k (registered p m1) ≡ count k (registered p m) - bit (k == j) =
        λ k. ap (count k) (registered-set_registered p _ m) ∙ count-erase k j (registered p m) in
      let (gone, after, e, (counts, mems)) =
        deregister_ids-Deregisters p ks m1 (λ k. omega (arith, base k, once k)) in
      (
        j ∷ gone,
        after,
        rw known (rw e (ap (ok (j ∷ gone)) (set_registered_twice p _ after m))),
        (
          λ k. ground (arith, counts k, base k, count_same k j (registered p m)),
          λ k. ground (arith, mems k, base k, once k, count_same k j (registered p m)),
        ),
      )
]

-- An empty list is not announced, and another one is told to the clients in turn.
pub data Announced (env : Env) (type cid gid : ℕ) (ids : List ℕ) (m m' : Manager) : Type 0 where
  silent : ids ≡ [] → m' ≡ m → Announced env type cid gid ids m m'
  told :
      0 < length ids
      → Told env (registration type cid gid ids) m.arg.clients m m'
      → Announced env type cid gid ids m m'

announce-Announced :
    (env : Env) (type cid gid : ℕ) (ids : List ℕ) (m : Manager)
    → (m' : Manager) × (announce env type cid gid ids m ≡ ok tt m')
      × Announced env type cid gid ids m m'
unfolding announce
announce-Announced env type cid gid [] m = (m, refl, silent refl refl)
announce-Announced env type cid gid (k ∷ ks) m =
    let (m', e, t) = send_registration-Told env type cid gid (k ∷ ks) m in
    (m', e, told (omega arith) t)

module _ (env : Env) (p cid gid : ℕ) (ks : List ℕ) (m : Manager)
    (client : cid ≡ (get_proxy p m).client_id) (group : gid ≡ (get_proxy p m).group_id) where
  -- A list of ids to register, with the client's own ids and without the reserved message id:
  -- `HandleRegistration` returns; the client's set then has the ids it had and the listed ones. If
  -- ids were added, one message with just those is put to the clients in the order of the map: who
  -- does not want registrations or has a broken endpoint is passed over, a socket that refuses it
  -- breaks its endpoint, and every other client is sent it. If none was added, nothing is sent.
  -- Nothing else changes.
  pub handle_registration-Registers :
      mem cci_message_id ks ≡ false
      → (new : List ℕ) × (after : List ℕ) × (m' : Manager) × (handle_registration env p
            register_list cid gid ks m
          ≡ ok tt m')
        × Registers ks (registered p m) new after
        × Announced env register_list cid gid new
            (put_proxy p (record (get_proxy p m) { registered_msg_ids = after }) m)
            m'
  unfolding handle_registration
  handle_registration-Registers plain =
      let (new, after, e, r) = register_ids-Registers p ks m plain in
      let (m', e', a) =
        announce-Announced env register_list cid gid new (set_registered p after m) in
      (new, after, m', rw ((==_iff cid _).1 client) (rw ((==_iff gid _).1 group) (rw e e')), r, a)

  -- A list of ids to deregister, with the client's own ids, from a set that has no id twice:
  -- `HandleRegistration` returns; the client's set then has the ids it had without the listed ones.
  -- If ids were taken out, one message with just those is put to the clients in the order of the
  -- map: who does not want registrations or has a broken endpoint is passed over, a socket that
  -- refuses it breaks its endpoint, and every other client is sent it. If none was taken out,
  -- nothing is sent. Nothing else changes.
  pub handle_registration-Deregisters :
      ((k : ℕ) → count k (registered p m) ≤ 1)
      → (gone : List ℕ) × (after : List ℕ) × (m' : Manager) × (handle_registration env p
            deregister_list cid gid ks m
          ≡ ok tt m')
        × Deregisters ks (registered p m) gone after
        × Announced env deregister_list cid gid gone
            (put_proxy p (record (get_proxy p m) { registered_msg_ids = after }) m)
            m'
  unfolding handle_registration
  handle_registration-Deregisters once =
      let (gone, after, e, r) = deregister_ids-Deregisters p ks m once in
      let (m', e', a) =
        announce-Announced env deregister_list cid gid gone (set_registered p after m) in
      (gone, after, m', rw ((==_iff cid _).1 client) (rw ((==_iff gid _).1 group) (rw e e')), r, a)
