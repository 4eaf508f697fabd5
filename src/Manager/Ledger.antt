-- ===== src/Manager/Ledger.antt =====
-- The invariant of the whole manager: the slabs that are reserved are those that its clients have reserved.
use mcsb.Base.{
  ℕ, ◌+◌, ◌^◌, ◌<◌, ◌≡◌, refl, ap, sym, ◌∙◌, ◌==◌, ==_iff, Bool, true, false, List, [], ◌∷◌,
  if◌then◌else◌, u32, sub32, leb, bit, total, update, Proc, Outcome, ok, throw, final, Keeps,
  and_then, and_then-Keeps, bind-Keeps, seq-Keeps, ◌>>◌, Bool-cases, inl, inr, arith,
  reservation_denied,
}
use mcsb.SlabManager.{free_to_held}
use mcsb.SlabTracker.Frame.{Reserves}
use mcsb.RecvManager.{BlockInfo}
use mcsb.GroupManager.{Name}
use mcsb.Manager.{Manager, ClientProxy, Env, granted_slabs, get_proxy, put_proxy, send}
use mcsb.Manager.Store.{get_proxy-put_self, get_proxy-put_ne}
use mcsb.Manager.Books.{Books, B, send_on-Keeps}
use mcsb.Manager.Sockets.{handle_drop_report_ack}
use mcsb.Manager.Sockets.Kept.{handle_drop_report_ack-Keeps}
use mcsb.Manager.Supply.{fill_producer_slabs}
use mcsb.Manager.Supply.Kept.{fill_producer_slabs-Keeps}
use mcsb.Manager.Segments.{handle_block_ids, handle_slab_ids, handle_blocks_and_info}
use mcsb.Manager.Segments.Kept.{
  handle_block_ids-Keeps, handle_slab_ids-Keeps, handle_blocks_and_info-Keeps,
}
use mcsb.Manager.Buffers.{more, grant, reserve_slabs, handle_num_slabs}
use mcsb.Manager.Buffers.Kept.{Entered, reserve_slabs-Entered}
use mcsb.Manager.Registrations.{
  handle_registration, handle_group_id_str, handle_registrations_wanted, handle_prod_nice_level,
}
use mcsb.Manager.Registrations.Kept.{
  handle_registration-Keeps, handle_group_id_str-Keeps, handle_registrations_wanted-Keeps,
  handle_prod_nice_level-B,
}
pub mod Requests

abbrev pub prods : Manager → ℕ → ℕ
prods m p = (get_proxy p m).slabs.num_prod_slabs

abbrev pub conss : Manager → ℕ → ℕ
conss m p = (get_proxy p m).slabs.num_cons_slabs

-- What the clients have reserved together.
abbrev pub owed : (ℕ → ℕ) → (ℕ → ℕ) → List (ℕ × ℕ) → ℕ
owed f g cs = total (λ c. f c.1 + g c.1) cs

abbrev pub times : ℕ → List (ℕ × ℕ) → ℕ
times p cs = total (λ c. bit (c.1 == p)) cs

owed-ext :
    (f g f' g' : ℕ → ℕ) (cs : List (ℕ × ℕ))
    → ((p : ℕ) → f p ≡ f' p)
    → ((p : ℕ) → g p ≡ g' p)
    → owed f g cs ≡ owed f' g' cs
owed-ext f g f' g' [] same_f same_g = refl
owed-ext f g f' g' (c ∷ cs) same_f same_g =
    omega (arith, same_f c.1, same_g c.1, owed-ext f g f' g' cs same_f same_g)

module _ (f g : ℕ → ℕ) (p a b : ℕ) where
  -- One proxy's numbers changed, where it is none of the clients, or one of them.
  owed-absent :
      (cs : List (ℕ × ℕ)) → times p cs ≡ 0 → owed (update f p a) (update g p b) cs ≡ owed f g cs
  owed-absent [] h = refl
  owed-absent (c ∷ cs) h = ground (arith, owed-absent cs)

  owed-update :
      (cs : List (ℕ × ℕ))
      → times p cs ≡ 1
      → owed (update f p a) (update g p b) cs + (f p + g p) ≡ owed f g cs + (a + b)
  owed-update [] h = absurd (omega arith)
  owed-update (c ∷ cs) h = elim (Bool-cases (c.1 == p)) [
    | inl e ↦
        let same = ap f ((==_iff c.1 p).0 e) in
        let same' = ap g ((==_iff c.1 p).0 e) in ground (arith, owed-absent cs)
    | inr e ↦ ground (arith, owed-update cs)
  ]

-- The reserved slabs are the clients', and the handler is told of free slabs only.
pub record IsAccounted (m : Manager) : Type 0 where
  pub sum : m.num_slabs_reserved ≡ u32 (owed (prods m) (conss m) m.arg.clients)
  pub quiet : m.which_state_change free_to_held ≡ false

pub books_of :
    (m : Manager) → IsAccounted m → B m.num_slabs_reserved (prods m) (conss m) m.arg.clients m
books_of m a = record {
  total_reserved = refl;
  reserves = λ p. (refl, refl);
  same_clients = refl;
  deaf = a.quiet;
}

module _ (r : ℕ) (f g : ℕ → ℕ) (cs : List (ℕ × ℕ)) where
  pub IsAccounted-of_books : (m : Manager) → r ≡ u32 (owed f g cs) → B r f g cs m → IsAccounted m
  IsAccounted-of_books m same b = record {
    sum =
        b.total_reserved
        ∙ same
        ∙ ap u32 (
            owed-ext f g (prods m) (conss m) cs (λ p. sym (b.reserves p).0)
              (λ p. sym (b.reserves p).1)
            ∙ ap (owed (prods m) (conss m)) (sym b.same_clients));
    quiet = b.deaf;
  }

-- The books after a grant.
grant-B :
    (r : ℕ) (f g : ℕ → ℕ) (cs : List (ℕ × ℕ)) (p d_prod d_cons : ℕ) (m : Manager)
    → B r f g cs m
    → B r
        (update f p (u32 (f p + d_prod)))
        (update g p (u32 (g p + d_cons)))
        cs
        (grant p d_prod d_cons m)
grant-B r f g cs p d_prod d_cons m b = record {
  total_reserved = b.total_reserved;
  reserves = go;
  same_clients = b.same_clients;
  deaf = b.deaf;
}
  where
    go :
        (q : ℕ)
        → Reserves
            (update f p (u32 (f p + d_prod)) q)
            (update g p (u32 (g p + d_cons)) q)
            (get_proxy q (grant p d_prod d_cons m)).slabs
    go q = elim (Bool-cases (q == p)) [
      | inl e ↦
          rw e (
            ap (λ k. u32 (k + d_prod)) (b.reserves p).0,
            ap (λ k. u32 (k + d_cons)) (b.reserves p).1,
          )
      | inr e ↦ rw e (b.reserves q)
    ]

-- The books after an answer to a reservation of `d_prod + d_cons` slabs for the proxy.
module _ (env : Env) (r : ℕ) (f g : ℕ → ℕ) (cs : List (ℕ × ℕ)) (p d_prod d_cons : ℕ)
    (small : r < 2 ^ 32) (balance : r ≡ u32 (owed f g cs)) (once : times p cs ≡ 1) where
  granted_sum :
      u32 (r + u32 (d_prod + d_cons))
      ≡ u32 (owed (update f p (u32 (f p + d_prod))) (update g p (u32 (g p + d_cons))) cs)
  granted_sum =
      omega (arith, balance, owed-update f g p (u32 (f p + d_prod)) (u32 (g p + d_cons)) cs once)

  -- The rest of `HandleNumSlabs`, after the answer.
  abbrev rest_of : Bool → Manager → Outcome Manager (Unit {0})
  rest_of granted m1 =
      let m2 = if granted then grant p d_prod d_cons m1 else m1 in
      let t2 = (get_proxy p m2).slabs in
      (send env p (granted_slabs t2.num_prod_slabs t2.num_cons_slabs)
          >> (if granted then fill_producer_slabs env p else (λ m3. throw reservation_denied m3)))
        m2

  rest_of-IsAccounted :
      (o : Outcome Manager Bool)
      → Entered r f g cs (u32 (d_prod + d_cons)) o
      → IsAccounted (final (and_then o rest_of))
  rest_of-IsAccounted (ok true m1) b =
      let f' = update f p (u32 (f p + d_prod)) in
      let g' = update g p (u32 (g p + d_cons)) in
      let r' = u32 (r + u32 (d_prod + d_cons)) in
      IsAccounted-of_books r' f' g' cs _ granted_sum (
        seq-Keeps (B r' f' g' cs) (send env p _) (fill_producer_slabs env p)
          (send_on-Keeps r' f' g' cs env p p _) (fill_producer_slabs-Keeps r' f' g' cs env p) _
          (grant-B r' f g cs p d_prod d_cons m1 b))
  rest_of-IsAccounted (ok false m1) b = IsAccounted-of_books r f g cs _ balance (
      seq-Keeps (B r f g cs) (send env p _) (λ m3. throw reservation_denied m3)
        (send_on-Keeps r f g cs env p p _) (λ m3 b3. b3) m1 b)
  rest_of-IsAccounted (throw e m1) b = IsAccounted-of_books r f g cs m1 balance b

pub handle_num_slabs-IsAccounted :
    (env : Env) (p prod cons : ℕ) (m : Manager)
    → times p m.arg.clients ≡ 1
    → IsAccounted m
    → IsAccounted (final (handle_num_slabs env p prod cons m))
unfolding handle_num_slabs
handle_num_slabs-IsAccounted env p prod cons m once a =
    let r = m.num_slabs_reserved in
    let d_prod = more prod (prods m p) in
    let d_cons = more cons (conss m p) in
    let small : r < 2 ^ 32 = omega (arith, a.sum) in
    rest_of-IsAccounted env r (prods m) (conss m) m.arg.clients p d_prod d_cons small a.sum once
      (reserve_slabs env (u32 (d_prod + d_cons)) m)
      (reserve_slabs-Entered r (prods m) (conss m) m.arg.clients env (u32 (d_prod + d_cons)) m
        (books_of m a) small)
