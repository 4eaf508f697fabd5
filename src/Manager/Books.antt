-- ===== src/Manager/Books.antt =====
-- The books on reservations: what is reserved in all, and how much each proxy has reserved. What most procedures
-- leave alone.
use mcsb.Base.{
  ℕ, ◌≡◌, ap, sym, ◌∙◌, ◌==◌, ==_iff, false, not, List, Proc, Outcome, ok, throw, final, Keeps,
  if-keeps, Bool-cases, inl, inr, is_runtime_error,
}
use mcsb.SlabManager.{free_to_held}
use mcsb.SlabManager.Frame.{Blind}
use mcsb.SlabTracker.{Tracker}
use mcsb.SlabTracker.Frame.{Reserves}
use mcsb.SlabRequests.{SlabRequestManager}
use mcsb.GroupManager.{GroupManager}
use mcsb.Manager.{
  Manager, ClientProxy, ManagerStats, Env, Message, get_proxy, put_proxy, with_tracker, on_tracker,
  with_rqsts, on_rqsts, with_groups, on_groups, caught, send_on,
}
use mcsb.Manager.Store.{get_proxy-put_self, get_proxy-put_ne}

-- `prods` and `conss` say what each proxy has reserved, `reserved` what the slab manager counts.
pub record Books (reserved : ℕ) (prods conss : ℕ → ℕ) (clients : List (ℕ × ℕ)) (m : Manager)
    : Type 0 where
  pub total_reserved : m.num_slabs_reserved ≡ reserved
  pub reserves : (p : ℕ) → Reserves (prods p) (conss p) (get_proxy p m).slabs
  pub same_clients : m.arg.clients ≡ clients
  pub deaf : m.which_state_change free_to_held ≡ false

module _ (reserved : ℕ) (prods conss : ℕ → ℕ) (clients : List (ℕ × ℕ)) where
  abbrev pub B : Manager → Type 0
  B = Books reserved prods conss clients

  -- A manager with another number of reserved slabs.
  pub rebook :
      (r' : ℕ) (m m' : Manager)
      → B m
      → m'.num_slabs_reserved ≡ r'
      → m'.which_state_change ≡ m.which_state_change
      → m'.arg ≡ m.arg
      → Books r' prods conss clients m'
  rebook r' m m' b r w a = record {
    total_reserved = r;
    reserves = λ p. (
      ap (λ x. (x.proxy p).slabs.num_prod_slabs) a ∙ (b.reserves p).0,
      ap (λ x. (x.proxy p).slabs.num_cons_slabs) a ∙ (b.reserves p).1,
    );
    same_clients = ap (λ x. x.clients) a ∙ b.same_clients;
    deaf = ap (λ h. h free_to_held) w ∙ b.deaf;
  }

  pub B-Blind : Blind B
  B-Blind m m' r w a b = rebook reserved m m' b (r ∙ b.total_reserved) w a

  -- A proxy changed beside its reservations.
  pub put_proxy-B :
      (p : ℕ) (x : ClientProxy) (m : Manager)
      → Reserves (prods p) (conss p) x.slabs
      → B m
      → B (put_proxy p x m)
  put_proxy-B p x m same b = record {
    total_reserved = b.total_reserved;
    reserves = go;
    same_clients = b.same_clients;
    deaf = b.deaf;
  }
    where
      go : (q : ℕ) → Reserves (prods q) (conss q) (get_proxy q (put_proxy p x m)).slabs
      go q = elim (Bool-cases (q == p)) [
        | inl e ↦
            let q_p = (==_iff q p).0 e in
            let here : get_proxy q (put_proxy p x m) ≡ x =
              ap (λ i. get_proxy i (put_proxy p x m)) q_p ∙ get_proxy-put_self p x m in
            (
              ap (λ y. y.slabs.num_prod_slabs) here ∙ same.0 ∙ ap prods (sym q_p),
              ap (λ y. y.slabs.num_cons_slabs) here ∙ same.1 ∙ ap conss (sym q_p),
            )
        | inr e ↦
            let there = get_proxy-put_ne p q x m e in
            (
              ap (λ y. y.slabs.num_prod_slabs) there ∙ (b.reserves q).0,
              ap (λ y. y.slabs.num_cons_slabs) there ∙ (b.reserves q).1,
            )
      ]

  -- The manager's counters are no part of the books.
  pub counters-B :
      (s : ManagerStats) (m : Manager)
      → B m
      → B (record m { arg = record m.arg { manager_stats = s } })
  counters-B s m b = record {
    total_reserved = b.total_reserved;
    reserves = b.reserves;
    same_clients = b.same_clients;
    deaf = b.deaf;
  }

  pub on_tracker-Keeps :
      {A : Type 0} (p : ℕ) (f : Proc Tracker A)
      → ((prod cons : ℕ) → Keeps (Reserves prod cons) f)
      → Keeps B (on_tracker p f)
  on_tracker-Keeps {A} p f k m b =
      go (f (get_proxy p m).slabs) (k (prods p) (conss p) (get_proxy p m).slabs (b.reserves p))
    where
      go :
          (o : Outcome Tracker A)
          → Reserves (prods p) (conss p) (final o)
          → B (final (with_tracker p m o))
      go (ok a t) r = put_proxy-B p (record (get_proxy p m) { slabs = t }) m r b
      go (throw e t) r = put_proxy-B p (record (get_proxy p m) { slabs = t }) m r b

  pub on_rqsts-Keeps : {A : Type 0} (f : Proc SlabRequestManager A) → Keeps B (on_rqsts f)
  on_rqsts-Keeps {A} f m b = go (f m.arg.rqsts)
    where
      go : (o : Outcome SlabRequestManager A) → B (final (with_rqsts m o))
      go (ok a r) = record {
        total_reserved = b.total_reserved;
        reserves = b.reserves;
        same_clients = b.same_clients;
        deaf = b.deaf;
      }
      go (throw e r) = record {
        total_reserved = b.total_reserved;
        reserves = b.reserves;
        same_clients = b.same_clients;
        deaf = b.deaf;
      }

  pub on_groups-Keeps : {A : Type 0} (f : Proc GroupManager A) → Keeps B (on_groups f)
  on_groups-Keeps {A} f m b = go (f m.arg.groups)
    where
      go : (o : Outcome GroupManager A) → B (final (with_groups m o))
      go (ok a r) = record {
        total_reserved = b.total_reserved;
        reserves = b.reserves;
        same_clients = b.same_clients;
        deaf = b.deaf;
      }
      go (throw e r) = record {
        total_reserved = b.total_reserved;
        reserves = b.reserves;
        same_clients = b.same_clients;
        deaf = b.deaf;
      }

  pub send_on-Keeps : (env : Env) (p q : ℕ) (msg : Message) → Keeps B (send_on env p q msg)
  unfolding send_on
  send_on-Keeps env p q msg m b = if-keeps B (not (get_proxy p m).connected) _ _ b (
      if-keeps B (env.refuses m.arg.sent q msg) _ _
        (put_proxy-B p (record (get_proxy p m) { connected = false }) m (b.reserves p) b)
        (record {
          total_reserved = b.total_reserved;
          reserves = b.reserves;
          same_clients = b.same_clients;
          deaf = b.deaf;
        }))

  -- A `catch` keeps what the procedure in it keeps.
  pub caught-B : (o : Outcome Manager (Unit {0})) → B (final o) → B (final (caught o))
  caught-B (ok a m) b = b
  caught-B (throw e m) b = if-keeps B (is_runtime_error e) (ok tt m) (throw e m) b b
