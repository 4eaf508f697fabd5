-- ===== src/Manager/Buffers/Kept.antt =====
-- New buffers keep the books on reservations, and `GetSlabReservation` enters just what it grants.
use mcsb.Base.{
  ℕ, zero, suc, ◌+◌, ◌^◌, ◌<◌, ◌≡◌, ap, sym, subst, ◌∙◌, ◌==◌, Bool, true, false, not, ◌&&◌, ◌||◌,
  List, [], ◌∷◌, Option, none, some, if◌then◌else◌, ltb, u32, Outcome, ok, throw, final, Keeps,
  and_then, and_then-Keeps, bind-Keeps, seq-Keeps, if-keeps, ◌>>=◌, Option-cases, inl, inr,
}
use mcsb.SlabManager.{set_num_buffers, get_slab_reservation}
use mcsb.SlabManager.FrameHeld.{set_num_buffers-Keeps}
use mcsb.SlabManager.Reservation.{get_slab_reservation-Reserving}
use mcsb.SlabTracker.Frame.{total_num_slabs-Reserves}
use mcsb.Manager.{Manager, Env, shm_name, get_proxy, send}
use mcsb.Manager.Books.{B, B-Blind, rebook, put_proxy-B, send_on-Keeps, caught-B}
use mcsb.Manager.Buffers.{
  create_buffers, map_buffers, check_buffer_params, check_all_clients, use_buffers,
  increase_num_buffers, reserve_once, reserve_from, reserve_slabs,
}

module _ (r : ℕ) (f g : ℕ → ℕ) (cs : List (ℕ × ℕ)) (env : Env) where
  abbrev P : Manager → Type 0
  P = B r f g cs

  create_buffers-Keeps : (count i : ℕ) → Keeps P (create_buffers env count i)
  unfolding create_buffers
  create_buffers-Keeps zero i m b = b
  create_buffers-Keeps (suc count) i m b = elim (Option-cases (env.create_and_map i)) [
    | inl h ↦ rw (h, create_buffers) b
    | inr (errs, h) ↦
        rw (h, create_buffers)
          (create_buffers-Keeps count (i + 1) _ (record {
            total_reserved = b.total_reserved;
            reserves = b.reserves;
            same_clients = b.same_clients;
            deaf = b.deaf;
          }))
  ]

  map_buffers-Keeps : (n : ℕ) → Keeps P (map_buffers env n)
  unfolding map_buffers
  map_buffers-Keeps n m b =
      if-keeps P (ltb m.arg.max_num_buffers n || ltb n m.arg.mapped) _ _ b
        (create_buffers-Keeps _ _ m b)

  pub check_buffer_params-Keeps : (p : ℕ) → Keeps P (check_buffer_params env p)
  unfolding check_buffer_params
  check_buffer_params-Keeps p m b = if-keeps P (m.arg.blocks_per_slab == 0) _ _ b (
      caught-B r f g cs (send env p shm_name _) (
        send_on-Keeps r f g cs env p p shm_name _ (
          put_proxy-B r f g cs p _ m
            (total_num_slabs-Reserves (f p) (g p) _ (get_proxy p m).slabs (b.reserves p)) b)))

  check_all_clients-Keeps : (to : List (ℕ × ℕ)) → Keeps P (check_all_clients env to)
  unfolding check_all_clients
  check_all_clients-Keeps [] m b = b
  check_all_clients-Keeps ((id, p) ∷ rest) m b =
      and_then-Keeps P (check_buffer_params env p m) (λ _. check_all_clients env rest)
        (check_buffer_params-Keeps p m b) (λ _. check_all_clients-Keeps rest)

  use_buffers-Keeps : (n : ℕ) → Keeps P (use_buffers env n)
  unfolding use_buffers
  use_buffers-Keeps n m b = if-keeps P (not (m.arg.mapped == n)) _ _ b (
      if-keeps P (not (m.arg.lock_errors == 0) && not m.arg.allow_unlocked_memory) _ _ b (
        bind-Keeps P (set_num_buffers n) _ (set_num_buffers-Keeps P (B-Blind r f g cs) n)
          (λ _ m1 b1.
            seq-Keeps P (check_all_clients env m1.arg.clients) (λ m2. ok true m2)
              (check_all_clients-Keeps m1.arg.clients) (λ m2 b2. b2) m1 b1)
          m b))

  increase_num_buffers-Keeps : (n : ℕ) → Keeps P (increase_num_buffers env n)
  unfolding increase_num_buffers
  increase_num_buffers-Keeps n m b = if-keeps P (n == m.arg.mapped) _ _ b (
      seq-Keeps P (map_buffers env _) (use_buffers env _) (map_buffers-Keeps _)
        (use_buffers-Keeps _) m b)

-- What a reservation of `n` slabs leaves behind: `n` more in the books if it is granted, and nothing else.
abbrev pub Entered : ℕ → (ℕ → ℕ) → (ℕ → ℕ) → List (ℕ × ℕ) → ℕ → Outcome Manager Bool → Type 0
Entered r f g cs n (ok granted m) = B (if granted then u32 (r + n) else r) f g cs m
Entered r f g cs n (throw e m) = B r f g cs m

module _ (r : ℕ) (f g : ℕ → ℕ) (cs : List (ℕ × ℕ)) (env : Env) (n : ℕ) where
  -- A round without an answer has only made room.
  abbrev Answered : Outcome Manager (Option Bool) → Type 0
  Answered (ok none m) = B r f g cs m
  Answered (ok (some granted) m) = B (if granted then u32 (r + n) else r) f g cs m
  Answered (throw e m) = B r f g cs m

  refused :
      (o : Outcome Manager Bool)
      → B r f g cs (final o)
      → Answered (and_then o (λ grown m. ok (if grown then none else some false) m))
  refused (ok true m) b = b
  refused (ok false m) b = b
  refused (throw e m) b = b

  reserve_once-Answered :
      (m : Manager) → B r f g cs m → m.num_slabs_reserved < 2 ^ 32 → Answered (reserve_once env n m)
  unfolding reserve_once
  reserve_once-Answered m b small =
      let (res, which, arg) = get_slab_reservation-Reserving n m small in
      go (get_slab_reservation n m).0 (get_slab_reservation n m).1 res which arg
    where
      go :
          (granted : Bool) (m' : Manager)
          → m'.num_slabs_reserved
            ≡ (if granted then u32 (m.num_slabs_reserved + n) else m.num_slabs_reserved)
          → m'.which_state_change ≡ m.which_state_change
          → m'.arg ≡ m.arg
          → Answered (
              if granted
              then ok (some true) m'
              else (increase_num_buffers env 0 >>= λ grown m''.
                    ok (if grown then none else some false) m'')
                  m')
      go true m' res which arg =
          rebook r f g cs (u32 (r + n)) m m' b (res ∙ ap (λ k. u32 (k + n)) b.total_reserved) which
            arg
      go false m' res which arg = refused (increase_num_buffers env 0 m') (
          increase_num_buffers-Keeps r f g cs env 0 m'
            (rebook r f g cs r m m' b (res ∙ b.total_reserved) which arg))

  reserve_from-Entered :
      (fuel : ℕ) (m : Manager)
      → B r f g cs m
      → r < 2 ^ 32
      → Entered r f g cs n (reserve_from env fuel n m)
  unfolding reserve_from
  reserve_from-Entered zero m b small = b
  reserve_from-Entered (suc fuel) m b small =
      go (λ m1 b1. reserve_from-Entered fuel m1 b1 small) (reserve_once env n m)
        (reserve_once-Answered m b (subst (λ k. k < 2 ^ 32) (sym b.total_reserved) small))
    where
      go :
          ((m1 : Manager) → B r f g cs m1 → Entered r f g cs n (reserve_from env fuel n m1))
          → (o : Outcome Manager (Option Bool)) → Answered o
          → Entered r f g cs n (
              and_then o (λ answer m'. elim answer [
                | some granted ↦ ok granted m'
                | none ↦ reserve_from env fuel n m'
              ]))
      go again (ok none m1) b1 = again m1 b1
      go again (ok (some granted) m1) b1 = b1
      go again (throw e m1) b1 = b1

  pub reserve_slabs-Entered :
      (m : Manager) → B r f g cs m → r < 2 ^ 32 → Entered r f g cs n (reserve_slabs env n m)
  unfolding reserve_slabs
  reserve_slabs-Entered m b small = reserve_from-Entered _ m b small
