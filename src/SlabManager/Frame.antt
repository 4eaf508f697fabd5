-- ===== src/SlabManager/Frame.antt =====
-- What the slab manager's operations leave alone: a predicate of the reserved slabs, of the handler's
-- installation and of its argument is kept by what gives out and takes back slabs, if the handler keeps it.
use mcsb.Base.{
  ℕ, zero, suc, ◌≡◌, refl, ◌/◌, false, not, ◌&&◌, List, mem, is_nil, ltb, ◌==◌, Keeps,
  and_then-Keeps, bind-Keeps, seq-Keeps, ◌>>◌, Bool-cases, Nil-cases, inl, inr,
}
use mcsb.SlabManager.{
  SlabManager, Change, wanted_to_free, free_to_held, ProdClient, Handler, take_free, push_held,
  push_free, clear_producer, erase_wanted, erase_segment, get_slab_info, call_state_change_handler,
  get_free_slab, get_free_slabs, front_wanted_segment, push_free_segment, settle,
  release_wanted_segment,
}

module _ {κ} {W : Type 0} (P : SlabManager W → Type κ) where
  -- The predicate sees only these.
  abbrev pub Blind : Type κ
  Blind =
      (m m' : SlabManager W)
      → m'.num_slabs_reserved ≡ m.num_slabs_reserved
      → m'.which_state_change ≡ m.which_state_change
      → m'.arg ≡ m.arg
      → P m
      → P m'

  module _ (blind : Blind) where
    take_free-Keeps : (id : ℕ) (who : ProdClient) (what : ℕ) → Keeps P (take_free id who what)
    unfolding take_free
    take_free-Keeps id who what m p = elim (Bool-cases (not ((m.info id).held_refcnt == 0))) [
      | inl h ↦ rw h p
      | inr h ↦ elim (Bool-cases (not (is_nil (m.info id).wanted_segs))) [
        | inl w ↦ rw h (rw w p)
        | inr w ↦ rw h (rw w (blind m _ refl refl refl p))
      ]
    ]

    pub erase_wanted-Keeps : (id : ℕ) → Keeps P (erase_wanted id)
    unfolding erase_wanted
    erase_wanted-Keeps id m p = elim (Bool-cases (mem id m.wanted_slabs)) [
      | inl h ↦ rw h (blind m _ refl refl refl p)
      | inr h ↦ rw h p
    ]

    erase_segment-Keeps : (a id : ℕ) → Keeps P (erase_segment a id)
    unfolding erase_segment
    erase_segment-Keeps a id m p = elim (Bool-cases (is_nil (m.info id).wanted_segs)) [
      | inl h ↦ rw h p
      | inr h ↦ elim (Bool-cases (mem a (m.info id).wanted_segs)) [
        | inl w ↦ rw h (rw w (blind m _ refl refl refl p))
        | inr w ↦ rw h (rw w p)
      ]
    ]

    pub get_slab_info-Keeps : (id : ℕ) → Keeps P (get_slab_info id)
    unfolding get_slab_info
    get_slab_info-Keeps id m p = elim (Bool-cases (m.slabs_per_buf == 0)) [
      | inl h ↦ rw h p
      | inr h ↦ elim (Bool-cases (ltb (id / m.slabs_per_buf) m.num_buffers)) [
        | inl w ↦ rw h (rw w p)
        | inr w ↦ rw h (rw w p)
      ]
    ]

    pub front_wanted_segment-Keeps : Keeps P front_wanted_segment
    unfolding front_wanted_segment
    front_wanted_segment-Keeps m p = elim (Nil-cases m.wanted_slabs) [
      | inl h ↦ rw (h, front_wanted_segment) p
      | inr (id, ids, h) ↦ elim (Nil-cases (m.info id).wanted_segs) [
        | inl w ↦ rw (h, front_wanted_segment) (rw w p)
        | inr (a, rest, w) ↦ rw (h, front_wanted_segment) (rw w p)
      ]
    ]

    module _ (handler : Handler W)
        (handler-Keeps : (which : Change) (id : ℕ) → Keeps P (handler which id)) where
      pub call-Keeps :
          (which : Change) (id : ℕ) → Keeps P (call_state_change_handler handler which id)
      unfolding call_state_change_handler
      call-Keeps which id m p = elim (Bool-cases (m.which_state_change which)) [
        | inl h ↦ rw h (handler-Keeps which id m p)
        | inr h ↦ rw h p
      ]

      let_free-Keeps :
          (id : ℕ)
          → Keeps P (
              erase_wanted id
              >> clear_producer id
              >> push_free id
              >> call_state_change_handler handler wanted_to_free id)
      let_free-Keeps id =
          seq-Keeps P (erase_wanted id >> clear_producer id >> push_free id)
            (call_state_change_handler handler wanted_to_free id)
            (seq-Keeps P (erase_wanted id >> clear_producer id) (push_free id)
              (seq-Keeps P (erase_wanted id) (clear_producer id) (erase_wanted-Keeps id)
                (λ m p. blind m _ refl refl refl p))
              (λ m p. blind m _ refl refl refl p))
            (call-Keeps wanted_to_free id)

      settle-Keeps : (id : ℕ) → Keeps P (settle handler id)
      unfolding settle
      settle-Keeps id m p =
          elim (Bool-cases (is_nil (m.info id).wanted_segs && (m.info id).held_refcnt == 0)) [
            | inr h ↦ rw h p
            | inl h ↦ rw h (let_free-Keeps id m p)
          ]

      pub release_wanted_segment-Keeps : (a id : ℕ) → Keeps P (release_wanted_segment handler a id)
      unfolding release_wanted_segment
      release_wanted_segment-Keeps a id =
          bind-Keeps P (get_slab_info id)
            (λ _. erase_segment a id >> (push_free_segment handler a >> settle handler id))
            (get_slab_info-Keeps id)
            (λ _.
              seq-Keeps P (erase_segment a id) (push_free_segment handler a >> settle handler id)
                (erase_segment-Keeps a id)
                (seq-Keeps P (push_free_segment handler a) (settle handler id)
                  (λ m p. blind m _ refl refl refl p) (settle-Keeps id)))

  -- Free slabs are given out without a call of the handler, if it is not told of them.
  module _ (blind : Blind) (handler : Handler W)
      (deaf : (m : SlabManager W) → P m → m.which_state_change free_to_held ≡ false) where
    call-deaf : (id : ℕ) → Keeps P (call_state_change_handler handler free_to_held id)
    unfolding call_state_change_handler
    call-deaf id m p = rw (deaf m p) p

    get_free_slab-Keeps :
        (id : ℕ) (rest : List ℕ) (who : ProdClient) (what : ℕ)
        → Keeps P (get_free_slab handler id rest who what)
    unfolding get_free_slab
    get_free_slab-Keeps id rest who what m p =
        seq-Keeps P (take_free id who what >> push_held id)
          (call_state_change_handler handler free_to_held id)
          (seq-Keeps P (take_free id who what) (push_held id) (take_free-Keeps blind id who what)
            (λ m1 p1. blind m1 _ refl refl refl p1))
          (call-deaf id) (record m { free_slabs = rest }) (blind m _ refl refl refl p)

    pub get_free_slabs-Keeps :
        (n : ℕ) (who : ProdClient) (what : ℕ) → Keeps P (get_free_slabs handler n who what)
    unfolding get_free_slabs
    get_free_slabs-Keeps zero who what m p = p
    get_free_slabs-Keeps (suc n) who what m p = elim (Nil-cases m.free_slabs) [
      | inl h ↦ rw (h, get_free_slabs) p
      | inr (id, rest, h) ↦
          rw (h, get_free_slabs)
            (and_then-Keeps P (get_free_slab handler id rest who what m) _
              (get_free_slab-Keeps id rest who what m p)
              (λ _ m1 p1.
                and_then-Keeps P (get_free_slabs handler n who what m1) _
                  (get_free_slabs-Keeps n who what m1 p1) (λ ids m2 p2. p2)))
    ]
