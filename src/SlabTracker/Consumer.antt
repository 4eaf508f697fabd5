-- ===== src/SlabTracker/Consumer.antt =====
-- Consumer slabs: `TakeConsSlab` and `DecrementConsSlabs`.
use mcsb.Base.{
  ℕ, ◌+◌, ◌^◌, ◌≤◌, ◌<◌, ◌≡◌, ◌≢◌, refl, sym, ap, subst, false≢true, ◌∙◌, inl, inr, true, false,
  not, ◌||◌, List, [], ◌∷◌, none, some, arith, ◌==◌, ltb, u16, u32, sub32, length, get_elem?, set,
  total-set, total-le-length, length-set, get_elem?-set_self, get_elem?-set_ne, set-set_self,
  set-set_ne, set-get_elem?, lt_of_get_elem?, get_elem?-some, if◌then◌else◌, ok, throw, final,
  returns, Bool-cases, Option-cases, ==_iff, decrement_errors,
}
use mcsb.SlabTracker.{
  Tracker, take_cons_slab, decrement_cons_slab, undo_cons_slab, decrement_loop, undo_loop,
  decrement_cons_slabs,
}
use mcsb.SlabTracker.Invariant.{
  IsCons, used, Small, Small-set, Small-get_elem?, cons_held-le, bit-le-one,
}

-- While the count of held slabs is right and within the reservation and the slab's own count does
-- not overflow, `TakeConsSlab` gives a slab to a client that is below its reservation or holds the
-- slab already, and to no other; the count of held slabs stays right and within the reservation.
pub take_cons_slab-IsCons :
    (id c : ℕ) (t : Tracker)
    → IsCons t
    → t.cons_slabs_held ≤ t.num_cons_slabs
    → get_elem? t.cons_refcnt id ≡ some c
    → c < 65535
    → (t' : Tracker) × (take_cons_slab id t
        ≡ ok (ltb t.cons_slabs_held t.num_cons_slabs || not (c == 0)) t')
      × IsCons t'
      × (t'.cons_slabs_held ≤ t'.num_cons_slabs)
unfolding take_cons_slab
take_cons_slab-IsCons id c t p fits e room =
    let more = set t.cons_refcnt id (u16 (c + 1)) in
    let sum = total-set used t.cons_refcnt id (u16 (c + 1)) c e in
    let same = length-set t.cons_refcnt id (u16 (c + 1)) in
    let bound = total-le-length used more (λ k. bit-le-one (not (k == 0))) in
    let small : Small more = Small-set t.cons_refcnt id (u16 (c + 1)) (omega arith) p.small in
    elim (Bool-cases (ltb t.cons_slabs_held t.num_cons_slabs)) [
      | inl below ↦ (
        record t {
          cons_refcnt = more;
          cons_slabs_held = if c == 0 then u32 (t.cons_slabs_held + 1) else t.cons_slabs_held;
        },
        ground arith,
        record {
          held = ground (arith, p.held, p.size, sum, same, bound);
          small = small;
          size = ground (arith, p.size, same);
        },
        ground (arith, p.size, cons_held-le t p),
      )
      | inr full ↦ elim (Bool-cases (c == 0)) [
        | inl new ↦ (t, ground arith, p, fits)
        | inr old ↦ (
          record t { cons_refcnt = more },
          ground arith,
          record {
            held = ground (arith, p.held, sum);
            small = small;
            size = ground (arith, p.size, same);
          },
          fits,
        )
      ]
    ]

-- The state that one round of the decrement, or of its undoing, leaves for a slab with `c` references.
abbrev down : ℕ → ℕ → Tracker → Tracker
down id c t = record t {
  cons_refcnt = set t.cons_refcnt id (u16 (c + 65535));
  cons_slabs_held = if u16 (c + 65535) == 0 then sub32 t.cons_slabs_held 1 else t.cons_slabs_held;
}

abbrev up : ℕ → ℕ → Tracker → Tracker
up id c t = record t {
  cons_refcnt = set t.cons_refcnt id (u16 (c + 1));
  cons_slabs_held = if c == 0 then u32 (t.cons_slabs_held + 1) else t.cons_slabs_held;
}

abbrev with_count : (ℕ → ℕ → Tracker → Tracker) → ℕ → Tracker → Tracker
with_count f id t = elim (get_elem? t.cons_refcnt id) [ none ↦ t | some c ↦ f id c t ]

down_at : ℕ → Tracker → Tracker
down_at = with_count down

up_at : ℕ → Tracker → Tracker
up_at = with_count up

downs : List ℕ → Tracker → Tracker
downs [] t = t
downs (id ∷ ids) t = downs ids (down_at id t)

ups : List ℕ → Tracker → Tracker
ups [] t = t
ups (id ∷ ids) t = ups ids (up_at id t)

-- Counts in their ranges.
record IsWord (t : Tracker) : Type 0 where
  small : Small t.cons_refcnt
  held : t.cons_slabs_held < 2 ^ 32

down_at-IsWord : (id : ℕ) (t : Tracker) → IsWord t → IsWord (down_at id t)
unfolding down_at
down_at-IsWord id t w = elim (Option-cases (get_elem? t.cons_refcnt id)) [
  | inl e ↦ rw (e, down_at, with_count) w
  | inr (c, e) ↦
      rw (e, down_at, with_count)
        (record {
          small = Small-set t.cons_refcnt id (u16 (c + 65535)) (omega arith) w.small;
          held = ground (arith, w.held);
        })
]

up_down : (id : ℕ) (t : Tracker) → IsWord t → up_at id (down_at id t) ≡ t
unfolding up_at down_at
up_down id t w = elim (Option-cases (get_elem? t.cons_refcnt id)) [
  | inl e ↦ ground arith
  | inr (c, e) ↦ ground (
    arith,
    w.held,
    Small-get_elem? t.cons_refcnt id c w.small e,
    get_elem?-set_self t.cons_refcnt id (u16 (c + 65535)) (lt_of_get_elem? t.cons_refcnt id e),
    set-set_self t.cons_refcnt id (u16 (c + 65535)) c,
    set-get_elem? t.cons_refcnt id c e,
  )
]

down_up : (id : ℕ) (t : Tracker) → IsWord t → down_at id (up_at id t) ≡ t
unfolding up_at down_at
down_up id t w = elim (Option-cases (get_elem? t.cons_refcnt id)) [
  | inl e ↦ ground arith
  | inr (c, e) ↦ ground (
    arith,
    w.held,
    Small-get_elem? t.cons_refcnt id c w.small e,
    get_elem?-set_self t.cons_refcnt id (u16 (c + 1)) (lt_of_get_elem? t.cons_refcnt id e),
    set-set_self t.cons_refcnt id (u16 (c + 1)) c,
    set-get_elem? t.cons_refcnt id c e,
  )
]

up_down_ne :
    (i j : ℕ) (t : Tracker) → i ≢ j → IsWord t → up_at i (down_at j t) ≡ down_at j (up_at i t)
unfolding up_at down_at
up_down_ne i j t ne w = elim (Option-cases (get_elem? t.cons_refcnt i)) [
  | inl e ↦ elim (Option-cases (get_elem? t.cons_refcnt j)) [
    | inl e' ↦ ground arith
    | inr (d, e') ↦
        ground (arith, get_elem?-set_ne t.cons_refcnt j i (u16 (d + 65535)) (λ h. ne (sym h)))
  ]
  | inr (c, e) ↦ elim (Option-cases (get_elem? t.cons_refcnt j)) [
    | inl e' ↦ ground (arith, get_elem?-set_ne t.cons_refcnt i j (u16 (c + 1)) ne)
    | inr (d, e') ↦ ground (
      arith,
      w.held,
      get_elem?-set_ne t.cons_refcnt j i (u16 (d + 65535)) (λ h. ne (sym h)),
      get_elem?-set_ne t.cons_refcnt i j (u16 (c + 1)) ne,
      set-set_ne t.cons_refcnt j i (u16 (d + 65535)) (u16 (c + 1)) (λ h. ne (sym h)),
    )
  ]
]

up_down_comm : (i j : ℕ) (t : Tracker) → IsWord t → up_at i (down_at j t) ≡ down_at j (up_at i t)
up_down_comm i j t w = elim (Bool-cases (i == j)) [
  | inl same ↦
      subst (λ k. up_at i (down_at k t) ≡ down_at k (up_at i t)) ((==_iff i j).0 same)
        (up_down i t w ∙ sym (down_up i t w))
  | inr other ↦ up_down_ne i j t (ground arith) w
]

up_downs_comm :
    (i : ℕ) (ids : List ℕ) (t : Tracker) → IsWord t → up_at i (downs ids t) ≡ downs ids (up_at i t)
unfolding downs
up_downs_comm i [] t w = refl
up_downs_comm i (j ∷ ids) t w =
    up_downs_comm i ids (down_at j t) (down_at-IsWord j t w) ∙ ap (downs ids) (up_down_comm i j t w)

-- The undoing runs in the order of the decrements, not backwards, and still meets them all.
ups-downs : (ids : List ℕ) (t : Tracker) → IsWord t → ups ids (downs ids t) ≡ t
unfolding ups downs
ups-downs [] t w = refl
ups-downs (id ∷ ids) t w =
    ap (ups ids) (
      up_downs_comm id ids (down_at id t) (down_at-IsWord id t w) ∙ ap (downs ids) (up_down id t w))
    ∙ ups-downs ids t w

-- Every slabID has a place in a vector of that size.
abbrev pub InRange : ℕ → List ℕ → Type 0
InRange n [] = Unit {0}
InRange n (id ∷ ids) = (id < n) × InRange n ids

length-down_at : (id : ℕ) (t : Tracker) → length (down_at id t).cons_refcnt ≡ length t.cons_refcnt
unfolding down_at
length-down_at id t = elim (Option-cases (get_elem? t.cons_refcnt id)) [
  | inl e ↦ rw (e, with_count)
  | inr (c, e) ↦ ground (arith, length-set t.cons_refcnt id (u16 (c + 65535)))
]

length-up_at : (id : ℕ) (t : Tracker) → length (up_at id t).cons_refcnt ≡ length t.cons_refcnt
unfolding up_at
length-up_at id t = elim (Option-cases (get_elem? t.cons_refcnt id)) [
  | inl e ↦ rw (e, with_count)
  | inr (c, e) ↦ ground (arith, length-set t.cons_refcnt id (u16 (c + 1)))
]

length-downs :
    (ids : List ℕ) (t : Tracker) → length (downs ids t).cons_refcnt ≡ length t.cons_refcnt
unfolding downs
length-downs [] t = refl
length-downs (id ∷ ids) t = length-downs ids (down_at id t) ∙ length-down_at id t

undo_cons_slab-up :
    (id : ℕ) (t : Tracker) → id < length t.cons_refcnt → undo_cons_slab id t ≡ ok tt (up_at id t)
unfolding undo_cons_slab up_at
undo_cons_slab-up id t h = let (c, e) = get_elem?-some t.cons_refcnt id h in ground (arith, e)

InRange-down_at :
    (id : ℕ) (ids : List ℕ) (t : Tracker)
    → InRange (length t.cons_refcnt) ids
    → InRange (length (down_at id t).cons_refcnt) ids
InRange-down_at id ids t = subst (λ n. InRange n ids) (sym (length-down_at id t))

decrement_cons_slab_mono :
    (id errs : ℕ) (t : Tracker)
    → id < length t.cons_refcnt
    → (errs' : ℕ) × (decrement_cons_slab id errs t ≡ ok errs' (down_at id t)) × (errs ≤ errs')
unfolding decrement_cons_slab down_at
decrement_cons_slab_mono id errs t h =
    let (c, e) = get_elem?-some t.cons_refcnt id h in
    let errs1 : ℕ = if c == 0 then errs + 1 else errs in
    (
      if u16 (c + 65535) == 0 then (if t.cons_slabs_held == 0 then errs1 + 1 else errs1) else errs1,
      ground (arith, e),
      ground arith,
    )

-- The errors of a run, which only grow.
decrement_loop_mono :
    (ids : List ℕ) (errs : ℕ) (t : Tracker)
    → InRange (length t.cons_refcnt) ids
    → (n : ℕ) × (decrement_loop ids errs t ≡ ok n (downs ids t)) × (errs ≤ n)
unfolding decrement_loop downs
decrement_loop_mono [] errs t r = (errs, refl, omega arith)
decrement_loop_mono (id ∷ ids) errs t r =
    let (errs1, one, le) = decrement_cons_slab_mono id errs t r.0 in
    let (n, rest, le') =
      decrement_loop_mono ids errs1 (down_at id t) (InRange-down_at id ids t r.1) in
    (n, rw one rest, omega arith)

undo_loop-ups :
    (ids : List ℕ) (t : Tracker)
    → InRange (length t.cons_refcnt) ids
    → undo_loop ids t ≡ ok tt (ups ids t)
unfolding undo_loop ups
undo_loop-ups [] t r = refl
undo_loop-ups (id ∷ ids) t r =
    rw (undo_cons_slab-up id t r.0)
      (undo_loop-ups ids (up_at id t) (subst (λ n. InRange n ids) (sym (length-up_at id t)) r.1))

-- If `DecrementConsSlabs` throws on slabs that exist, with 16-bit counts of each and a 32-bit count
-- of slabs, the tracker is as it was before the call, counts that wrapped below zero and slabs
-- named several times included.
pub decrement_cons_slabs-restores :
    (ids : List ℕ) (t : Tracker)
    → Small t.cons_refcnt
    → t.cons_slabs_held < 2 ^ 32
    → InRange (length t.cons_refcnt) ids
    → returns (decrement_cons_slabs ids t) ≡ false
    → decrement_cons_slabs ids t ≡ throw decrement_errors t
unfolding decrement_cons_slabs
decrement_cons_slabs-restores ids t small held r failed =
    let (errs, run, _) = decrement_loop_mono ids 0 t r in
    let undo =
      undo_loop-ups ids (downs ids t) (subst (λ n. InRange n ids) (sym (length-downs ids t)) r) in
    let back = ups-downs ids t (record { small = small; held = held }) in
    elim (Bool-cases (errs == 0)) [
      | inl fine ↦
          let returned : returns (decrement_cons_slabs ids t) ≡ true = rw (run, fine) in
          absurd (false≢true (sym failed ∙ returned))
      | inr bad ↦ rw (run, bad, undo, back)
    ]

-- One round that counts no error had a reference to take away, and keeps the count of held slabs.
decrement_cons_slab-IsCons :
    (id errs : ℕ) (t : Tracker)
    → IsCons t
    → id < length t.cons_refcnt
    → (errs' : ℕ) × (decrement_cons_slab id errs t ≡ ok errs' (down_at id t))
      × (errs ≤ errs')
      × (errs' ≤ 0 → IsCons (down_at id t))
unfolding decrement_cons_slab down_at
decrement_cons_slab-IsCons id errs t p h =
    let (c, e) = get_elem?-some t.cons_refcnt id h in
    let errs1 : ℕ = if c == 0 then errs + 1 else errs in
    let small = Small-get_elem? t.cons_refcnt id c p.small e in
    let sum = total-set used t.cons_refcnt id (u16 (c + 65535)) c e in
    let same = length-set t.cons_refcnt id (u16 (c + 65535)) in
    (
      if u16 (c + 65535) == 0 then (if t.cons_slabs_held == 0 then errs1 + 1 else errs1) else errs1,
      ground (arith, e),
      ground arith,
      λ none.
          rw (e, with_count)
            (record {
              held = ground (arith, p.held, p.size, sum, small, cons_held-le t p);
              small = Small-set t.cons_refcnt id (u16 (c + 65535)) (omega arith) p.small;
              size = ground (arith, p.size, same);
            }),
    )

decrement_loop-IsCons :
    (ids : List ℕ) (errs : ℕ) (t : Tracker)
    → IsCons t
    → InRange (length t.cons_refcnt) ids
    → (n : ℕ) × (decrement_loop ids errs t ≡ ok n (downs ids t)) × (n ≤ 0 → IsCons (downs ids t))
unfolding decrement_loop downs
decrement_loop-IsCons [] errs t p r = (errs, refl, λ none. p)
decrement_loop-IsCons (id ∷ ids) errs t p r =
    let (errs1, one, _, keep) = decrement_cons_slab-IsCons id errs t p r.0 in
    let (n, rest, le) =
      decrement_loop_mono ids errs1 (down_at id t) (InRange-down_at id ids t r.1) in
    (
      n,
      rw one rest,
      λ none.
          let (n', rest', keep') =
            decrement_loop-IsCons ids errs1 (down_at id t) (keep (omega arith))
              (InRange-down_at id ids t r.1) in
          let same : n' ≡ n = cc in keep' (omega arith),
    )

-- If `DecrementConsSlabs` returns on slabs that exist, the count of held slabs, right before, is
-- right for the lowered counts.
pub decrement_cons_slabs-IsCons :
    (ids : List ℕ) (t : Tracker)
    → IsCons t
    → InRange (length t.cons_refcnt) ids
    → returns (decrement_cons_slabs ids t) ≡ true
    → IsCons (final (decrement_cons_slabs ids t))
unfolding decrement_cons_slabs
decrement_cons_slabs-IsCons ids t p r done =
    let (n, run, keep) = decrement_loop-IsCons ids 0 t p r in
    let undo =
      undo_loop-ups ids (downs ids t) (subst (λ n. InRange n ids) (sym (length-downs ids t)) r) in
    elim (Bool-cases (n == 0)) [
      | inl fine ↦ rw (run, fine) (keep (ground arith))
      | inr bad ↦
          let failed : returns (decrement_cons_slabs ids t) ≡ false = rw (run, bad, undo) in
          absurd (false≢true (sym failed ∙ done))
    ]
