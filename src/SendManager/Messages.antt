-- ===== src/SendManager/Messages.antt =====
-- `GetMessageDescriptor`: the segments of a message that spans slabs.
use mcsb.Base.{
  ℕ, zero, suc, ◌*◌, ◌≤◌, ◌<◌, ◌≡◌, ◌≢◌, refl, sym, ap, subst, ◌∙◌, true, false, List, [], ◌∷◌,
  ◌++◌, Option, none, some, arith, ltb, u32, length, mem, count-append, append_assoc, append-nil,
  total-ext, ok,
}
use mcsb.SendManager.{SendManager, SendSegment, pick_slab, harvest, link_after, add_whole_slabs}
use mcsb.SendManager.Pool.{Inv, live}
use mcsb.SendManager.Segments.{NewSegment, no_slab, made, get_segment-Got}

-- The `next` pointers lead through the segments, in order, and end.
abbrev pub Linked : (ℕ → SendSegment) → List ℕ → Type 0
Linked seg [] = Unit {0}
Linked seg (a ∷ []) = (seg a).next ≡ none
Linked seg (a ∷ b ∷ segs) = ((seg a).next ≡ some b) × Linked seg (b ∷ segs)

-- All the segments have this size.
abbrev pub Sized : (ℕ → SendSegment) → ℕ → List ℕ → Type 0
Sized seg size [] = Unit {0}
Sized seg size (a ∷ segs) = ((seg a).size ≡ size) × Sized seg size segs

pub link_after-Inv : (a : ℕ) (next : Option ℕ) (m : SendManager) → Inv m → Inv (link_after a next m)
unfolding link_after
link_after-Inv a next m v =
    let m' = link_after a next m in
    let lives : (s : ℕ) → live m' s ≡ live m s =
      λ s. total-ext _ _ m.busy_segs (λ b. ground arith) in
    record {
      segs = v.segs;
      slabs = λ s. record {
        once = (v.slabs s).once;
        marked = (v.slabs s).marked;
        counted = (v.slabs s).counted ∙ sym (lives s);
        bounded = (v.slabs s).bounded;
        fits = (v.slabs s).fits;
        full = (v.slabs s).full;
        idle = (v.slabs s).idle;
        fresh = (v.slabs s).fresh;
        known = (v.slabs s).known;
      };
      size = v.size;
      ids = v.ids;
    }

some≢none : {A : Type 0} {a : A} → some a ≢ none
some≢none e = cc

-- With a free slab, a whole slab can be had.
pub no_slab-empty :
    (m : SendManager) → pick_slab m.blocks_per_slab false m ≡ none → length m.free_slabs ≡ 0
unfolding pick_slab harvest
no_slab-empty m e = by_front m.free_slabs refl (rw (self, pick_slab) at e)
  where
    self : ltb m.blocks_per_slab m.blocks_per_slab ≡ false
    self = ground arith

    by_front : (fs : List ℕ) → m.free_slabs ≡ fs → harvest false m ≡ none → length m.free_slabs ≡ 0
    by_front [] e h = ground arith
    by_front (s ∷ rest) e h = absurd (some≢none (rw (e, harvest) at h))

-- The segments `added` behind `l`, for as many whole slabs.
pub record Added (m : SendManager) (l k : ℕ) (m' : SendManager) : Type 0 where
  pub added : List ℕ
  pub inv : Inv m'
  pub many : length added ≡ k
  pub busy : m'.busy_segs ≡ m.busy_segs ++ added
  pub new : (b : ℕ) → mem b added ≡ true → mem b m.busy_segs ≡ false
  pub linked : Linked m'.seg (l ∷ added)
  pub sized : Sized m'.seg (u32 (m.blocks_per_slab * m.block_size)) added
  pub others : (b : ℕ) → b ≢ l → mem b added ≡ false → m'.seg b ≡ m.seg b
  pub size : (m'.seg l).size ≡ (m.seg l).size
  pub same_slabs : m'.blocks_per_slab ≡ m.blocks_per_slab

-- A round: `a` is made and linked behind `l`, and the rest goes behind `a`.
round-Added :
    (k l a : ℕ) (m m1 m' : SendManager)
    → mem l m.busy_segs ≡ true
    → NewSegment m.blocks_per_slab false m a m1
    → Added (link_after l (some a) m1) a k m'
    → Added m l (suc k) m'
unfolding link_after
round-Added k l a m m1 m' held s d =
    let apart : l ≢ a = λ e. ground (arith, s.new) in
    let l_old : mem l d.added ≡ false =
      ground (arith, d.new l, s.busy, count-append l m.busy_segs (a ∷ [])) in
    let a_old : mem a d.added ≡ false =
      ground (arith, d.new a, s.busy, count-append a m.busy_segs (a ∷ [])) in
    let m2 : SendManager = link_after l (some a) m1 in
    let kept : m'.seg l ≡ m2.seg l = d.others l apart l_old in
    record {
      added = a ∷ d.added;
      inv = d.inv;
      many = ground (arith, d.many);
      busy = d.busy ∙ ap (λ q. q ++ d.added) s.busy ∙ append_assoc m.busy_segs (a ∷ []) d.added;
      new = λ b h. ground (arith, d.new b, s.new, s.busy, count-append b m.busy_segs (a ∷ []));
      linked = (ap (λ (x : SendSegment). x.next) kept ∙ ground arith, d.linked);
      sized = (
        d.size ∙ ground (arith, s.size),
        subst (λ q. Sized m'.seg q d.added) (ground (arith, s.block_size, s.blocks_per_slab))
            d.sized,
      );
      others = λ b ne h.
          d.others b (λ e. ground arith) (ground arith)
          ∙ ground (arith, s.others b (λ e. ground arith));
      size = ap (λ (x : SendSegment). x.size) kept ∙ ground (arith, s.others l apart);
      same_slabs = d.same_slabs ∙ s.blocks_per_slab;
    }

pub add_whole_slabs-Added :
    (k b l : ℕ) (m : SendManager)
    → Inv m
    → 0 < m.blocks_per_slab
    → k ≤ length m.free_slabs
    → mem l m.busy_segs ≡ true
    → (k ≡ 0 → (m.seg l).next ≡ none)
    → (m' : SendManager) × (add_whole_slabs k (some b) (some l) m ≡ ok (some b) m') × Added m l k m'
unfolding add_whole_slabs link_after
add_whole_slabs-Added zero b l m v pos enough held last = (
  m,
  refl,
  record {
    added = [];
    inv = v;
    many = refl;
    busy = sym (append-nil m.busy_segs);
    new = λ c h. ground arith;
    linked = last refl;
    sized = tt;
    others = λ c ne h. refl;
    size = refl;
    same_slabs = refl;
  },
)
add_whole_slabs-Added (suc k) b l m v pos enough held last =
    elim (get_segment-Got m.blocks_per_slab false m v pos (omega arith)) [
      | no_slab nowhere run ↦ absurd (omega (arith, no_slab-empty m nowhere))
      | made a m1 run s ↦
          let m2 : SendManager = link_after l (some a) m1 in
          let (m', rest, d) =
            add_whole_slabs-Added k b a m2 (link_after-Inv l (some a) m1 s.inv)
              (ground (arith, s.blocks_per_slab)) (ground (arith, s.free_slabs))
              (ground (arith, s.busy, count-append a m.busy_segs (a ∷ [])))
              (λ none_left. ground (arith, s.next, s.new)) in
          (m', rw run rest, round-Added k l a m m1 m' held s d)
    ]
