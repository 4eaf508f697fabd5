-- ===== src/RecvManager/Release.antt =====
-- The loop of `ReleaseMessageDescriptor`: that it ends, and what it moves.
use mcsb.Base.{
  ℕ, zero, suc, ◌+◌, ◌≤◌, ◌<◌, ◌≡◌, ◌≢◌, refl, sym, subst, ◌∙◌, inl, inr, Bool, true, List, [], ◌∷◌,
  ◌++◌, Option, none, some, arith, length, count, mem, erase, count-erase, length-append,
  count-append, length-erase, count-le-length, append_assoc, append-nil, ok, throw, Outcome,
  out_of_fuel, hook_fault, if◌then◌else◌, Bool-cases,
}
use mcsb.RecvManager.{RecvManager, get_message_descriptor, release_from, release_message_descriptor}
use mcsb.RecvManager.Messages.{Linked}
use mcsb.RecvManager.Segments.{Inv}
use mcsb.RecvManager.Delivery.{get_message_descriptor-Delivered}

-- The segment `a` goes from the busy ones to the retired ones.
abbrev retire : ℕ → RecvManager → RecvManager
retire a m = record m { busy_segs = erase a m.busy_segs; retired_segs = m.retired_segs ++ (a ∷ []) }

abbrev Result : Type 0
Result = Outcome RecvManager (Unit {0})

hook≢fuel : (r : Result) (m m' : RecvManager) → r ≡ throw hook_fault m → r ≢ throw out_of_fuel m'
hook≢fuel r m m' e h = cc

release_from-enough :
    (fuel : ℕ) (desc : Option ℕ) (m m' : RecvManager)
    → length m.busy_segs < fuel
    → release_from fuel desc m ≢ throw out_of_fuel m'
unfolding release_from
release_from-enough fuel none m m' h e = cc
release_from-enough zero (some a) m m' h e = omega arith
release_from-enough (suc fuel) (some a) m m' h e =
    let branch : Bool → Result =
      λ b. if b then release_from fuel (m.seg a).next (retire a m) else throw hook_fault m in
    elim (Bool-cases (mem a m.busy_segs)) [
      | inr other ↦ hook≢fuel _ m m' refl (subst (λ b. branch b ≡ throw out_of_fuel m') other e)
      | inl mine ↦
          release_from-enough fuel (m.seg a).next (retire a m) m'
            (ground (arith, length-erase a m.busy_segs, count-le-length a m.busy_segs))
            (subst (λ b. branch b ≡ throw out_of_fuel m') mine e)
    ]

-- The rounds of `ReleaseMessageDescriptor` are enough, whatever the `next` pointers are, a cycle
-- too: it never runs out of them.
pub release_message_descriptor-ends :
    (desc : Option ℕ) (m m' : RecvManager)
    → release_message_descriptor desc m ≢ throw out_of_fuel m'
unfolding release_message_descriptor
release_message_descriptor-ends desc m m' =
    release_from-enough (length m.busy_segs + 1) desc m m' (omega arith)

-- The state after the release of the segments `segs`.
pub record Released (m : RecvManager) (segs : List ℕ) (r : Outcome RecvManager (Unit {0}))
    : Type 0 where
  pub after : RecvManager
  pub returned : r ≡ ok tt after
  pub retired : after.retired_segs ≡ m.retired_segs ++ segs
  pub busy : (z : ℕ) → count z after.busy_segs + count z segs ≡ count z m.busy_segs
  pub pending : after.pending_segs ≡ m.pending_segs
  pub free : after.free_segs ≡ m.free_segs

abbrev pub head : List ℕ → Option ℕ
head [] = none
head (a ∷ segs) = some a

next_of :
    (m : RecvManager) (a : ℕ) (segs : List ℕ) → Linked m.seg (a ∷ segs) → (m.seg a).next ≡ head segs
next_of m a [] l = l
next_of m a (b ∷ segs) l = l.0

tail_of : (m : RecvManager) (a : ℕ) (segs : List ℕ) → Linked m.seg (a ∷ segs) → Linked m.seg segs
tail_of m a [] l = tt
tail_of m a (b ∷ segs) l = l.1

release_from-chain :
    (fuel : ℕ) (segs : List ℕ) (m : RecvManager)
    → length segs ≤ fuel
    → Linked m.seg segs
    → ((z : ℕ) → count z segs ≤ count z m.busy_segs)
    → Released m segs (release_from fuel (head segs) m)
unfolding release_from
release_from-chain fuel [] m enough linked held = record {
  after = m;
  returned = refl;
  retired = sym (append-nil m.retired_segs);
  busy = λ z. omega arith;
  pending = refl;
  free = refl;
}
release_from-chain zero (a ∷ segs) m enough linked held = absurd (omega arith)
release_from-chain (suc fuel) (a ∷ segs) m enough linked held =
    let m1 : RecvManager = retire a m in
    let mine : mem a m.busy_segs ≡ true = ground (arith, held a) in
    let r =
      release_from-chain fuel segs m1 (omega arith) (tail_of m a segs linked)
        (λ z. ground (arith, held z, count-erase z a m.busy_segs)) in
    rw (mine, next_of m a segs linked)
      (record {
        after = r.after;
        returned = r.returned;
        retired = r.retired ∙ append_assoc m.retired_segs (a ∷ []) segs;
        busy = λ z. ground (arith, r.busy z, held z, count-erase z a m.busy_segs);
        pending = r.pending;
        free = r.free;
      })

-- While each segment stands in one list and no message is set aside, a message that
-- `GetMessageDescriptor` has found is released as a whole: `ReleaseMessageDescriptor` returns, with
-- just the segments that went to the busy ones moved, in order, behind the retired ones.
pub release-get_message_descriptor :
    (m : RecvManager) (a : ℕ)
    → Inv m
    → m.pending_msg ≡ none
    → (get_message_descriptor m).0 ≡ some a
    → (segs : List ℕ) × ((get_message_descriptor m).1.busy_segs ≡ m.busy_segs ++ (a ∷ segs))
      × Released
          (get_message_descriptor m).1
          (a ∷ segs)
          (release_message_descriptor (some a) (get_message_descriptor m).1)
unfolding release_message_descriptor
release-get_message_descriptor m a v fresh got =
    let m1 = (get_message_descriptor m).1 in
    let d = get_message_descriptor-Delivered m a v fresh got in
    (
      d.segs,
      d.busy,
      release_from-chain (length m1.busy_segs + 1) (a ∷ d.segs) m1
          (ground (arith, d.busy, length-append m.busy_segs (a ∷ d.segs))) d.linked
          (λ z. ground (arith, d.busy, count-append z m.busy_segs (a ∷ d.segs))),
    )
