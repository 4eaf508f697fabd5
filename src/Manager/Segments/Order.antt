-- ===== src/Manager/Segments/Order.antt =====
-- How `SendSegments` sorts what has arrived: in the order of arrival, and nothing overtakes a segment that waits.
use mcsb.Base.{
  ℕ, ◌≡◌, refl, ap, sym, ◌<◌, length, false≢true, ◌>>=◌, ◌∙◌, Bool, true, false, List, [], ◌∷◌,
  ◌++◌, if◌then◌else◌, Bool-cases, inl, inr, Outcome, ok, throw, and_then,
}
use mcsb.SlabTracker.{Tracker, take_cons_slab}
use mcsb.SlabTracker.Taking.{Leaves, take_cons_slab-Leaves}
use mcsb.Manager.Segments.{Incoming, Sorted, also_send, also_want, sort_segments}

-- The arrivals that pass a test, in order.
abbrev pub those : (Incoming → Bool) → List Incoming → List Incoming
those want [] = []
those want (a ∷ rest) = if want a then a ∷ those want rest else those want rest

-- Sorted lists that hold just the given arrivals, those to send before the others, and none to send while
-- segments are held back.
abbrev pub InOrder : Bool → List Incoming → Sorted → Type 0
InOrder held_back arrivals r =
    (r.to_send ++ r.to_want ≡ arrivals) × ((held_back ≡ true) → r.to_send ≡ [])

-- Every arrival's slab is one of the client's `n` counts.
abbrev pub Within : ℕ → List Incoming → Type 0
Within n [] = Unit
Within n (a ∷ rest) = (a.slab < n) × Within n rest

-- An outcome that returns, in order, and leaves as many slabs as there were.
abbrev Sorts : ℕ → Bool → List Incoming → Outcome Tracker Sorted → Type 0
Sorts n held_back arrivals (ok r t) = InOrder held_back arrivals r × (length t.cons_refcnt ≡ n)
Sorts n held_back arrivals (throw e t) = true ≡ false

module _ (n : ℕ) (a : Incoming) (arrivals : List Incoming) where
  Sorts-also_want :
      (held_back : Bool) (o : Outcome Tracker Sorted)
      → Sorts n true arrivals o
      → Sorts n held_back (a ∷ arrivals) (and_then o (λ r t. ok (also_want a r) t))
  Sorts-also_want held_back (ok r t) ((same, none_sent), len) =
      let nil = none_sent refl in
      (
        (
          ap (λ sent. sent ++ a ∷ r.to_want) nil
              ∙ ap (◌∷◌ a) (ap (λ sent. sent ++ r.to_want) (sym nil) ∙ same),
          λ h. nil,
        ),
        len,
      )
  Sorts-also_want held_back (throw e t) h = h

  Sorts-also_send :
      (o : Outcome Tracker Sorted)
      → Sorts n false arrivals o
      → Sorts n false (a ∷ arrivals) (and_then o (λ r t. ok (also_send a r) t))
  Sorts-also_send (ok r t) ((same, none_sent), len) =
      ((ap (◌∷◌ a) same, λ h. absurd (false≢true h)), len)
  Sorts-also_send (throw e t) h = h

module _ (n : ℕ) (want : Incoming → Bool) where
  -- What is known of the sorting of the arrivals behind.
  abbrev Behind : List Incoming → Type 0
  Behind rest =
      (held_back : Bool) (t : Tracker)
      → length t.cons_refcnt ≡ n
      → Sorts n held_back (those want rest) (sort_segments want held_back rest t)

  -- An arrival that is wanted while nothing is held back, by what `TakeConsSlab` says.
  Sorts-taken :
      (a : Incoming) (rest : List Incoming) (o : Outcome Tracker Bool)
      → Leaves n o
      → Behind rest
      → Sorts n false (a ∷ those want rest) (
          and_then o (λ took.
            if took
            then (sort_segments want false rest >>= λ r t. ok (also_send a r) t)
            else (sort_segments want true rest >>= λ r t. ok (also_want a r) t)))
  Sorts-taken a rest (ok true t) len ih =
      Sorts-also_send n a (those want rest) (sort_segments want false rest t) (ih false t len)
  Sorts-taken a rest (ok false t) len ih =
      Sorts-also_want n a (those want rest) false (sort_segments want true rest t) (ih true t len)
  Sorts-taken a rest (throw e t) h ih = h

  sort_segments-Sorts : (arrivals : List Incoming) → Within n arrivals → Behind arrivals
  unfolding sort_segments
  sort_segments-Sorts [] within held_back t len = ((refl, λ h. refl), len)
  sort_segments-Sorts (a ∷ rest) (lt, within) true t len = elim (Bool-cases (want a)) [
    | inl w ↦ rw w (
        Sorts-also_want n a (those want rest) true (sort_segments want true rest t)
          (sort_segments-Sorts rest within true t len))
    | inr w ↦ rw w (sort_segments-Sorts rest within true t len)
  ]
  sort_segments-Sorts (a ∷ rest) (lt, within) false t len = elim (Bool-cases (want a)) [
    | inl w ↦ rw w (
        Sorts-taken a rest (take_cons_slab a.slab t) (take_cons_slab-Leaves a.slab n t len lt)
          (sort_segments-Sorts rest within))
    | inr w ↦ rw w (sort_segments-Sorts rest within false t len)
  ]

sorted_of :
    (n : ℕ) (held_back : Bool) (arrivals : List Incoming) (o : Outcome Tracker Sorted)
    → Sorts n held_back arrivals o
    → (r : Sorted) × (t : Tracker) × (o ≡ ok r t) × InOrder held_back arrivals r
sorted_of n held_back arrivals (ok r t) (order, len) = (r, t, refl, order)
sorted_of n held_back arrivals (throw e t) h = absurd (false≢true (sym h))

-- If every arrival's slab is one that the client's counts cover, the sorting of `SendSegments`
-- returns: the arrivals to send, followed by those for the wanted queue, are the wanted arrivals in
-- their order, and there is none to send if segments wait already.
pub sort_segments-InOrder :
    (want : Incoming → Bool) (held_back : Bool) (arrivals : List Incoming) (t : Tracker)
    → Within (length t.cons_refcnt) arrivals
    → (r : Sorted) × (t' : Tracker) × (sort_segments want held_back arrivals t ≡ ok r t')
      × InOrder held_back (those want arrivals) r
sort_segments-InOrder want held_back arrivals t within =
    sorted_of (length t.cons_refcnt) held_back (those want arrivals)
      (sort_segments want held_back arrivals t)
      (sort_segments-Sorts (length t.cons_refcnt) want arrivals within held_back t refl)
