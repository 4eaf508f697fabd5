-- ===== src/SlabRequests/Lowest.antt =====
-- `LowestLevelPending`.
use mcsb.Base.{
  ℕ, zero, suc, ◌+◌, ◌≤◌, ◌<◌, ◌≡◌, ◌≢◌, refl, sym, ap, ◌∙◌, inl, inr, true, false, List, [], ◌∷◌,
  Option, none, some, arith, ◌==◌, length, is_nil, Bool-cases,
}
use mcsb.SlabRequests.{SlabRequestManager, lowest_from, lowest_level_pending}
use mcsb.SlabRequests.Sums.{sum_to-zero}
use mcsb.SlabRequests.Levels.{Inv}

some-injective : {a b : ℕ} → some a ≡ some b → a ≡ b
some-injective e = cc

some≢none : {a : ℕ} → some a ≢ none
some≢none e = cc

lowest_from-some :
    (left level found : ℕ) (lists : ℕ → List ℕ)
    → lowest_from left level lists ≡ some found
    → (level ≤ found)
      × (found < level + left)
      × (is_nil (lists found) ≡ false)
      × ((i : ℕ) → level ≤ i → i < found → is_nil (lists i) ≡ true)
unfolding lowest_from
lowest_from-some zero level found lists e = cc
lowest_from-some (suc left) level found lists e = elim (Bool-cases (is_nil (lists level))) [
  | inr pending ↦
      let here : level ≡ found = some-injective (rw pending at e) in
      (
        omega arith,
        omega arith,
        ap (λ q. is_nil (lists q)) (sym here) ∙ pending,
        λ i h k. absurd (omega arith),
      )
  | inl empty ↦
      let (from, below, there, lower) =
        lowest_from-some left (level + 1) found lists (rw empty at e) in
      (
        omega arith,
        omega arith,
        there,
        λ i h k. elim (Bool-cases (i == level)) [
          | inl here ↦
              let same : i ≡ level = ground arith in ap (λ q. is_nil (lists q)) same ∙ empty
          | inr above ↦ lower i (ground arith) k
        ],
      )
]

lowest_from-none :
    (left level : ℕ) (lists : ℕ → List ℕ)
    → lowest_from left level lists ≡ none
    → (i : ℕ) → level ≤ i
    → i < level + left
    → is_nil (lists i) ≡ true
unfolding lowest_from
lowest_from-none zero level lists e i h k = absurd (omega arith)
lowest_from-none (suc left) level lists e i h k = elim (Bool-cases (is_nil (lists level))) [
  | inr pending ↦ absurd (some≢none (rw pending at e))
  | inl empty ↦ elim (Bool-cases (i == level)) [
    | inl here ↦ let same : i ≡ level = ground arith in ap (λ q. is_nil (lists q)) same ∙ empty
    | inr above ↦
        lowest_from-none left (level + 1) lists (rw empty at e) i (ground arith) (omega arith)
  ]
]

-- `level` is the lowest one with a request; with no level, none has a request.
abbrev pub IsLowest : Option ℕ → SlabRequestManager → Type 0
IsLowest none m = (i : ℕ) → i ≤ m.max_level → is_nil (m.request_lists i) ≡ true
IsLowest (some level) m =
    (level ≤ m.max_level)
    × (is_nil (m.request_lists level) ≡ false)
    × ((i : ℕ) → i < level → is_nil (m.request_lists i) ≡ true)

nil_of_length : (xs : List ℕ) → length xs ≡ 0 → is_nil xs ≡ true
nil_of_length [] h = refl
nil_of_length (x ∷ xs) h = absurd (omega arith)

pub all_empty :
    (m : SlabRequestManager)
    → Inv m
    → m.num_requests ≡ 0
    → (i : ℕ) → i ≤ m.max_level
    → is_nil (m.request_lists i) ≡ true
all_empty m v z i h = nil_of_length (m.request_lists i) (
    sum_to-zero (m.max_level + 1) (λ level. length (m.request_lists level)) (sym v.counted ∙ z) i
      (omega arith))

-- While each request stands in one list, the count of requests is that of the levels and the
-- highest level is below 2 ^ 31, `LowestLevelPending` gives the lowest level with a request, or
-- none, and then no level has one.
pub lowest_level_pending-IsLowest :
    (m : SlabRequestManager) → Inv m → IsLowest (lowest_level_pending m) m
unfolding lowest_level_pending
lowest_level_pending-IsLowest m v = elim (Bool-cases (m.num_requests == 0)) [
  | inl none_left ↦ rw none_left (all_empty m v (ground arith))
  | inr some_left ↦ rw some_left (by_found (lowest_from (m.max_level + 1) 0 m.request_lists) refl)
]
  where
    by_found : (o : Option ℕ) → lowest_from (m.max_level + 1) 0 m.request_lists ≡ o → IsLowest o m
    by_found none e =
        λ i h. lowest_from-none (m.max_level + 1) 0 m.request_lists e i (omega arith) (omega arith)
    by_found (some l) e =
        let (from, below, there, lower) =
          lowest_from-some (m.max_level + 1) 0 l m.request_lists e in
        (omega arith, there, λ i h. lower i (omega arith) h)
