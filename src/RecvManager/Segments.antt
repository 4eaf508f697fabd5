-- ===== src/RecvManager/Segments.antt =====
-- The lists that a received segment stands in, from `AddSegments` to `GetRetiredSegments`.
use mcsb.Base.{
  ℕ, zero, suc, ◌+◌, ◌*◌, ◌≡◌, refl, ◌&&◌, List, [], ◌∷◌, ◌++◌, Option, none, some, inl, inr, arith,
  ltb, leb, bit, is_nil, take, count, mem, erase, count-append, count-erase, count-take-drop, final,
  Bool-cases,
}
use mcsb.RecvManager.Scan.{scan, drops, waits, delivers}
use mcsb.RecvManager.{
  RecvManager, Arrival, numbers_from, segs_per_block, add_msg_seg_block, fill_segment, add_segment,
  add_each, add_segments, drop_front, deliver, next_message, message_after, get_message_descriptor,
  release_from, get_retired_segments,
}

-- Each of the segments that are allocated stands once in one of the four lists, and no other number
-- stands in any.
abbrev pub occurrences : ℕ → RecvManager → ℕ
occurrences a m =
    count a m.free_segs + count a m.pending_segs + count a m.busy_segs + count a m.retired_segs

abbrev pub Inv : RecvManager → Type 0
Inv m = (a : ℕ) → occurrences a m ≡ bit (ltb a (m.num_seg_blocks * segs_per_block))

pub count-numbers_from : (a n i : ℕ) → count a (numbers_from n i) ≡ bit (leb i a && ltb a (i + n))
unfolding numbers_from
count-numbers_from a zero i = ground arith
count-numbers_from a (suc n) i = ground (arith, count-numbers_from a n (i + 1))

add_msg_seg_block-Inv : (m : RecvManager) → Inv m → Inv (add_msg_seg_block m)
unfolding add_msg_seg_block
add_msg_seg_block-Inv m v a = ground (
  arith,
  v a,
  count-append a m.free_segs (numbers_from segs_per_block (m.num_seg_blocks * segs_per_block)),
  count-numbers_from a segs_per_block (m.num_seg_blocks * segs_per_block),
)

fill_segment-Inv : (x : Arrival) (m : RecvManager) → Inv m → Inv (fill_segment x m)
unfolding fill_segment
fill_segment-Inv x m v = by_front m.free_segs refl
  where
    by_front : (fs : List ℕ) → m.free_segs ≡ fs → Inv (fill_segment x m)
    by_front [] e a = ground (arith, v a)
    by_front (b ∷ rest) e a = ground (arith, v a, count-append a m.pending_segs (b ∷ []))

add_segment-Inv : (x : Arrival) (m : RecvManager) → Inv m → Inv (add_segment x m)
unfolding add_segment
add_segment-Inv x m v = elim (Bool-cases (is_nil m.free_segs)) [
  | inl empty ↦ rw empty (fill_segment-Inv x (add_msg_seg_block m) (add_msg_seg_block-Inv m v))
  | inr there ↦ rw there (fill_segment-Inv x m v)
]

add_each-Inv : (xs : List Arrival) (m : RecvManager) → Inv m → Inv (add_each xs m)
unfolding add_each
add_each-Inv [] m v = v
add_each-Inv (x ∷ xs) m v = add_each-Inv xs (add_segment x m) (add_segment-Inv x m v)

pub drop_front-Inv :
    (a : ℕ) (rest : List ℕ) (m : RecvManager)
    → m.pending_segs ≡ a ∷ rest
    → Inv m
    → Inv (drop_front a rest m)
drop_front-Inv a rest m e v b = ground (arith, v b, count-append b m.retired_segs (a ∷ []))

deliver-Inv :
    (n : ℕ) (segs : List ℕ) (m : RecvManager)
    → m.pending_segs ≡ segs
    → Inv m
    → Inv (deliver n segs m)
deliver-Inv n segs m e v b =
    ground (arith, v b, count-append b m.busy_segs (take n segs), count-take-drop b n segs)

next_message-Inv :
    (segs : List ℕ) (m : RecvManager) → m.pending_segs ≡ segs → Inv m → Inv (next_message segs m).1
unfolding next_message
next_message-Inv [] m e v = v
next_message-Inv (a ∷ rest) m e v = elim (scan a rest m) [
  | drops run ↦
      rw run (next_message-Inv rest (drop_front a rest m) refl (drop_front-Inv a rest m e v))
  | waits _ _ run ↦ rw run v
  | delivers _ _ _ run ↦ rw run (deliver-Inv (m.seg a).block_info.num_segments (a ∷ rest) m e v)
]

-- `AddSegments` keeps each segment in exactly one list.
pub add_segments-Inv : (xs : List Arrival) (m : RecvManager) → Inv m → Inv (add_segments xs m)
unfolding add_segments
add_segments-Inv xs m v a = add_each-Inv xs m v a

message_after-Inv : (desc : Option ℕ) (m : RecvManager) → Inv m → Inv (message_after desc m).1
unfolding message_after
message_after-Inv (some a) m v b = v b
message_after-Inv none m v b = next_message-Inv m.pending_segs m refl v b

-- `GetMessageDescriptor` leaves each segment in one list, whether it drops segments, waits for more
-- or delivers a message.
pub get_message_descriptor-Inv : (m : RecvManager) → Inv m → Inv (get_message_descriptor m).1
unfolding get_message_descriptor
get_message_descriptor-Inv m v = message_after-Inv m.pending_msg m v

-- The loop of `ReleaseMessageDescriptor` leaves each segment in one list, also when it throws.
pub release_from-Inv :
    (fuel : ℕ) (desc : Option ℕ) (m : RecvManager) → Inv m → Inv (final (release_from fuel desc m))
unfolding release_from
release_from-Inv fuel none m v = v
release_from-Inv zero (some a) m v = v
release_from-Inv (suc fuel) (some a) m v =
    let rest =
      release_from-Inv fuel (m.seg a).next
        (record m { busy_segs = erase a m.busy_segs; retired_segs = m.retired_segs ++ (a ∷ []) }) in
    elim (Bool-cases (mem a m.busy_segs)) [
      | inr other ↦ rw other v
      | inl mine ↦ rw mine (
          rest λ b.
            ground
              (arith, v b, count-erase b a m.busy_segs, count-append b m.retired_segs (a ∷ [])))
    ]

-- `GetRetiredSegments` keeps each segment in exactly one list.
pub get_retired_segments-Inv :
    (max_count : ℕ) (m : RecvManager) → Inv m → Inv (get_retired_segments max_count m).1
unfolding get_retired_segments
get_retired_segments-Inv zero m v = v
get_retired_segments-Inv (suc max_count) m v =
    by_front m.retired_segs refl (get_retired_segments-Inv max_count)
  where
    by_front :
        (rs : List ℕ)
        → m.retired_segs ≡ rs
        → ((m : RecvManager) → Inv m → Inv (get_retired_segments max_count m).1)
        → Inv (get_retired_segments (suc max_count) m).1
    by_front [] e ih = rw (e, get_retired_segments) v
    by_front (a ∷ rest) e ih =
        rw (e, get_retired_segments)
          (ih _ λ b. ground (arith, v b, count-append b m.free_segs (a ∷ [])))
