-- ===== src/RecvManager/Delivery.antt =====
-- What `GetMessageDescriptor` gives and what it leaves, and what it leaves in the queue when it has
-- no message.
use mcsb.Base.{
  ℕ, ◌≢◌, zero, suc, ◌+◌, ◌-◌, ◌≤◌, ◌<◌, ◌≡◌, refl, sym, ap, subst, ◌∙◌, false, List, [], ◌∷◌, ◌++◌,
  none, some, arith, ltb, length, take, drop, count, Distinct, Distinct-of_count, count-take-drop,
  length-append, length-take, append_assoc, append-nil, take-append-drop, take-length_append,
  drop-length_append,
}
use mcsb.RecvManager.{
  RecvManager, RecvSegment, count_matches, unusable, drop_front, deliver, next_message,
  message_after, get_message_descriptor,
}
use mcsb.RecvManager.Scan.{scan, drops, waits, delivers}
use mcsb.RecvManager.Segments.{Inv, drop_front-Inv}
use mcsb.RecvManager.Messages.{
  IsMessage, Linked, Continues-of_count, count_of_Continues, link_segments-Linked,
}

search_queue :
    (m : RecvManager)
    → m.pending_msg ≡ none
    → get_message_descriptor m ≡ next_message m.pending_segs m
unfolding get_message_descriptor message_after
search_queue m fresh = ap (λ d. message_after d m) fresh

pred-suc : (k : ℕ) → suc k - 1 ≡ k
pred-suc k = omega arith

none≢some : {a : ℕ} → none ≢ some a
none≢some e = cc

some-injective : {a b : ℕ} → some a ≡ some b → a ≡ b
some-injective e = cc

-- The message of `a` came out of `m` and left `m'`.
pub record Delivered (m m' : RecvManager) (a : ℕ) : Type 0 where
  pub dropped : List ℕ
  pub segs : List ℕ
  pub rest : List ℕ
  pub queued : m.pending_segs ≡ dropped ++ (a ∷ segs ++ rest)
  pub left : m'.pending_segs ≡ rest
  pub busy : m'.busy_segs ≡ m.busy_segs ++ (a ∷ segs)
  pub retired : m'.retired_segs ≡ m.retired_segs ++ dropped
  pub message : IsMessage m.seg m.num_cons_slabs a segs
  pub linked : Linked m'.seg (a ∷ segs)

pending_once : (m : RecvManager) → Inv m → (b : ℕ) → count b m.pending_segs ≤ 1
pending_once m v b = ground (arith, v b)

taken-Distinct : (n : ℕ) (segs : List ℕ) → ((b : ℕ) → count b segs ≤ 1) → Distinct (take n segs)
taken-Distinct n segs once =
    Distinct-of_count (take n segs) (λ b. omega (arith, once b, count-take-drop b n segs))

deliver-Delivered :
    (a k : ℕ) (rest : List ℕ) (m : RecvManager)
    → m.pending_segs ≡ a ∷ rest
    → Inv m
    → unusable m.num_cons_slabs (m.seg a).block_info ≡ false
    → (m.seg a).block_info.num_segments ≡ suc k
    → suc k ≤ length (a ∷ rest)
    → suc k ≤ count_matches m.seg (m.seg a).block_info k 1 rest
    → Delivered m (deliver (suc k) (a ∷ rest) m) a
deliver-Delivered a k rest m e v good size long whole = record {
  dropped = [];
  segs = take k rest;
  rest = drop k rest;
  queued = e ∙ ap (◌∷◌ a) (sym (take-append-drop k rest));
  left = refl;
  busy = refl;
  retired = sym (append-nil m.retired_segs);
  message = record {
    begins = ground arith;
    whole = ground (arith, length-take k rest);
    fits = ground arith;
    continues = Continues-of_count m.seg (m.seg a).block_info k 1 rest (omega arith);
  };
  linked = link_segments-Linked (take (suc k) (a ∷ rest)) m.seg (
      taken-Distinct (suc k) (a ∷ rest)
        (subst (λ q. (b : ℕ) → count b q ≤ 1) e (pending_once m v)));
}

after_drop :
    (a b : ℕ) (rest : List ℕ) (m m' : RecvManager)
    → m.pending_segs ≡ b ∷ rest
    → Delivered (drop_front b rest m) m' a
    → Delivered m m' a
after_drop a b rest m m' e d = record {
  dropped = b ∷ d.dropped;
  segs = d.segs;
  rest = d.rest;
  queued = e ∙ ap (◌∷◌ b) d.queued;
  left = d.left;
  busy = d.busy;
  retired = d.retired ∙ append_assoc m.retired_segs (b ∷ []) d.dropped;
  message = record {
    begins = d.message.begins;
    whole = d.message.whole;
    fits = d.message.fits;
    continues = d.message.continues;
  };
  linked = d.linked;
}

next_message-Delivered :
    (segs : List ℕ) (m : RecvManager) (a : ℕ)
    → m.pending_segs ≡ segs
    → Inv m
    → (next_message segs m).0 ≡ some a
    → Delivered m (next_message segs m).1 a
unfolding next_message
next_message-Delivered [] m a e v got = cc
next_message-Delivered (b ∷ rest) m a e v got = elim (scan b rest m) [
  | drops run ↦ rw run (
      after_drop a b rest m _ e (
        next_message-Delivered rest (drop_front b rest m) a refl (drop_front-Inv b rest m e v)
          (subst (λ r. r.0 ≡ some a) run got)))
  | waits _ _ run ↦ absurd (none≢some (subst (λ r. r.0 ≡ some a) run got))
  | delivers good long whole run ↦
      by_size (m.seg b).block_info.num_segments refl good long whole run
]
  where
    by_size :
        (n : ℕ)
        → (m.seg b).block_info.num_segments ≡ n
        → unusable m.num_cons_slabs (m.seg b).block_info ≡ false
        → n ≤ length (b ∷ rest)
        → n ≤ count_matches m.seg (m.seg b).block_info (n - 1) 1 rest
        → next_message (b ∷ rest) m ≡ (some b, deliver n (b ∷ rest) m)
        → Delivered m (next_message (b ∷ rest) m).1 a
    by_size zero size good long whole run = absurd (ground arith)
    by_size (suc k) size good long whole run =
        let same : b ≡ a = some-injective (subst (λ r. r.0 ≡ some a) run got) in
        subst (λ z. Delivered m z.1 a) (sym run)
          (subst (Delivered m (deliver (suc k) (b ∷ rest) m)) same (
            deliver-Delivered b k rest m e v good size long (
              subst (λ j. suc k ≤ count_matches m.seg (m.seg b).block_info j 1 rest) (pred-suc k)
                whole)))

-- While each segment stands in one list and no message is set aside: a message that
-- `GetMessageDescriptor` finds is led by segment 0 and holds all of its segments in order, no more
-- than the consumer slabs; they go from the queue to the busy segments and are linked in that
-- order, the segments before it are retired, and those behind it stay in the queue.
pub get_message_descriptor-Delivered :
    (m : RecvManager) (a : ℕ)
    → Inv m
    → m.pending_msg ≡ none
    → (get_message_descriptor m).0 ≡ some a
    → Delivered m (get_message_descriptor m).1 a
get_message_descriptor-Delivered m a v fresh got =
    subst (λ r. Delivered m r.1 a) (sym (search_queue m fresh))
      (next_message-Delivered m.pending_segs m a refl v
        (subst (λ r. r.0 ≡ some a) (search_queue m fresh) got))

abbrev pub Short : (ℕ → RecvSegment) → List ℕ → Type 0
Short seg [] = Unit {0}
Short seg (a ∷ segs) =
    ((seg a).block_info.segment_number ≡ 0) × (length (a ∷ segs) < (seg a).block_info.num_segments)

-- Without a message, the segments that are not dropped stay, and they are fewer than the message
-- needs that their first segment begins.
pub record Waiting (m m' : RecvManager) : Type 0 where
  pub dropped : List ℕ
  pub queued : m.pending_segs ≡ dropped ++ m'.pending_segs
  pub retired : m'.retired_segs ≡ m.retired_segs ++ dropped
  pub busy : m'.busy_segs ≡ m.busy_segs
  pub short : Short m.seg m'.pending_segs

Waiting-drop :
    (b : ℕ) (rest : List ℕ) (m m' : RecvManager)
    → m.pending_segs ≡ b ∷ rest
    → Waiting (drop_front b rest m) m'
    → Waiting m m'
Waiting-drop b rest m m' e w = record {
  dropped = b ∷ w.dropped;
  queued = e ∙ ap (◌∷◌ b) w.queued;
  retired = w.retired ∙ append_assoc m.retired_segs (b ∷ []) w.dropped;
  busy = w.busy;
  short = w.short;
}

next_message-Waiting :
    (segs : List ℕ) (m : RecvManager)
    → m.pending_segs ≡ segs
    → (next_message segs m).0 ≡ none
    → Waiting m (next_message segs m).1
unfolding next_message
next_message-Waiting [] m e none_left = record {
  dropped = [];
  queued = refl;
  retired = sym (append-nil m.retired_segs);
  busy = refl;
  short = subst (Short m.seg) (sym e) tt;
}
next_message-Waiting (b ∷ rest) m e none_left = elim (scan b rest m) [
  | drops run ↦ rw run (
      Waiting-drop b rest m _ e (
        next_message-Waiting rest (drop_front b rest m) refl
          (subst (λ r. r.0 ≡ none) run none_left)))
  | waits good short run ↦ rw run (record {
    dropped = [];
    queued = refl;
    retired = sym (append-nil m.retired_segs);
    busy = refl;
    short = subst (Short m.seg) (sym e) (ground arith, short);
  })
  | delivers _ _ _ run ↦ absurd (none≢some (sym (subst (λ r. r.0 ≡ none) run none_left)))
]

-- When no message is set aside and `GetMessageDescriptor` finds none, it has retired a prefix of
-- the queue, and the busy segments are as they were; the queue that stays is empty, or it begins
-- with a segment 0 whose message needs more segments than there are.
pub get_message_descriptor-Waiting :
    (m : RecvManager)
    → m.pending_msg ≡ none
    → (get_message_descriptor m).0 ≡ none
    → Waiting m (get_message_descriptor m).1
get_message_descriptor-Waiting m fresh none_left =
    subst (λ r. Waiting m r.1) (sym (search_queue m fresh))
      (next_message-Waiting m.pending_segs m refl
        (subst (λ r. r.0 ≡ none) (search_queue m fresh) none_left))

whole_found :
    (m : RecvManager) (a : ℕ) (segs rest : List ℕ)
    → IsMessage m.seg m.num_cons_slabs a segs
    → next_message (a ∷ segs ++ rest) m ≡ (some a, deliver (suc (length segs)) (a ∷ segs ++ rest) m)
unfolding next_message
whole_found m a segs rest w =
    let size : (m.seg a).block_info.num_segments ≡ suc (length segs) = sym w.whole in
    let n = (m.seg a).block_info.num_segments in
    let good : unusable m.num_cons_slabs (m.seg a).block_info ≡ false =
      ground (arith, w.begins, w.fits, size) in
    let long : ltb (length (a ∷ segs ++ rest)) n ≡ false =
      ground (arith, length-append segs rest, size) in
    let matched : count_matches m.seg (m.seg a).block_info (n - 1) 1 (segs ++ rest)
        ≡ 1 + length segs =
      subst (λ j. count_matches m.seg (m.seg a).block_info j 1 (segs ++ rest) ≡ 1 + length segs)
        (omega (arith, size))
        (count_of_Continues m.seg (m.seg a).block_info 1 segs rest w.continues) in
    let whole : ltb (count_matches m.seg (m.seg a).block_info (n - 1) 1 (segs ++ rest)) n ≡ false =
      ground (arith, matched, size) in
    rw (good, long, whole) (ap (λ j. (some a, deliver j (a ∷ segs ++ rest) m)) size)

-- While no message is set aside, a message that stands whole at the head of the queue is delivered:
-- just its segments go to the busy ones, and no segment is retired.
pub get_message_descriptor-whole :
    (m : RecvManager) (a : ℕ) (segs rest : List ℕ)
    → m.pending_msg ≡ none
    → m.pending_segs ≡ a ∷ segs ++ rest
    → IsMessage m.seg m.num_cons_slabs a segs
    → ((get_message_descriptor m).0 ≡ some a)
      × ((get_message_descriptor m).1.pending_segs ≡ rest)
      × ((get_message_descriptor m).1.busy_segs ≡ m.busy_segs ++ (a ∷ segs))
      × ((get_message_descriptor m).1.retired_segs ≡ m.retired_segs)
unfolding next_message
get_message_descriptor-whole m a segs rest fresh queued w =
    let found =
      search_queue m fresh ∙ ap (λ q. next_message q m) queued ∙ whole_found m a segs rest w in
    (
      ap (λ r. r.0) found,
      ap (λ r. r.1.pending_segs) found ∙ drop-length_append segs rest,
      ap (λ r. r.1.busy_segs) found
          ∙ ap (λ q. m.busy_segs ++ (a ∷ q)) (take-length_append segs rest),
      ap (λ r. r.1.retired_segs) found,
    )
