-- ===== src/RecvManager/Tests.antt =====
-- The receive manager's theorems on a queue with a broken segment and a message of two segments.
use mcsb.Base.{ℕ, ◌≡◌, refl, List, [], ◌∷◌, none, some, arith, ◌==◌, if◌then◌else◌, final}
use mcsb.RecvManager.{
  BlockInfo, RecvManager, numbers_from, get_message_descriptor, release_from,
  release_message_descriptor,
}
use mcsb.RecvManager.Segments.{
  Inv, count-numbers_from, get_message_descriptor-Inv, release_from-Inv,
}
use mcsb.RecvManager.Delivery.{
  Delivered, Waiting, get_message_descriptor-Delivered, get_message_descriptor-Waiting,
  get_message_descriptor-whole,
}
use mcsb.RecvManager.Release.{Released, release-get_message_descriptor}

abbrev info_of : ℕ → BlockInfo
info_of a =
    if a == 0
    then record { message_id = 4; size = 8; segment_number = 1; num_segments = 2 }
    else if a == 1
    then record { message_id = 5; size = 8; segment_number = 0; num_segments = 2 }
    else record { message_id = 5; size = 3; segment_number = 1; num_segments = 2 }

abbrev receiver : List ℕ → RecvManager
receiver pending = record {
  free_segs = numbers_from 28 4;
  pending_segs = pending;
  busy_segs = 3 ∷ [];
  retired_segs = [];
  seg = λ a. record {
    buf = 0;
    size = (info_of a).size;
    block_id = a;
    next = none;
    block_info = info_of a;
    refcnt = 1;
  };
  pending_msg = none;
  num_cons_slabs = 4;
  num_segments_rcvd = 4;
  num_seg_blocks = 1;
}

-- The segment 0 is of a message whose front is missing.
abbrev queue : List ℕ
queue = 0 ∷ 1 ∷ 2 ∷ []

receiver-Inv : Inv (receiver queue)
receiver-Inv a = ground (arith, count-numbers_from a 28 4)

get_message_descriptor-Inv_example : Inv (get_message_descriptor (receiver queue)).1
get_message_descriptor-Inv_example = get_message_descriptor-Inv (receiver queue) receiver-Inv

release_from-Inv_example : Inv (final (release_from 2 (some 3) (receiver queue)))
release_from-Inv_example = release_from-Inv 2 (some 3) (receiver queue) receiver-Inv

get_message_descriptor-Delivered_example :
    Delivered (receiver queue) (get_message_descriptor (receiver queue)).1 1
unfolding get_message_descriptor
get_message_descriptor-Delivered_example =
    get_message_descriptor-Delivered (receiver queue) 1 receiver-Inv refl refl

-- The second segment of the message has not come in.
get_message_descriptor-Waiting_example :
    Waiting (receiver (0 ∷ 1 ∷ [])) (get_message_descriptor (receiver (0 ∷ 1 ∷ []))).1
unfolding get_message_descriptor
get_message_descriptor-Waiting_example =
    get_message_descriptor-Waiting (receiver (0 ∷ 1 ∷ [])) refl refl

get_message_descriptor-whole_example :
    ((get_message_descriptor (receiver (1 ∷ 2 ∷ 0 ∷ []))).0 ≡ some 1)
    × ((get_message_descriptor (receiver (1 ∷ 2 ∷ 0 ∷ []))).1.pending_segs ≡ 0 ∷ [])
    × ((get_message_descriptor (receiver (1 ∷ 2 ∷ 0 ∷ []))).1.busy_segs ≡ 3 ∷ 1 ∷ 2 ∷ [])
    × ((get_message_descriptor (receiver (1 ∷ 2 ∷ 0 ∷ []))).1.retired_segs ≡ [])
get_message_descriptor-whole_example =
    get_message_descriptor-whole (receiver (1 ∷ 2 ∷ 0 ∷ [])) 1 (2 ∷ []) (0 ∷ []) refl refl (record {
      begins = refl;
      whole = refl;
      fits = omega arith;
      continues = (refl, refl, refl, tt);
    })

release-get_message_descriptor_example :
    (segs : List ℕ) × ((get_message_descriptor (receiver queue)).1.busy_segs ≡ 3 ∷ 1 ∷ segs)
    × Released
        (get_message_descriptor (receiver queue)).1
        (1 ∷ segs)
        (release_message_descriptor (some 1) (get_message_descriptor (receiver queue)).1)
unfolding get_message_descriptor
release-get_message_descriptor_example =
    release-get_message_descriptor (receiver queue) 1 receiver-Inv refl refl
