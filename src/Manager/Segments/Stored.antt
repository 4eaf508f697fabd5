-- ===== src/Manager/Segments/Stored.antt =====
-- `TakeBlocksAndInfo` checks the blocks before it sends anything.
use mcsb.Base.{
  ℕ, ◌+◌, ◌*◌, ◌/◌, ◌≡◌, refl, ap, ◌==◌, Bool, true, false, ◌&&◌, List, [], ◌∷◌, map, if◌then◌else◌,
  ltb, leb, u32, u64, update, length, Bool-cases, inl, inr, Outcome, ok, throw, invalid_block,
  arith,
}
use mcsb.RecvManager.{BlockInfo}
use mcsb.Manager.{Manager, ManagerStats, Env}
use mcsb.Manager.Segments.{
  Incoming, store_blocks, take_blocks_and_info, send_to_clients, count_rcvd,
}

-- Every block is one of those that are mapped.
abbrev pub all_mapped : ℕ → List (ℕ × BlockInfo) → Bool
all_mapped n [] = true
all_mapped n (b ∷ bs) = ltb b.0 n && all_mapped n bs

abbrev pub num_mapped : Manager → ℕ
num_mapped m = u32 (m.arg.mapped * m.arg.num_blocks)

abbrev pub no_manager_stats : ManagerStats
no_manager_stats = record {
  all_rcvd_segs = 0;
  all_rcvd_bytes = 0;
  all_sent_segs = 0;
  all_sent_bytes = 0;
  all_dropped_segs = 0;
  all_dropped_bytes = 0;
}

abbrev pub no_info : BlockInfo
no_info = record { message_id = 0; size = 0; segment_number = 0; num_segments = 0 }

-- A manager, up to the infos of blocks and its counters.
abbrev pub beside_infos : Manager → Manager
beside_infos m = record m {
  arg = record m.arg { block_info = λ b. no_info; manager_stats = no_manager_stats };
}

abbrev pub arrivals_of : ℕ → List (ℕ × BlockInfo) → List Incoming
arrivals_of bps bs = map (λ b. record { block = b.0; slab = b.0 / bps; info = b.1 }) bs

-- One block stored.
abbrev stored : ℕ × BlockInfo → Manager → Manager
stored b m =
    let s = m.arg.manager_stats in
    record m {
      arg = record m.arg {
        block_info = update m.arg.block_info b.0 b.1;
        manager_stats = record s { all_rcvd_bytes = u64 (s.all_rcvd_bytes + b.1.size) };
      };
    }

-- The outcome of storing.
abbrev Stores : List (ℕ × BlockInfo) → Manager → Outcome Manager (List Incoming) → Type 0
Stores bs m o =
    (m' : Manager) × (o ≡ (
      if all_mapped (num_mapped m) bs
      then ok (arrivals_of m.arg.blocks_per_slab bs) m'
      else throw invalid_block m'))
    × (beside_infos m' ≡ beside_infos m)

store_blocks-Stores :
    (bs : List (ℕ × BlockInfo)) (m : Manager)
    → (m.arg.blocks_per_slab == 0) ≡ false
    → Stores bs m (store_blocks bs m)
unfolding store_blocks
store_blocks-Stores [] m slabs = (m, refl, refl)
store_blocks-Stores (b ∷ bs) m slabs = elim (Bool-cases (ltb b.0 (num_mapped m))) [
  | inr over ↦ (m, rw over (rw (flip over) refl), refl)
  | inl below ↦
      let (m', e, same) = store_blocks-Stores bs (stored b m) slabs in
      let low = not_over below in
      elim (Bool-cases (all_mapped (num_mapped m) bs)) [
        | inl all ↦ (m', rw low (rw slabs (rw e (rw all (rw below (slab_of m' same))))), same)
        | inr bad ↦ (m', rw low (rw slabs (rw e (rw bad (rw below refl)))), same)
      ]
]
  where
    flip : ltb b.0 (num_mapped m) ≡ false → leb (num_mapped m) b.0 ≡ true
    flip h = ground arith

    not_over : ltb b.0 (num_mapped m) ≡ true → leb (num_mapped m) b.0 ≡ false
    not_over h = ground arith

    stored_outcome : ℕ → Manager → Outcome Manager (List Incoming)
    stored_outcome n m' =
        ok
          (record { block = b.0; slab = b.0 / n; info = b.1 }
            ∷ arrivals_of m.arg.blocks_per_slab bs)
          m'

    slab_of :
        (m' : Manager)
        → beside_infos m' ≡ beside_infos m
        → stored_outcome m'.arg.blocks_per_slab m' ≡ stored_outcome m.arg.blocks_per_slab m'
    slab_of m' same = ap (λ n. stored_outcome n m') (ap (λ s. s.arg.blocks_per_slab) same)

-- With slabs that have blocks, `TakeBlocksAndInfo` throws on a message with a block that is not
-- mapped, and has changed nothing but infos of blocks and counters: no client is sent anything.
pub take_blocks_and_info-refuses :
    (env : Env) (bs : List (ℕ × BlockInfo)) (group : ℕ) (m : Manager)
    → (m.arg.blocks_per_slab == 0) ≡ false
    → all_mapped (num_mapped m) bs ≡ false
    → (m' : Manager) × (take_blocks_and_info env bs group m ≡ throw invalid_block m')
      × (beside_infos m' ≡ beside_infos m)
unfolding take_blocks_and_info
take_blocks_and_info-refuses env bs group m slabs bad =
    let (m', e, same) = store_blocks-Stores bs m slabs in (m', rw e (rw bad refl), same)

-- A message of mapped blocks.
pub take_blocks_and_info-sends :
    (env : Env) (bs : List (ℕ × BlockInfo)) (group : ℕ) (m : Manager)
    → (m.arg.blocks_per_slab == 0) ≡ false
    → all_mapped (num_mapped m) bs ≡ true
    → (m' : Manager) × (take_blocks_and_info env bs group m
        ≡ send_to_clients env m.arg.clients (arrivals_of m.arg.blocks_per_slab bs) group m')
      × (beside_infos m' ≡ beside_infos m)
unfolding take_blocks_and_info
take_blocks_and_info-sends env bs group m slabs all =
    let (m', e, same) = store_blocks-Stores bs m slabs in
    (
      count_rcvd (length bs) m',
      rw e (
          rw all (
            ap
              (λ cs.
                send_to_clients env cs (arrivals_of m.arg.blocks_per_slab bs) group
                  (count_rcvd (length bs) m'))
              (ap (λ s. s.arg.clients) same))),
      same,
    )
