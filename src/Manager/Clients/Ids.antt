-- ===== src/Manager/Clients/Ids.antt =====
-- `GetNewClientID`: with fewer than 10000 clients its loop comes to a free id.
use mcsb.Base.{
  ℕ, suc, zero, ◌+◌, ◌-◌, ◌≤◌, ◌<◌, ◌≡◌, ◌≢◌, refl, ◌==◌, none, some, leb, if◌then◌else◌, length,
  lookup, find_free, Option-cases, inl, inr, ok, arith,
}
use mcsb.Manager.{Manager}
use mcsb.Manager.Clients.{max_client_id, next_client_id, new_client_id_from, new_client_id}

abbrev pub moved_on : ℕ → Manager → Manager
moved_on n m = record m { arg = record m.arg { next_new_client_id = n } }

abbrev rounds : ℕ → ℕ → ℕ
rounds n g = if leb n g then g - n else max_client_id + 1 + g - n

next_client_id_high : (n : ℕ) → n ≤ max_client_id → next_client_id n ≤ max_client_id
next_client_id_high n high = ground arith

rounds-next_client_id :
    (fuel n g : ℕ)
    → n ≤ max_client_id
    → g ≤ max_client_id
    → n ≢ g
    → rounds n g < suc fuel
    → rounds (next_client_id n) g < fuel
rounds-next_client_id fuel n g high g_high other near = ground arith

rounds_lt : (n g : ℕ) → n ≤ max_client_id → g ≤ max_client_id → rounds n g < max_client_id + 1
rounds_lt n g high g_high = ground arith

ne_of_taken :
    (n g : ℕ) (m : Manager) {p : ℕ}
    → lookup ◌==◌ n m.arg.clients ≡ some p
    → lookup ◌==◌ g m.arg.clients ≡ none
    → n ≢ g
ne_of_taken n g m taken free same = grind arith

-- A free id that the loop comes to within its rounds is found, or another one before it.
new_client_id_from-finds :
    (fuel : ℕ) (m : Manager) (g : ℕ)
    → m.arg.next_new_client_id ≤ max_client_id
    → g ≤ max_client_id
    → lookup ◌==◌ g m.arg.clients ≡ none
    → rounds m.arg.next_new_client_id g < fuel
    → (id : ℕ) × (new_client_id_from fuel m ≡ ok id (moved_on (next_client_id id) m))
      × (id ≤ max_client_id)
      × (lookup ◌==◌ id m.arg.clients ≡ none)
unfolding new_client_id_from
new_client_id_from-finds zero m g high g_high free near = absurd (omega arith)
new_client_id_from-finds (suc fuel) m g high g_high free near =
    let n = m.arg.next_new_client_id in
    elim (Option-cases (lookup ◌==◌ n m.arg.clients)) [
      | inl here ↦ (n, rw (here, new_client_id_from) refl, high, here)
      | inr (p, taken) ↦
          let (id, found, low, fresh) =
            new_client_id_from-finds fuel (moved_on (next_client_id n) m) g
              (next_client_id_high n high) g_high free
              (rounds-next_client_id fuel n g high g_high (ne_of_taken n g m taken free) near) in
          (id, rw (taken, new_client_id_from) found, low, fresh)
    ]

-- With at most 9999 clients, and a next id of at most 9999, the loop of `GetNewClientID` returns an
-- id of at most 9999 that no client has, and moves only the next id.
pub new_client_id-finds :
    (m : Manager)
    → length m.arg.clients ≤ max_client_id
    → m.arg.next_new_client_id ≤ max_client_id
    → (id : ℕ) × (new_client_id m ≡ ok id (moved_on (next_client_id id) m))
      × (id ≤ max_client_id)
      × (lookup ◌==◌ id m.arg.clients ≡ none)
unfolding new_client_id
new_client_id-finds m room high =
    let (g, low, below, free) = find_free (max_client_id + 1) 0 m.arg.clients (omega arith) in
    new_client_id_from-finds (max_client_id + 1) m g high (omega arith) free
      (rounds_lt m.arg.next_new_client_id g high (omega arith))
