-- ===== src/Manager/Sockets/Broadcast.antt =====
-- The broadcast of registrations returns, whichever sockets refuse it; and who is told.
use mcsb.Base.{ℕ, ◌≡◌, refl, true, false, List, [], ◌∷◌, if◌then◌else◌, Bool-cases, inl, inr, ok}
use mcsb.Manager.{Manager, Env, Message, registration, get_proxy, put_proxy, send_on}
use mcsb.Manager.Quiet.{OnlySends, send_on-OnlySends, and_then-OnlySends}
use mcsb.Manager.Sockets.{send_registration_to, broadcast, send_registration}

broadcast-OnlySends :
    (env : Env) (cs : List (ℕ × ℕ)) (msg : Message) (m : Manager)
    → OnlySends m (broadcast env cs msg m)
unfolding broadcast send_registration_to
broadcast-OnlySends env [] msg m = (m, refl, refl)
broadcast-OnlySends env ((id, p) ∷ rest) msg m =
    and_then-OnlySends m _ (λ _. broadcast env rest msg) (first p)
      (broadcast-OnlySends env rest msg)
  where
    first :
        (p : ℕ)
        → OnlySends m (
            if (get_proxy p m).want_registrations
            then send_registration_to env p msg m
            else ok tt m)
    first p = elim (Bool-cases (get_proxy p m).want_registrations) [
      | inl w ↦ rw w (send_on-OnlySends env p p msg m)
      | inr w ↦ rw w (m, refl, refl)
    ]

pub send_registration-OnlySends :
    (env : Env) (type cid gid : ℕ) (ids : List ℕ) (m : Manager)
    → OnlySends m (send_registration env type cid gid ids m)
unfolding send_registration
send_registration-OnlySends env type cid gid ids m = broadcast-OnlySends env m.arg.clients _ m

-- What becomes of a message for the client behind `p`: it does not want any, its endpoint is broken,
-- its socket refuses the message and breaks the endpoint, or the message is sent.
pub data Hears (env : Env) (p : ℕ) (msg : Message) (m m' : Manager) : Type 0 where
  unwanted : (get_proxy p m).want_registrations ≡ false → m' ≡ m → Hears env p msg m m'
  broken :
      (get_proxy p m).want_registrations ≡ true
      → (get_proxy p m).connected ≡ false
      → m' ≡ m
      → Hears env p msg m m'
  refused :
      (get_proxy p m).want_registrations ≡ true
      → (get_proxy p m).connected ≡ true
      → env.refuses m.arg.sent p msg ≡ true
      → m' ≡ put_proxy p (record (get_proxy p m) { connected = false }) m
      → Hears env p msg m m'
  heard :
      (get_proxy p m).want_registrations ≡ true
      → (get_proxy p m).connected ≡ true
      → env.refuses m.arg.sent p msg ≡ false
      → m' ≡ record m { arg = record m.arg { sent = (p, msg) ∷ m.arg.sent } }
      → Hears env p msg m m'

-- The clients in turn, and nothing else.
abbrev pub Told : Env → Message → List (ℕ × ℕ) → Manager → Manager → Type 0
Told env msg [] m m' = m' ≡ m
Told env msg (c ∷ cs) m m' = (m1 : Manager) × Hears env c.1 msg m m1 × Told env msg cs m1 m'

hears :
    (env : Env) (p : ℕ) (msg : Message) (m : Manager)
    → (m1 : Manager) × ((if (get_proxy p m).want_registrations
          then send_registration_to env p msg m
          else ok tt m)
        ≡ ok tt m1)
      × Hears env p msg m m1
unfolding send_registration_to send_on
hears env p msg m = elim (Bool-cases (get_proxy p m).want_registrations) [
  | inr quiet ↦ (m, rw quiet refl, unwanted quiet refl)
  | inl want ↦ elim (Bool-cases (get_proxy p m).connected) [
    | inr off ↦ (m, rw (want, off) refl, broken want off refl)
    | inl on ↦ elim (Bool-cases (env.refuses m.arg.sent p msg)) [
      | inl full ↦ (_, rw (want, on, full) refl, refused want on full refl)
      | inr room ↦ (_, rw (want, on, room) refl, heard want on room refl)
    ]
  ]
]

broadcast-Told :
    (env : Env) (cs : List (ℕ × ℕ)) (msg : Message) (m : Manager)
    → (m' : Manager) × (broadcast env cs msg m ≡ ok tt m') × Told env msg cs m m'
unfolding broadcast
broadcast-Told env [] msg m = (m, refl, refl)
broadcast-Told env ((id, p) ∷ rest) msg m =
    let (m1, e, h) = hears env p msg m in
    let (m', e', t) = broadcast-Told env rest msg m1 in (m', rw e e', (m1, h, t))

pub send_registration-Told :
    (env : Env) (type cid gid : ℕ) (ids : List ℕ) (m : Manager)
    → (m' : Manager) × (send_registration env type cid gid ids m ≡ ok tt m')
      × Told env (registration type cid gid ids) m.arg.clients m m'
unfolding send_registration
send_registration-Told env type cid gid ids m = broadcast-Told env m.arg.clients _ m
