-- ===== src/Manager/Registrations/Rounds.antt =====
-- The loops that send a client's message ids: `DeregisterAllMsgIDs` ends, and what a refused
-- `SendRegistrationsToFD` does.
use mcsb.Base.{
  ℕ, zero, suc, ◌-◌, ◌≤◌, ◌≡◌, refl, ap, sym, ◌∙◌, true, false, false≢true, List, [], ◌∷◌, is_nil,
  length, take, drop, length-drop, Bool-cases, inl, inr, ok, arith,
}
use mcsb.Manager.{Manager, Env, Message, registration, get_proxy, put_proxy, send_on, caught}
use mcsb.Manager.Store.{get_proxy-put_self}
use mcsb.Manager.Sockets.Broadcast.{send_registration-OnlySends}
use mcsb.Manager.Registrations.{
  set_registered, max_msg_ids, register_list, deregister_list, deregister_from,
  deregister_all_msg_ids, send_ids_on, send_registrations_on,
}
use mcsb.Manager.Registrations.Ids.{registered, registered-set_registered}

is_nil-length : (xs : List ℕ) → length xs ≤ 0 → is_nil xs ≡ true
is_nil-length [] h = refl
is_nil-length (x ∷ xs) h = absurd (omega arith)

nil_of : (xs : List ℕ) → is_nil xs ≡ true → xs ≡ []
nil_of [] h = refl
nil_of (x ∷ xs) h = absurd cc

drop_shorter :
    (fuel : ℕ) (xs : List ℕ)
    → is_nil xs ≡ false
    → length xs ≤ suc fuel
    → length (drop max_msg_ids xs) ≤ fuel
drop_shorter fuel [] h enough = absurd (false≢true (sym h))
drop_shorter fuel (x ∷ xs) h enough = omega (arith, length-drop max_msg_ids (x ∷ xs))

deregister_from-ends :
    (env : Env) (fuel p : ℕ) (m : Manager)
    → length (registered p m) ≤ fuel
    → (m' : Manager) × (deregister_from env fuel p m ≡ ok tt m') × (registered p m' ≡ [])
unfolding deregister_from
deregister_from-ends env zero p m enough =
    let nil = is_nil-length (registered p m) enough in (m, rw nil refl, nil_of (registered p m) nil)
deregister_from-ends env (suc fuel) p m enough = elim (Bool-cases (is_nil (registered p m))) [
  | inl nil ↦ (m, rw nil refl, nil_of (registered p m) nil)
  | inr some_left ↦
      let x = get_proxy p m in
      let ids = registered p m in
      let m1 = set_registered p (drop max_msg_ids ids) m in
      let (m2, sent, same) =
        send_registration-OnlySends env deregister_list x.client_id x.group_id
          (take max_msg_ids ids) m1 in
      let left : registered p m2 ≡ drop max_msg_ids ids =
        ap (λ s. (s.arg.proxy p).registered_msg_ids) same ∙ registered-set_registered p _ m in
      let shorter : length (registered p m2) ≤ fuel =
        omega (arith, ap length left, drop_shorter fuel ids some_left enough) in
      let (m', rest, nil) = deregister_from-ends env fuel p m2 shorter in
      (m', rw some_left (rw sent rest), nil)
]

-- `DeregisterAllMsgIDs` returns with no id left, whichever sockets refuse its announcements; its
-- rounds of at most 255 ids are enough.
pub deregister_all_msg_ids-ends :
    (env : Env) (p : ℕ) (m : Manager)
    → (m' : Manager) × (deregister_all_msg_ids env p m ≡ ok tt m') × (registered p m' ≡ [])
unfolding deregister_all_msg_ids
deregister_all_msg_ids-ends env p m =
    deregister_from-ends env (length (registered p m)) p m (omega arith)

caught_send_off :
    (env : Env) (p q : ℕ) (msg : Message) (m : Manager)
    → (get_proxy p m).connected ≡ false
    → caught (send_on env p q msg m) ≡ ok tt m
unfolding send_on
caught_send_off env p q msg m off = rw off refl

caught_send_refused :
    (env : Env) (p q : ℕ) (msg : Message) (m : Manager)
    → (get_proxy p m).connected ≡ true
    → env.refuses m.arg.sent q msg ≡ true
    → caught (send_on env p q msg m)
      ≡ ok tt (put_proxy p (record (get_proxy p m) { connected = false }) m)
unfolding send_on
caught_send_refused env p q msg m on no_room = rw on (rw no_room refl)

-- An endpoint that cannot send any more is passed over in silence.
send_ids_on_off :
    (env : Env) (fuel p q : ℕ) (ids : List ℕ) (m : Manager)
    → (get_proxy p m).connected ≡ false
    → length ids ≤ fuel
    → send_ids_on env fuel p q ids m ≡ ok tt m
unfolding send_ids_on
send_ids_on_off env zero p q ids m off enough = rw (is_nil-length ids enough) refl
send_ids_on_off env (suc fuel) p q ids m off enough = elim (Bool-cases (is_nil ids)) [
  | inl nil ↦ rw nil refl
  | inr some_left ↦ rw some_left (
      rw (caught_send_off env p q _ m off) (
        send_ids_on_off env fuel p q (drop max_msg_ids ids) m off
          (drop_shorter fuel ids some_left enough)))
]

-- The first message of a registered client's ids, on the socket of the client that asks for them.
abbrev pub first_registration : ℕ → Manager → Message
first_registration p m =
    let x = get_proxy p m in
    registration register_list x.client_id x.group_id (take max_msg_ids x.registered_msg_ids)

module _ (env : Env) (p q : ℕ) (m : Manager) (on : (get_proxy p m).connected ≡ true)
    (some_ids : is_nil (registered p m) ≡ false)
    (no_room : env.refuses m.arg.sent q (first_registration p m) ≡ true) where
  abbrev blamed : Manager
  blamed = put_proxy p (record (get_proxy p m) { connected = false }) m

  send_ids_on_blames :
      (fuel : ℕ)
      → length (registered p m) ≤ suc fuel
      → send_ids_on env (suc fuel) p q (registered p m) m ≡ ok tt blamed
  unfolding send_ids_on
  send_ids_on_blames fuel enough = rw some_ids (
      rw (caught_send_refused env p q (first_registration p m) m on no_room) (
        send_ids_on_off env fuel p q (drop max_msg_ids (registered p m)) blamed
          (ap (λ x. x.connected) (get_proxy-put_self p _ m))
          (drop_shorter fuel (registered p m) some_ids enough)))

length_of_some : (xs : List ℕ) → is_nil xs ≡ false → length xs ≡ suc (length xs - 1)
length_of_some [] h = absurd (false≢true (sym h))
length_of_some (x ∷ xs) h = omega arith

-- If a proxy that can send has registered ids, and the socket of the client that asks for
-- registrations refuses their first message, `SendRegistrationsToFD` returns with the registered
-- proxy, not the asking one, marked as one that cannot send, and nothing else changed.
pub send_registrations_on_blames :
    (env : Env) (p q : ℕ) (m : Manager)
    → (get_proxy p m).connected ≡ true
    → is_nil (registered p m) ≡ false
    → env.refuses m.arg.sent q (first_registration p m) ≡ true
    → send_registrations_on env p q m
      ≡ ok tt (put_proxy p (record (get_proxy p m) { connected = false }) m)
unfolding send_registrations_on
send_registrations_on_blames env p q m on some_ids no_room =
    let ids = registered p m in
    let len = length_of_some ids some_ids in
    ap (λ n. send_ids_on env n p q ids m) len
    ∙ send_ids_on_blames env p q m on some_ids no_room (length ids - 1) (omega arith)
