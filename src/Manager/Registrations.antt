-- ===== src/Manager/Registrations.antt =====
-- Message ids and groups: `HandleRegistration`, `DeregisterAllMsgIDs`, `HandleGroupIDStr`, `HandleRegistrationsWanted`
-- and `SendRegistrationsToFD` of ClientProxy.cc.
use mcsb.Base.{
  ℕ, zero, suc, ◌+◌, ◌-◌, ◌/◌, ◌%◌, ◌==◌, Bool, true, false, not, List, [], ◌∷◌, if◌then◌else◌, ltb,
  length, is_nil, mem, erase, take, drop, Outcome, Proc, ok, throw, and_then, ◌>>=◌, ◌>>◌,
  out_of_fuel, client_mismatch, group_mismatch, reserved_msg_id, group_while_registered,
  group_already_set,
}
use mcsb.GroupManager.{Name, get_group_id}
use mcsb.Manager.{
  Manager, ClientProxy, Rest, Env, Message, registration, group_id_is, get_proxy, put_proxy,
  on_groups, caught, send, send_on,
}
use mcsb.Manager.Sockets.{send_registration}
use mcsb.Manager.Segments.{cci_message_id}
pub mod Ids
pub mod Rounds
pub mod Kept

-- `kRegType_RegisterList` and `kRegType_DeregisterList`.
abbrev pub register_list : ℕ
register_list = 0

abbrev pub deregister_list : ℕ
deregister_list = 1

-- `(kMaxPayloadSize-sizeof(RegistrationMsgHdr))/sizeof(uint32_t)`.
abbrev pub max_msg_ids : ℕ
max_msg_ids = (1024 - 4) / 4

-- `std::set<uint32_t>::insert`.
abbrev pub insert_id : ℕ → List ℕ → List ℕ
insert_id k [] = k ∷ []
insert_id k (x ∷ xs) = if k == x then x ∷ xs else if ltb k x then k ∷ x ∷ xs else x ∷ insert_id k xs

abbrev pub set_registered : ℕ → List ℕ → Manager → Manager
set_registered p ids m = put_proxy p (record (get_proxy p m) { registered_msg_ids = ids }) m

-- The loop over the ids to register; the result is those that were new. Ids before a reserved one stay
-- registered.
pub register_ids : ℕ → List ℕ → Proc Manager (List ℕ)
register_ids p [] m = ok [] m
register_ids p (k ∷ ks) m =
    let ids = (get_proxy p m).registered_msg_ids in
    let known = register_ids p ks m in
    if k == cci_message_id
    then throw reserved_msg_id m
    else if mem k ids
    then known
    else (register_ids p ks >>= λ new m'. ok (k ∷ new) m') (set_registered p (insert_id k ids) m)

pub deregister_ids : ℕ → List ℕ → Proc Manager (List ℕ)
deregister_ids p [] m = ok [] m
deregister_ids p (k ∷ ks) m =
    let ids = (get_proxy p m).registered_msg_ids in
    let unknown = deregister_ids p ks m in
    if mem k ids
    then (deregister_ids p ks >>= λ gone m'. ok (k ∷ gone) m') (set_registered p (erase k ids) m)
    else unknown

module _ (env : Env) where
  -- `if (num) manager->SendRegistration(...)`.
  pub announce : ℕ → ℕ → ℕ → List ℕ → Proc Manager (Unit {0})
  announce type cid gid ids m =
      if is_nil ids then ok tt m else send_registration env type cid gid ids m

  pub handle_registration : ℕ → ℕ → ℕ → ℕ → List ℕ → Proc Manager (Unit {0})
  unfolding register_ids deregister_ids announce
  handle_registration p type cid gid ids m =
      let x = get_proxy p m in
      if not (cid == x.client_id)
      then throw client_mismatch m
      else if not (gid == x.group_id)
      then throw group_mismatch m
      else if type == register_list
      then (register_ids p ids >>= announce register_list cid gid) m
      else if type == deregister_list
      then (deregister_ids p ids >>= announce deregister_list cid gid) m
      else ok tt m

  -- The outer loop, for at most `fuel` rounds: at most `max_msg_ids` ids are erased and announced.
  pub deregister_from : ℕ → ℕ → Proc Manager (Unit {0})
  deregister_from zero p m =
      if is_nil (get_proxy p m).registered_msg_ids then ok tt m else throw out_of_fuel m
  deregister_from (suc fuel) p m =
      let x = get_proxy p m in
      let ids = x.registered_msg_ids in
      if is_nil ids
      then ok tt m
      else (send_registration env deregister_list x.client_id x.group_id (take max_msg_ids ids)
            >> deregister_from fuel p)
          (set_registered p (drop max_msg_ids ids) m)

  -- Each round erases an id.
  pub deregister_all_msg_ids : ℕ → Proc Manager (Unit {0})
  unfolding deregister_from
  deregister_all_msg_ids p m = deregister_from (length (get_proxy p m).registered_msg_ids) p m

  -- A client sets its group once, before it registers. `SendGroupID` sets the proxy's id.
  pub handle_group_id_str : ℕ → Name → Proc Manager (Unit {0})
  handle_group_id_str p s m =
      let x = get_proxy p m in
      if not (is_nil x.registered_msg_ids)
      then throw group_while_registered m
      else if not (x.group_id == 0)
      then throw group_already_set m
      else (on_groups (get_group_id s true true) >>= λ gid m'.
            send env p (group_id_is gid)
              (put_proxy p (record (get_proxy p m') { group_id = gid }) m'))
          m

  -- The ids of proxy `p` in messages of at most `max_msg_ids`, sent on the socket of `q`, for at most `fuel`
  -- messages.
  pub send_ids_on : ℕ → ℕ → ℕ → List ℕ → Proc Manager (Unit {0})
  send_ids_on zero p q ids m = if is_nil ids then ok tt m else throw out_of_fuel m
  send_ids_on (suc fuel) p q ids m =
      let x = get_proxy p m in
      if is_nil ids
      then ok tt m
      else and_then
          (caught (
            send_on env p q
              (registration register_list x.client_id x.group_id (take max_msg_ids ids)) m))
          (λ _. send_ids_on fuel p q (drop max_msg_ids ids))

  pub send_registrations_on : ℕ → ℕ → Proc Manager (Unit {0})
  unfolding send_ids_on
  send_registrations_on p q m =
      let ids = (get_proxy p m).registered_msg_ids in send_ids_on (length ids) p q ids m

  -- The manager's `SendRegistrationsToFD`.
  pub send_all_registrations_on : List (ℕ × ℕ) → ℕ → Proc Manager (Unit {0})
  unfolding send_registrations_on
  send_all_registrations_on [] q m = ok tt m
  send_all_registrations_on ((id, p) ∷ rest) q m =
      and_then (send_registrations_on p q m) (λ _. send_all_registrations_on rest q)

  pub handle_registrations_wanted : ℕ → Bool → Bool → Proc Manager (Unit {0})
  unfolding send_all_registrations_on
  handle_registrations_wanted p want_new want_current m =
      let m1 = put_proxy p (record (get_proxy p m) { want_registrations = want_new }) m in
      if want_current then send_all_registrations_on m1.arg.clients p m1 else ok tt m1

-- `int32_t` to `char`.
pub handle_prod_nice_level : ℕ → ℕ → Manager → Manager
handle_prod_nice_level p level m =
    put_proxy p (record (get_proxy p m) { prod_nice_level = level % 256 }) m
