-- ===== src/Manager/Registrations/Kept.antt =====
-- Registrations and groups keep the books on reservations.
use mcsb.Base.{
  ℕ, zero, suc, ◌==◌, Bool, true, not, List, [], ◌∷◌, is_nil, mem, take, drop, ok, Keeps,
  and_then-Keeps, bind-Keeps, seq-Keeps, if-keeps,
}
use mcsb.GroupManager.{Name, get_group_id}
use mcsb.Manager.{Manager, Env, registration, group_id_is, get_proxy, on_groups, caught, send_on}
use mcsb.Manager.Books.{B, put_proxy-B, on_groups-Keeps, send_on-Keeps, caught-B}
use mcsb.Manager.Sockets.{send_registration}
use mcsb.Manager.Sockets.Kept.{send_registration-Keeps}
use mcsb.Manager.Segments.{cci_message_id}
use mcsb.Manager.Registrations.{
  register_list, deregister_list, max_msg_ids, set_registered, register_ids, deregister_ids,
  announce, handle_registration, deregister_from, deregister_all_msg_ids, handle_group_id_str,
  send_ids_on, send_registrations_on, send_all_registrations_on, handle_registrations_wanted,
  handle_prod_nice_level,
}

module _ (r : ℕ) (f g : ℕ → ℕ) (cs : List (ℕ × ℕ)) where
  abbrev P : Manager → Type 0
  P = B r f g cs

  set_registered-P : (p : ℕ) (ids : List ℕ) (m : Manager) → P m → P (set_registered p ids m)
  set_registered-P p ids m b = put_proxy-B r f g cs p _ m (b.reserves p) b

  register_ids-Keeps : (p : ℕ) (ks : List ℕ) → Keeps P (register_ids p ks)
  unfolding register_ids
  register_ids-Keeps p [] m b = b
  register_ids-Keeps p (k ∷ ks) m b = if-keeps P (k == cci_message_id) _ _ b (
      if-keeps P (mem k (get_proxy p m).registered_msg_ids) (register_ids p ks m) _
        (register_ids-Keeps p ks m b)
        (bind-Keeps P (register_ids p ks) _ (register_ids-Keeps p ks) (λ new m1 b1. b1) _
          (set_registered-P p _ m b)))

  deregister_ids-Keeps : (p : ℕ) (ks : List ℕ) → Keeps P (deregister_ids p ks)
  unfolding deregister_ids
  deregister_ids-Keeps p [] m b = b
  deregister_ids-Keeps p (k ∷ ks) m b =
      if-keeps P (mem k (get_proxy p m).registered_msg_ids) _ (deregister_ids p ks m)
        (bind-Keeps P (deregister_ids p ks) _ (deregister_ids-Keeps p ks) (λ gone m1 b1. b1) _
          (set_registered-P p _ m b))
        (deregister_ids-Keeps p ks m b)

  pub handle_prod_nice_level-B :
      (p level : ℕ) (m : Manager) → P m → P (handle_prod_nice_level p level m)
  unfolding handle_prod_nice_level
  handle_prod_nice_level-B p level m b = put_proxy-B r f g cs p _ m (b.reserves p) b

  module _ (env : Env) where
    announce-Keeps : (type cid gid : ℕ) (ids : List ℕ) → Keeps P (announce env type cid gid ids)
    unfolding announce
    announce-Keeps type cid gid ids m b =
        if-keeps P (is_nil ids) (ok tt m) (send_registration env type cid gid ids m) b
          (send_registration-Keeps r f g cs env type cid gid ids m b)

    pub handle_registration-Keeps :
        (p type cid gid : ℕ) (ids : List ℕ) → Keeps P (handle_registration env p type cid gid ids)
    unfolding handle_registration
    handle_registration-Keeps p type cid gid ids m b =
        let x = get_proxy p m in
        if-keeps P (not (cid == x.client_id)) _ _ b (
          if-keeps P (not (gid == x.group_id)) _ _ b (
            if-keeps P (type == register_list) _ _
              (bind-Keeps P (register_ids p ids) (announce env register_list cid gid)
                (register_ids-Keeps p ids) (announce-Keeps register_list cid gid) m b)
              (if-keeps P (type == deregister_list) _ _
                (bind-Keeps P (deregister_ids p ids) (announce env deregister_list cid gid)
                  (deregister_ids-Keeps p ids) (announce-Keeps deregister_list cid gid) m b)
                b)))

    deregister_from-Keeps : (fuel p : ℕ) → Keeps P (deregister_from env fuel p)
    unfolding deregister_from
    deregister_from-Keeps zero p m b =
        if-keeps P (is_nil (get_proxy p m).registered_msg_ids) _ _ b b
    deregister_from-Keeps (suc fuel) p m b =
        if-keeps P (is_nil (get_proxy p m).registered_msg_ids) (ok tt m) _ b (
          seq-Keeps P (send_registration env deregister_list _ _ _) (deregister_from env fuel p)
            (send_registration-Keeps r f g cs env deregister_list _ _ _)
            (deregister_from-Keeps fuel p) _ (set_registered-P p _ m b))

    pub deregister_all_msg_ids-Keeps : (p : ℕ) → Keeps P (deregister_all_msg_ids env p)
    unfolding deregister_all_msg_ids
    deregister_all_msg_ids-Keeps p m b = deregister_from-Keeps _ p m b

    pub handle_group_id_str-Keeps : (p : ℕ) (s : Name) → Keeps P (handle_group_id_str env p s)
    unfolding handle_group_id_str
    handle_group_id_str-Keeps p s m b =
        if-keeps P (not (is_nil (get_proxy p m).registered_msg_ids)) _ _ b (
          if-keeps P (not ((get_proxy p m).group_id == 0)) _ _ b (
            bind-Keeps P (on_groups (get_group_id s true true)) _
              (on_groups-Keeps r f g cs (get_group_id s true true))
              (λ gid m1 b1.
                send_on-Keeps r f g cs env p p (group_id_is gid) _
                  (put_proxy-B r f g cs p _ m1 (b1.reserves p) b1))
              m b))

    send_ids_on-Keeps : (fuel p q : ℕ) (ids : List ℕ) → Keeps P (send_ids_on env fuel p q ids)
    unfolding send_ids_on
    send_ids_on-Keeps zero p q ids m b = if-keeps P (is_nil ids) _ _ b b
    send_ids_on-Keeps (suc fuel) p q ids m b =
        let msg =
          registration register_list (get_proxy p m).client_id (get_proxy p m).group_id
            (take max_msg_ids ids) in
        if-keeps P (is_nil ids) (ok tt m) _ b (
          and_then-Keeps P (caught (send_on env p q msg m)) _
            (caught-B r f g cs (send_on env p q msg m) (send_on-Keeps r f g cs env p q msg m b))
            (λ _. send_ids_on-Keeps fuel p q (drop max_msg_ids ids)))

    send_all_registrations_on-Keeps :
        (to : List (ℕ × ℕ)) (q : ℕ) → Keeps P (send_all_registrations_on env to q)
    unfolding send_all_registrations_on send_registrations_on
    send_all_registrations_on-Keeps [] q m b = b
    send_all_registrations_on-Keeps ((id, p) ∷ rest) q m b =
        and_then-Keeps P (send_registrations_on env p q m) _ (send_ids_on-Keeps _ p q _ m b)
          (λ _. send_all_registrations_on-Keeps rest q)

    pub handle_registrations_wanted-Keeps :
        (p : ℕ) (new now : Bool) → Keeps P (handle_registrations_wanted env p new now)
    unfolding handle_registrations_wanted
    handle_registrations_wanted-Keeps p new now m b =
        let b1 =
          put_proxy-B r f g cs p (record (get_proxy p m) { want_registrations = new }) m
            (b.reserves p) b in
        if-keeps P now _ _ (send_all_registrations_on-Keeps _ p _ b1) b1
