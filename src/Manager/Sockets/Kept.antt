-- ===== src/Manager/Sockets/Kept.antt =====
-- Sending keeps the books on reservations.
use mcsb.Base.{
  ℕ, ◌==◌, ◌&&◌, Bool, true, false, List, [], ◌∷◌, Option, none, some, if◌then◌else◌, length, map,
  is_nil, not, send_failed, throw, ok, Keeps, and_then, and_then-Keeps, if-keeps,
}
use mcsb.DropReporter.{dropped, get_report}
use mcsb.Manager.{
  Manager, Env, Message, block_ids, slab_ids, drop_report, get_proxy, put_proxy, send,
}
use mcsb.Manager.Books.{B, put_proxy-B, counters-B, send_on-Keeps, caught-B}
use mcsb.Manager.Sockets.{
  send_ids, sum_sizes, count_sent, count_dropped, set_reporter, send_block_ids, send_slab_ids,
  send_report, send_drop_report, handle_drop_report_ack, send_registration_to, broadcast,
  send_registration,
}

module _ (r : ℕ) (f g : ℕ → ℕ) (cs : List (ℕ × ℕ)) (env : Env) where
  abbrev P : Manager → Type 0
  P = B r f g cs

  send-Keeps : (p : ℕ) (msg : Message) → Keeps P (send env p msg)
  send-Keeps p msg = send_on-Keeps r f g cs env p p msg

  send_ids-Keeps : (p : ℕ) (no_ids : Bool) (msg : Message) → Keeps P (send_ids env p no_ids msg)
  unfolding send_ids
  send_ids-Keeps p no_ids msg m b =
      if-keeps P (not no_ids) _ _ (send-Keeps p msg m b)
        (if-keeps P (get_proxy p m).connected (ok tt m) (throw send_failed m) b b)

  pub send_block_ids-Keeps : (p : ℕ) (segs : List (ℕ × ℕ)) → Keeps P (send_block_ids env p segs)
  unfolding send_block_ids
  send_block_ids-Keeps p segs m b =
      caught-B r f g cs
        (and_then (send_ids env p (is_nil segs) (block_ids (map (λ s. s.0) segs)) m)
          (λ _ m1. ok tt (count_sent p (length segs) (sum_sizes (map (λ s. s.1) segs)) m1)))
        (and_then-Keeps P (send_ids env p (is_nil segs) (block_ids (map (λ s. s.0) segs)) m) _
          (send_ids-Keeps p _ _ m b)
          (λ _ m1 b1.
            counters-B r f g cs _ (put_proxy p _ m1)
              (put_proxy-B r f g cs p _ m1 (b1.reserves p) b1)))

  pub send_slab_ids-Keeps : (p : ℕ) (ids : List ℕ) → Keeps P (send_slab_ids env p ids)
  unfolding send_slab_ids
  send_slab_ids-Keeps p ids m b =
      caught-B r f g cs (send_ids env p (is_nil ids) (slab_ids ids) m) (send_ids-Keeps p _ _ m b)

  send_report-Keeps : (p : ℕ) (o : Option (ℕ × ℕ)) → Keeps P (send_report env p o)
  unfolding send_report
  send_report-Keeps p none m b = b
  send_report-Keeps p (some (segs, bytes)) m b =
      caught-B r f g cs (send env p (drop_report segs bytes) m)
        (send-Keeps p (drop_report segs bytes) m b)

  pub send_drop_report-Keeps : (p segs bytes : ℕ) → Keeps P (send_drop_report env p segs bytes)
  unfolding send_drop_report
  send_drop_report-Keeps p segs bytes m b =
      let answer = get_report (dropped segs bytes (get_proxy p m).drop_reporter) in
      let m1 = set_reporter p answer.1 m in
      and_then-Keeps P (send_report env p answer.0 m1) _
        (send_report-Keeps p answer.0 m1 (put_proxy-B r f g cs p _ m (b.reserves p) b))
        (λ _ m2 b2. settled (segs == 0 && bytes == 0) m2 b2)
    where
      settled :
          (skip : Bool) (m : Manager) → P m → P (if skip then m else count_dropped segs bytes m)
      settled true m b = b
      settled false m b = counters-B r f g cs _ m b

  pub handle_drop_report_ack-Keeps : (p : ℕ) → Keeps P (handle_drop_report_ack env p)
  unfolding handle_drop_report_ack
  handle_drop_report_ack-Keeps p m b =
      send_drop_report-Keeps p 0 0 _ (put_proxy-B r f g cs p _ m (b.reserves p) b)

  broadcast-Keeps : (to : List (ℕ × ℕ)) (msg : Message) → Keeps P (broadcast env to msg)
  unfolding broadcast send_registration_to
  broadcast-Keeps [] msg m b = b
  broadcast-Keeps ((id, p) ∷ rest) msg m b =
      and_then-Keeps P
        (if (get_proxy p m).want_registrations then send_registration_to env p msg m else ok tt m)
        (λ _. broadcast env rest msg)
        (if-keeps P (get_proxy p m).want_registrations (send_registration_to env p msg m) (ok tt m)
          (caught-B r f g cs (send env p msg m) (send-Keeps p msg m b)) b)
        (λ _. broadcast-Keeps rest msg)

  pub send_registration-Keeps :
      (type cid gid : ℕ) (ids : List ℕ) → Keeps P (send_registration env type cid gid ids)
  unfolding send_registration
  send_registration-Keeps type cid gid ids m b = broadcast-Keeps m.arg.clients _ m b
