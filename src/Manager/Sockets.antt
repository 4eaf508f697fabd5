-- ===== src/Manager/Sockets.antt =====
-- What a `ClientProxy` sends to its client, and the manager's broadcast of registrations.
use mcsb.Base.{
  ℕ, zero, suc, ◌+◌, ◌==◌, Bool, true, false, not, ◌&&◌, List, [], ◌∷◌, Option, none, some,
  if◌then◌else◌, u64, length, is_nil, send_failed, map, Outcome, Proc, ok, throw, ◌>>=◌, ◌>>◌,
  and_then,
}
use mcsb.DropReporter.{DropReporter, dropped, ack, get_report}
use mcsb.Manager.{
  Manager, ClientProxy, ProxyStats, ManagerStats, Message, block_ids, slab_ids, drop_report,
  registration, Env, get_proxy, put_proxy, caught, send,
}
pub mod Broadcast
pub mod Kept

abbrev pub sum_sizes : List ℕ → ℕ
sum_sizes [] = 0
sum_sizes (size ∷ sizes) = u64 (size + sum_sizes sizes)

-- `stats.sentSegs += count` and the like, in the proxy and in the manager.
abbrev pub count_sent : ℕ → ℕ → ℕ → Manager → Manager
count_sent p count bytes m =
    let x = get_proxy p m in
    let s = x.stats in
    let a = m.arg.manager_stats in
    let m1 : Manager =
      put_proxy p
        (record x {
          stats = record s {
            sent_segs = u64 (s.sent_segs + count);
            sent_bytes = u64 (s.sent_bytes + bytes);
          };
        })
        m in
    record m1 {
      arg = record m1.arg {
        manager_stats = record a {
          all_sent_segs = u64 (a.all_sent_segs + count);
          all_sent_bytes = u64 (a.all_sent_bytes + bytes);
        };
      };
    }

-- `DroppedStats`.
abbrev pub count_dropped : ℕ → ℕ → Manager → Manager
count_dropped segs bytes m =
    let a = m.arg.manager_stats in
    record m {
      arg = record m.arg {
        manager_stats = record a {
          all_dropped_segs = u64 (a.all_dropped_segs + segs);
          all_dropped_bytes = u64 (a.all_dropped_bytes + bytes);
        };
      };
    }

abbrev pub set_reporter : ℕ → DropReporter → Manager → Manager
set_reporter p r m = put_proxy p (record (get_proxy p m) { drop_reporter = r }) m

module _ (env : Env) where
  -- `SocketEndpoint::SendBlockIDs` for the ids in `msg`: if there are none, nothing is sent.
  pub send_ids : ℕ → Bool → Message → Proc Manager (Unit {0})
  send_ids p no_ids msg m =
      if not no_ids
      then send env p msg m
      else if (get_proxy p m).connected
      then ok tt m
      else throw send_failed m

  -- The blocks with their sizes.
  pub send_block_ids : ℕ → List (ℕ × ℕ) → Proc Manager (Unit {0})
  unfolding send_ids
  send_block_ids p segs m = caught (
      and_then (send_ids p (is_nil segs) (block_ids (map (λ s. s.0) segs)) m)
        (λ _ m'. ok tt (count_sent p (length segs) (sum_sizes (map (λ s. s.1) segs)) m')))

  pub send_slab_ids : ℕ → List ℕ → Proc Manager (Unit {0})
  unfolding send_ids
  send_slab_ids p ids m = caught (send_ids p (is_nil ids) (slab_ids ids) m)

  -- The report that the reporter gives, if it gives one.
  pub send_report : ℕ → Option (ℕ × ℕ) → Proc Manager (Unit {0})
  send_report p none m = ok tt m
  send_report p (some (segs, bytes)) m = caught (send env p (drop_report segs bytes) m)

  pub send_drop_report : ℕ → ℕ → ℕ → Proc Manager (Unit {0})
  unfolding send_report
  send_drop_report p segs bytes m =
      let (report, r) = get_report (dropped segs bytes (get_proxy p m).drop_reporter) in
      and_then (send_report p report (set_reporter p r m))
        (λ _ m'. ok tt (if segs == 0 && bytes == 0 then m' else count_dropped segs bytes m'))

  pub handle_drop_report_ack : ℕ → Proc Manager (Unit {0})
  unfolding send_drop_report
  handle_drop_report_ack p m =
      send_drop_report p 0 0 (set_reporter p (ack (get_proxy p m).drop_reporter) m)

  -- The proxy's `SendRegistration`.
  pub send_registration_to : ℕ → Message → Proc Manager (Unit {0})
  send_registration_to p msg m = caught (send env p msg m)

  -- The manager's `SendRegistration`: to every client that wants them, in the order of their ids.
  pub broadcast : List (ℕ × ℕ) → Message → Proc Manager (Unit {0})
  unfolding send_registration_to
  broadcast [] msg m = ok tt m
  broadcast ((id, p) ∷ rest) msg m =
      and_then
        (if (get_proxy p m).want_registrations then send_registration_to p msg m else ok tt m)
        (λ _. broadcast rest msg)

  pub send_registration : ℕ → ℕ → ℕ → List ℕ → Proc Manager (Unit {0})
  unfolding broadcast
  send_registration type cid gid ids m = broadcast m.arg.clients (registration type cid gid ids) m
