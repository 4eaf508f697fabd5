-- ===== src/Manager/Ledger/Requests.antt =====
-- The books on reservations, under any request of a connected client.
use mcsb.Base.{ℕ, ◌≡◌, final}
use mcsb.Manager.{Manager, Env}
use mcsb.Manager.Books.{B}
use mcsb.Manager.Sockets.Kept.{handle_drop_report_ack-Keeps}
use mcsb.Manager.Segments.Kept.{
  handle_block_ids-Keeps, handle_slab_ids-Keeps, handle_blocks_and_info-Keeps,
}
use mcsb.Manager.Registrations.Kept.{
  handle_registration-Keeps, handle_registrations_wanted-Keeps, handle_prod_nice_level-B,
}
use mcsb.Manager.Requests.{
  Request, handle, client_pid_request, ctrl_string_request, num_slabs_request, block_ids_request,
  slab_ids_request, registration_request, registrations_wanted_request, blocks_and_info_request,
  manager_echo_request, drop_report_ack_request, nice_level_request, sequence_token_request,
}
use mcsb.Manager.Requests.Kept.{
  handle_client_pid-B, handle_ctrl_string-Keeps, handle_manager_echo-Keeps,
  handle_sequence_token-Keeps,
}
use mcsb.Manager.Ledger.{
  prods, conss, times, IsAccounted, books_of, IsAccounted-of_books, handle_num_slabs-IsAccounted,
}

module _ (m : Manager) (a : IsAccounted m) where
  abbrev same_books :
      (m' : Manager) → B m.num_slabs_reserved (prods m) (conss m) m.arg.clients m' → IsAccounted m'
  same_books m' b =
      IsAccounted-of_books m.num_slabs_reserved (prods m) (conss m) m.arg.clients m' a.sum b

  -- If the slabs that are reserved are, modulo 2 ^ 32, those that the clients' proxies have
  -- reserved for producing and consuming, and the manager is not told of free slabs that become
  -- held, then that holds again after the handler of any request that `ClientProxy` handles, of a
  -- client that stands once among the clients, whether the handler returns or throws halfway, and
  -- whichever sends and mappings fail.
  pub handle-IsAccounted :
      (env : Env) (p : ℕ) (req : Request)
      → times p m.arg.clients ≡ 1
      → IsAccounted (final (handle env p req m))
  unfolding handle
  handle-IsAccounted env p (num_slabs_request prod cons) once =
      handle_num_slabs-IsAccounted env p prod cons m once a
  handle-IsAccounted env p (block_ids_request blocks) once =
      same_books _ (handle_block_ids-Keeps _ _ _ _ env p blocks m (books_of m a))
  handle-IsAccounted env p (slab_ids_request slabs) once =
      same_books _ (handle_slab_ids-Keeps _ _ _ _ env p slabs m (books_of m a))
  handle-IsAccounted env p (blocks_and_info_request bs) once =
      same_books _ (handle_blocks_and_info-Keeps _ _ _ _ env p bs m (books_of m a))
  handle-IsAccounted env p (registration_request type cid gid ids) once =
      same_books _ (handle_registration-Keeps _ _ _ _ env p type cid gid ids m (books_of m a))
  handle-IsAccounted env p (client_pid_request pid) once =
      same_books _ (handle_client_pid-B _ _ _ _ p pid m (books_of m a))
  handle-IsAccounted env p (ctrl_string_request which s) once =
      same_books _ (handle_ctrl_string-Keeps _ _ _ _ env p which s m (books_of m a))
  handle-IsAccounted env p (manager_echo_request bytes) once =
      same_books _ (handle_manager_echo-Keeps _ _ _ _ env p bytes m (books_of m a))
  handle-IsAccounted env p (sequence_token_request token) once =
      same_books _ (handle_sequence_token-Keeps _ _ _ _ env p token m (books_of m a))
  handle-IsAccounted env p (registrations_wanted_request new now) once =
      same_books _ (handle_registrations_wanted-Keeps _ _ _ _ env p new now m (books_of m a))
  handle-IsAccounted env p drop_report_ack_request once =
      same_books _ (handle_drop_report_ack-Keeps _ _ _ _ env p m (books_of m a))
  handle-IsAccounted env p (nice_level_request level) once =
      same_books _ (handle_prod_nice_level-B _ _ _ _ p level m (books_of m a))
