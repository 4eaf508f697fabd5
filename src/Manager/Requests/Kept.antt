-- ===== src/Manager/Requests/Kept.antt =====
-- The handlers of requests keep the books on reservations, but for the one that reserves.
use mcsb.Base.{ℕ, ◌==◌, List, ok, Keeps, if-keeps}
use mcsb.GroupManager.{Name}
use mcsb.Manager.{Manager, Env, manager_echo, sequence_token}
use mcsb.Manager.Books.{B, put_proxy-B, send_on-Keeps}
use mcsb.Manager.Registrations.Kept.{handle_group_id_str-Keeps}
use mcsb.Manager.Requests.{
  ctrl_string_client_name, ctrl_string_group_id, handle_client_pid, handle_ctrl_string,
  handle_manager_echo, handle_sequence_token,
}

module _ (r : ℕ) (f g : ℕ → ℕ) (cs : List (ℕ × ℕ)) where
  abbrev P : Manager → Type 0
  P = B r f g cs

  pub handle_client_pid-B : (p pid : ℕ) (m : Manager) → P m → P (handle_client_pid p pid m)
  unfolding handle_client_pid
  handle_client_pid-B p pid m b = put_proxy-B r f g cs p _ m (b.reserves p) b

  module _ (env : Env) where
    pub handle_ctrl_string-Keeps :
        (p which : ℕ) (s : Name) → Keeps P (handle_ctrl_string env p which s)
    unfolding handle_ctrl_string
    handle_ctrl_string-Keeps p which s m b =
        if-keeps P (which == ctrl_string_client_name) _ _
          (put_proxy-B r f g cs p _ m (b.reserves p) b)
          (if-keeps P (which == ctrl_string_group_id) _ (ok tt m)
            (handle_group_id_str-Keeps r f g cs env p s m b) b)

    pub handle_manager_echo-Keeps :
        (p : ℕ) (bytes : List ℕ) → Keeps P (handle_manager_echo env p bytes)
    unfolding handle_manager_echo
    handle_manager_echo-Keeps p bytes = send_on-Keeps r f g cs env p p (manager_echo bytes)

    pub handle_sequence_token-Keeps : (p token : ℕ) → Keeps P (handle_sequence_token env p token)
    unfolding handle_sequence_token
    handle_sequence_token-Keeps p token = send_on-Keeps r f g cs env p p (sequence_token token)
