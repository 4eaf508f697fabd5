-- ===== src/Manager/Requests.antt =====
-- What a client can ask of the manager: the handlers of ClientProxy.h, and those that are not of the
-- other parts.
use mcsb.Base.{ℕ, ◌==◌, if◌then◌else◌, Bool, List, Proc, ok}
use mcsb.RecvManager.{BlockInfo}
use mcsb.GroupManager.{Name}
use mcsb.Manager.{Manager, Env, manager_echo, sequence_token, get_proxy, put_proxy, send}
use mcsb.Manager.Sockets.{handle_drop_report_ack}
use mcsb.Manager.Segments.{handle_block_ids, handle_slab_ids, handle_blocks_and_info}
use mcsb.Manager.Buffers.{handle_num_slabs}
use mcsb.Manager.Registrations.{
  handle_registration, handle_group_id_str, handle_registrations_wanted, handle_prod_nice_level,
}
pub mod Kept

-- `kCtrlString_ClientName` and `kCtrlString_GroupID`.
abbrev pub ctrl_string_client_name : ℕ
ctrl_string_client_name = 2

abbrev pub ctrl_string_group_id : ℕ
ctrl_string_group_id = 3

pub handle_client_pid : ℕ → ℕ → Manager → Manager
handle_client_pid p pid m = put_proxy p (record (get_proxy p m) { client_pid = pid }) m

-- The name of a client or of its group; another string is only printed.
pub handle_ctrl_string : Env → ℕ → ℕ → Name → Proc Manager (Unit {0})
handle_ctrl_string env p which s m =
    if which == ctrl_string_client_name
    then ok tt (put_proxy p (record (get_proxy p m) { client_name = s }) m)
    else if which == ctrl_string_group_id
    then handle_group_id_str env p s m
    else ok tt m

-- The client's own bytes and tokens are sent back to it; a failure is not caught here.
pub handle_manager_echo : Env → ℕ → List ℕ → Proc Manager (Unit {0})
handle_manager_echo env p bytes m = send env p (manager_echo bytes) m

pub handle_sequence_token : Env → ℕ → ℕ → Proc Manager (Unit {0})
handle_sequence_token env p token m = send env p (sequence_token token) m

pub data Request : Type 0 where
  client_pid_request : ℕ → Request
  ctrl_string_request : ℕ → Name → Request
  num_slabs_request : ℕ → ℕ → Request
  block_ids_request : List ℕ → Request
  slab_ids_request : List ℕ → Request
  registration_request : ℕ → ℕ → ℕ → List ℕ → Request
  registrations_wanted_request : Bool → Bool → Request
  blocks_and_info_request : List (ℕ × BlockInfo) → Request
  manager_echo_request : List ℕ → Request
  drop_report_ack_request : Request
  nice_level_request : ℕ → Request
  sequence_token_request : ℕ → Request

-- The handler that is called for it.
unfoldable pub handle : Env → ℕ → Request → Proc Manager (Unit {0})
unfolding handle_client_pid handle_ctrl_string handle_manager_echo handle_sequence_token
handle env p (client_pid_request pid) m = ok tt (handle_client_pid p pid m)
handle env p (ctrl_string_request which s) m = handle_ctrl_string env p which s m
handle env p (num_slabs_request prod cons) m = handle_num_slabs env p prod cons m
handle env p (block_ids_request blocks) m = handle_block_ids env p blocks m
handle env p (slab_ids_request slabs) m = handle_slab_ids env p slabs m
handle env p (registration_request type cid gid ids) m =
    handle_registration env p type cid gid ids m
handle env p (registrations_wanted_request new now) m = handle_registrations_wanted env p new now m
handle env p (blocks_and_info_request bs) m = handle_blocks_and_info env p bs m
handle env p (manager_echo_request bytes) m = handle_manager_echo env p bytes m
handle env p drop_report_ack_request m = handle_drop_report_ack env p m
handle env p (nice_level_request level) m = ok tt (handle_prod_nice_level p level m)
handle env p (sequence_token_request token) m = handle_sequence_token env p token m
