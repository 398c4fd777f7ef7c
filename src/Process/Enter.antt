-- ===== src/Process/Enter.antt =====
-- How a child process enters the namespaces of a container: `run_in_net_and_mnt_namespace`
-- (vuinputd/src/process_tools/mod.rs) and `acquire_uid_and_gid` (vuinputd/src/process_tools/ns_fscreds.rs).
pub mod Safe
use vuinputd.Prelude.{ℕ, Bool, true, false, Option, none, some, List, [], ◌∷◌, ◌++◌, if◌then◌else◌}
use vuinputd.Prelude.Text.{Text, codes, trim, parse_uint, u32_max}
use vuinputd.Config.{DeviceOwner, container_dev_folder}
use vuinputd.Inject.{Ended, fine, failed, panicked, Step, ◌then?◌, ignore}
use vuinputd.Process.IdMap.{get_id_in_container}

pub data Namespace : Type 0 where
  user net mnt : Namespace

-- The calls that change what the process may do.
pub data SysCall : Type 0 where
  setns : Namespace → SysCall
  setresgid setresuid : ℕ → SysCall
  setfsgid setfsuid : ℕ → SysCall

-- /proc as the process sees it, and the kernel: a call changes its state, and succeeds or not.
pub record Proc : Type 1 where
  pub uid_map : ℕ → Option Text
  pub gid_map : ℕ → Option Text
  -- `fs::exists`, which can fail.
  pub exists : Text → Option Bool
  pub can_open : Text → Bool
  pub Kernel : Type 0
  pub call : SysCall → Kernel → Kernel × Bool

-- `/proc/{target_pid}/ns`
abbrev pub ns_path : Text → Text
ns_path target_pid = codes "/proc/" ++ (target_pid ++ codes "/ns")

module _ (P : Proc) where
  abbrev pair : Option ℕ → Option ℕ → Option (Option (ℕ × ℕ))
  pair (some uid) (some gid) = some (some (uid, gid))
  pair _ _ = none

  ids_of : Option ℕ → Option (Option (ℕ × ℕ))
  ids_of none = none
  ids_of (some pid) =
      pair (get_id_in_container (P.uid_map pid) 0) (get_id_in_container (P.gid_map pid) 0)

  -- The user and the group of the files to make; `none` is an error.
  unfoldable pub fs_uid_gid : Text → DeviceOwner → Option (Option (ℕ × ℕ))
  unfolding ids_of
  fs_uid_gid target_pid DeviceOwner.container_dev_folder =
      ids_of (parse_uint u32_max (trim target_pid))
  fs_uid_gid target_pid DeviceOwner.auto = some none
  fs_uid_gid target_pid DeviceOwner.by_vuinputd = some none

  -- A call whose result is not looked at.
  abbrev sys : SysCall → Step P.Kernel
  sys c = ignore (P.call c)

  unfoldable pub acquire_uid_and_gid : ℕ → ℕ → Step P.Kernel
  acquire_uid_and_gid target_uid target_gid =
      sys (setfsgid target_gid) then? sys (setfsuid target_uid)

  -- The owner of a path, where its metadata can be read.
  unfoldable pub acquire_uid_and_gid_of_path : Option (ℕ × ℕ) → Step P.Kernel
  unfolding acquire_uid_and_gid
  acquire_uid_and_gid_of_path none k = (k, failed)
  acquire_uid_and_gid_of_path (some (uid, gid)) k = acquire_uid_and_gid uid gid k

  enter_user : Bool → Step P.Kernel
  enter_user true k = (sys (setns user) then? sys (setresgid 0) then? sys (setresuid 0)) k
  enter_user false k = (k, fine)

  take_ids : Option (ℕ × ℕ) → Step P.Kernel
  unfolding acquire_uid_and_gid
  take_ids none k = (k, fine)
  take_ids (some (uid, gid)) k = acquire_uid_and_gid uid gid k

  -- The files of the namespaces are opened in this order.
  abbrev opens : Text → Bool
  opens path =
      if P.can_open (path ++ codes "/user")
      then (if P.can_open (path ++ codes "/net") then P.can_open (path ++ codes "/mnt") else false)
      else false

  abbrev enter_opened : Bool → Bool → Option (ℕ × ℕ) → Step P.Kernel
  enter_opened false enter_user_ns ids k = (k, failed)
  enter_opened true enter_user_ns ids k =
      (enter_user enter_user_ns then? sys (setns net) then? sys (setns mnt) then? take_ids ids) k

  abbrev enter_existing : Option Bool → Text → Bool → Option (ℕ × ℕ) → Step P.Kernel
  enter_existing none path enter_user_ns ids k = (k, panicked)
  enter_existing (some false) path enter_user_ns ids k = (k, failed)
  enter_existing (some true) path enter_user_ns ids k =
      enter_opened (opens path) enter_user_ns ids k

  abbrev enter_with : Option (Option (ℕ × ℕ)) → Text → Bool → Step P.Kernel
  enter_with none path enter_user_ns k = (k, failed)
  enter_with (some ids) path enter_user_ns k =
      enter_existing (P.exists path) path enter_user_ns ids k

  unfoldable pub run_in_net_and_mnt_namespace : Text → DeviceOwner → Bool → Step P.Kernel
  unfolding fs_uid_gid enter_user take_ids
  run_in_net_and_mnt_namespace target_pid device_owner enter_user_ns =
      enter_with (fs_uid_gid target_pid device_owner) (ns_path target_pid) enter_user_ns
