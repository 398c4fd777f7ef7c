-- ===== src/Process.antt =====
-- The requesting process and its namespaces (vuinputd/src/process_tools/mod.rs).
pub mod Ancestry
pub mod Await
pub mod Enter
pub mod Equal
pub mod IdMap
pub mod Links
use vuinputd.Prelude.{ℕ, Bool, true, false, ◌&&◌, Option, none, some, ◌==◌}

-- The inode of each namespace, where it could be read.
pub record Namespaces : Type 0 where
  pub net : Option ℕ
  pub uts : Option ℕ
  pub ipc : Option ℕ
  pub pid : Option ℕ
  pub pid_for_children : Option ℕ
  pub user : Option ℕ
  pub mnt : Option ℕ
  pub cgroup : Option ℕ
  pub time : Option ℕ
  pub time_for_children : Option ℕ

pub record RequestingProcess : Type 0 where
  pub pid_requestor : ℕ
  pub pid_requestor_root : ℕ
  pub namespaces : Namespaces
  pub is_compat : Bool

-- `==` of `Option<u64>`.
abbrev pub inode_eq : Option ℕ → Option ℕ → Bool
inode_eq none none = true
inode_eq (some a) (some b) = a == b
inode_eq _ _ = false

unfoldable pub equal_mnt_and_net : Namespaces → Namespaces → Bool
equal_mnt_and_net self other = inode_eq self.mnt other.mnt && inode_eq self.net other.net
