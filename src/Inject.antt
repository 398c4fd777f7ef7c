-- ===== src/Inject.antt =====
-- Placing a device: the actions that a child process carries out in the namespaces of the container,
-- and the calls on the file system that the placement makes (vuinputd/src/input_realizer,
-- vuinputd/src/actions, vuinputd/src/container_runtime).
pub mod Nodes
pub mod RuntimeData
pub mod Netlink
pub mod Actions
pub mod Strategy
pub mod HostFs
use vuinputd.Prelude.{ℕ, Bool, true, false, Option, List}
use vuinputd.Prelude.Dict.{Dict}
use vuinputd.Prelude.Text.{Text}

-- How a function that returns `Result<(), _>` ends.
pub data Ended : Type 0 where
  fine failed panicked : Ended

-- What `stat` shows: whether the file is a character device, its device number, and its permissions.
pub record Stat : Type 0 where
  pub is_char : Bool
  pub st_rdev : ℕ
  pub perms : ℕ

pub data Action : Type 0 where
  mknod_device : Text → ℕ → ℕ → Action
  write_udev_runtime_data : Option Text → ℕ → ℕ → Action
  emit_netlink_message : Dict Text Text → Action
  remove_device : Text → ℕ → ℕ → Action

-- The system around the program: its state, and what the calls do to it. A call that fails gives
-- `false`, and `stat` of a file that does not exist gives `none`.
pub record System : Type 1 where
  pub World : Type 0
  pub exists : Text → World → Bool
  pub stat : Text → World → Option Stat
  pub create_dir_all : Text → World → World × Bool
  pub create : Text → World → World × Bool
  pub write_all : Text → Text → World → World × Bool
  pub remove_file : Text → World → World × Bool
  pub mknod : Text → ℕ → ℕ → World → World × Bool
  pub set_permissions : Text → ℕ → World → World × Bool
  -- A netlink socket that is opened and bound, which can fail, and the sending of one message, whose
  -- failure is dropped.
  pub send_netlink : ℕ → List ℕ → World → World × Bool
  -- A child process that enters the namespaces of a process, its user namespace too or not, and the
  -- wait for its end.
  pub start_action : Action → ℕ → Bool → World → World × Option ℕ
  pub await_process : ℕ → World → World × Bool
  -- `/usr/bin/incus` with its arguments.
  pub incus : List Text → World → World × Bool

-- A step of a function that returns `Result<(), _>`.
abbrev pub Step : Type 0 → Type 0
Step W = W → W × Ended

abbrev pub ended_of : Bool → Ended
ended_of true = fine
ended_of false = failed

abbrev pub go_on : {W : Type 0} → W × Ended → Step W → W × Ended
go_on (w, fine) n = n w
go_on (w, failed) n = (w, failed)
go_on (w, panicked) n = (w, panicked)

-- `m?; n`
infixl 5 ◌then?◌
abbrev pub ◌then?◌ : {W : Type 0} → Step W → Step W → Step W
(m then? n) w = go_on (m w) n

abbrev pub panic_on : Ended → Ended
panic_on fine = fine
panic_on _ = panicked

-- `m.unwrap()`, `m.expect(…)`
abbrev pub unwrap : {W : Type 0} → Step W → Step W
unwrap m w = let (w', e) = m w in (w', panic_on e)

-- A call whose failure the program passes on.
abbrev pub attempt : {W : Type 0} → (W → W × Bool) → Step W
attempt call w = let (w', ok) = call w in (w', ended_of ok)

-- A call whose failure the program drops.
abbrev pub ignore : {W : Type 0} → (W → W × Bool) → Step W
ignore call w = ((call w).0, fine)
