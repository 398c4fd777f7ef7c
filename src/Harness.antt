-- ===== src/Harness.antt =====
-- What the integration tests run around the client: the sandboxes (vuinputd-tests/src/bwrap.rs,
-- podman.rs) with their channel (ipc.rs), and the daemon (run_vuinputd.rs). The programs that are
-- started are not modelled.
pub mod Bwrap
pub mod Podman
pub mod Guard
pub mod Ipc
use vuinputd.Prelude.{
  ℕ, ◌≡◌, ◌≢◌, refl, Bool, true, false, Option, none, some, List, [], ◌∷◌, ◌++◌, ◌==◌, take, leb,
  length, if◌then◌else◌, arith,
}
use vuinputd.Prelude.Text.{Text, codes}

-- A builder of a command line: its words, and the child's end of the channel.
pub record Builder : Type 0 where
  pub args : List Text
  pub ipc_child_fd : Option ℕ

abbrev pub new_builder : Builder
new_builder = record { args = []; ipc_child_fd = none }

abbrev pub push : List Text → Builder → Builder
push words b = record b { args = b.args ++ words }

-- A program with its words, and the descriptor that is moved before it runs.
pub record Spawn : Type 0 where
  pub program : Text
  pub words : List Text
  pub moved : Option ℕ

-- What a descriptor refers to, where it is open.
abbrev pub Descriptors : Type 0
Descriptors = ℕ → Option ℕ

-- `SandboxChildIpc::FD`
abbrev pub child_fd : ℕ
child_fd = 3

abbrev dup2 : ℕ → ℕ → Descriptors → Descriptors
dup2 fd to table n = if n == to then table fd else table n

abbrev close : ℕ → Descriptors → Descriptors
close fd table n = if n == fd then none else table n

-- The closure that runs in the child: the error of a descriptor that is not open, or the descriptors.
unfoldable pub pre_exec : ℕ → Descriptors → Option Descriptors
pre_exec fd table = elim (table fd) [
  | none ↦ none
  | some file ↦ some (close fd (dup2 fd child_fd table))
]

-- The descriptors of the child once the program runs.
unfoldable pub child_descriptors : Spawn → Descriptors → Option Descriptors
unfolding pre_exec
child_descriptors s table = elim s.moved [ none ↦ some table | some fd ↦ pre_exec fd table ]

-- The channel is found at the descriptor 3, and no longer at its own.
moved_to_three :
    (fd file : ℕ) (table : Descriptors)
    → fd ≢ 3
    → table fd ≡ some file
    → (after : Descriptors) × (pre_exec fd table ≡ some after)
      × (after 3 ≡ some file)
      × (after fd ≡ none)
unfolding pre_exec
moved_to_three fd file table h e =
    (close fd (dup2 fd child_fd table), rw (e, pre_exec) refl, ground arith, ground arith)
