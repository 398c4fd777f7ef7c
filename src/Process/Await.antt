-- ===== src/Process/Await.antt =====
-- The wait for a child process: `await_process` (vuinputd/src/process_tools/mod.rs). The calls of the
-- kernel and of the executor are parameters.
use vuinputd.Prelude.{ℕ, Bool, Option, none, some, if◌then◌else◌}

-- `pidfd_open`, the registration of the descriptor, the wait until it is readable, and `waitid`, which
-- gives the status of the child that ended; `none` and `false` are errors.
pub record Waits : Type 0 where
  pub pidfd_open : ℕ → Option ℕ
  pub register : ℕ → Bool
  pub readable : ℕ → Bool
  pub waitid : ℕ → Option ℕ

abbrev await_readable : Waits → ℕ → Option ℕ → Option ℕ
await_readable W pid none = none
await_readable W pid (some pidfd) =
    if W.register pidfd then (if W.readable pidfd then W.waitid pid else none) else none

-- The status of the child, or an error.
unfoldable pub await_process : Waits → ℕ → Option ℕ
await_process W pid = await_readable W pid (W.pidfd_open pid)
