-- ===== src/Harness/Ipc.antt =====
-- The channel between a test and its sandbox (vuinputd-tests/src/ipc.rs), and the program of the
-- sandbox that answers on it (vuinputd-tests/src/bin/test-ipc.rs). The socket is a parameter.
use vuinputd.Prelude.{ℕ, Bool, true, false, Option, none, some, List, if◌then◌else◌}
use vuinputd.Prelude.Text.{codes, text_beq}
use vuinputd.Client.{Result, ok, failed, panicked, Io, ◌>>=◌, ◌>>◌, unwrap}
use vuinputd.Harness.{child_fd}

-- The calls on a socket; `false` and `none` are errors. A timeout is in seconds, and `recv` takes the
-- size of the buffer and gives the bytes that were put into it.
pub record Socket : Type 1 where
  pub Kernel : Type 0
  pub set_read_timeout : ℕ → Option ℕ → Kernel → Kernel × Bool
  pub recv : ℕ → ℕ → Kernel → Kernel × Option (List ℕ)
  pub send : ℕ → List ℕ → Kernel → Kernel × Bool
  pub is_utf8 : List ℕ → Bool

abbrev done_if : Bool → Result (Unit {0})
done_if true = ok tt
done_if false = failed

abbrev received : Option (List ℕ) → Result (List ℕ)
received none = failed
received (some bytes) = ok bytes

-- `….expect(…)` of a test.
abbrev asserted : {K : Type 0} → Bool → Io K (Unit {0})
asserted true k = (k, ok tt)
asserted false k = (k, panicked)

module _ (S : Socket) where
  abbrev with_timeout : ℕ → Option ℕ → Io S.Kernel (Unit {0})
  with_timeout sock read_timeout k =
      let (k', done) = S.set_read_timeout sock read_timeout k in (k', done_if done)

  abbrev receive : ℕ → ℕ → Io S.Kernel (List ℕ)
  receive sock size k = let (k', bytes) = S.recv sock size k in (k', received bytes)

  -- The `recv` of both ends, with a buffer of 4096 bytes that is cut to what was received.
  unfoldable pub recv : ℕ → Option ℕ → Io S.Kernel (List ℕ)
  recv sock read_timeout = with_timeout sock read_timeout >> receive sock 4096

  -- The `send` of both ends; how much was sent is not looked at.
  unfoldable pub send : ℕ → List ℕ → Io S.Kernel (Unit {0})
  send sock data_ k = let (k', done) = S.send sock data_ k in (k', done_if done)

  -- The answer to a message.
  answer : ℕ → List ℕ → Io S.Kernel (Unit {0})
  unfolding send text_beq
  answer ipc incoming =
      if text_beq incoming (codes "continue")
      then unwrap (send ipc (codes "ok"))
      else unwrap (send ipc (codes "nok")) >> asserted false

  -- `main` of test-ipc.rs, on the descriptor of `SandboxChildIpc::from_fd`.
  unfoldable pub test_ipc : Io S.Kernel (Unit {0})
  unfolding recv answer
  test_ipc = do
    incoming ← unwrap (recv child_fd (some 5))
    asserted (S.is_utf8 incoming)
    answer child_fd incoming
