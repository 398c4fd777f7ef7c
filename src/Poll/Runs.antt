-- ===== src/Poll/Runs.antt =====
-- Sequences of operations on one open device, from vuinput_open to vuinput_release, with the poll
-- handles that arrive and the calls made, in order (vuinputd/src/cuse_device/state.rs).
use vuinputd.Prelude.{ℕ, Bool, Option, none, some, List, [], ◌∷◌, ◌++◌, map}
use vuinputd.Fuse.{FuseCall, Outcome, panicked, returned}
use vuinputd.Poll.{PollState, ReadResult, vuinput_poll, vuinput_read, watch_event, drop_poll_state}

pub data PollOp : Type 0 where
  poll : Option ℕ → PollOp
  read : Bool → ReadResult → PollOp
  watch : PollOp

-- A poll handle is handed over by libfuse, or a call is made.
pub data Trace : Type 0 where
  arrived : ℕ → Trace
  called : FuseCall → Trace

arrival : Option ℕ → List Trace
arrival none = []
arrival (some ph) = arrived ph ∷ []

calls_of : List FuseCall → List Trace
calls_of = map called

perform_read : Outcome (PollState × List FuseCall) → PollState → PollState × List Trace
unfolding calls_of
perform_read panicked s = (s, [])
perform_read (returned (s', calls)) s = (s', calls_of calls)

-- A read at offset 0, as the kernel makes it on a character device.
unfoldable pub step : PollState → PollOp → PollState × List Trace
unfolding arrival calls_of perform_read
step s (poll ph) = let (s', calls) = vuinput_poll ph s in (s', arrival ph ++ calls_of calls)
step s (read is_compat result) = perform_read (vuinput_read 0 is_compat result s) s
step s watch = let (s', calls) = watch_event s in (s', calls_of calls)

unfoldable pub run : PollState → List PollOp → PollState × List Trace
run s [] = (s, [])
run s (op ∷ ops) = let (s', now) = step s op in let (s'', later) = run s' ops in (s'', now ++ later)

-- The device is closed: its state is dropped.
unfoldable pub close : PollState → List Trace
unfolding calls_of
close s = calls_of (drop_poll_state s)
