-- ===== src/Poll.antt =====
-- Readiness of one open device: `PollHandle` and `PollState` of vuinputd/src/cuse_device/state.rs,
-- with what vuinput_poll.rs, vuinput_read.rs and one event of the loop of evdev_write_watcher.rs
-- (all beside it) do to them under the mutex of the device.
pub mod Runs
pub mod Handles
pub mod Readiness
use vuinputd.Prelude.{
  ℕ, Bool, true, false, not, Option, none, some, List, [], ◌∷◌, ◌++◌, ◌==◌, length, is_some,
  if◌then◌else◌,
}
use vuinputd.Fuse.{
  Errno, FuseCall, reply_err, reply_buf, reply_poll, notify_poll, pollhandle_destroy, Outcome,
  panicked, returned,
}

pub data PollPhase : Type 0 where
  empty readable reading : PollPhase

pub record PollHandle : Type 0 where
  pub ptr : ℕ
  pub has_been_completed : Bool

new_poll_handle : ℕ → PollHandle
new_poll_handle ptr = record { ptr = ptr; has_been_completed = false }

notify : PollHandle → PollHandle × List FuseCall
notify h =
    if not h.has_been_completed
    then (record h { has_been_completed = true }, notify_poll h.ptr ∷ pollhandle_destroy h.ptr ∷ [])
    else (h, [])

-- `Drop for PollHandle`, which runs where a handle leaves its scope or is overwritten.
drop_poll_handle : PollHandle → List FuseCall
drop_poll_handle h = if not h.has_been_completed then pollhandle_destroy h.ptr ∷ [] else []

drop_pending : Option PollHandle → List FuseCall
unfolding drop_poll_handle
drop_pending none = []
drop_pending (some h) = drop_poll_handle h

pub record PollState : Type 0 where
  pub pollphase : PollPhase
  pub pending : Option PollHandle

unfoldable pub new_poll_state : PollState
new_poll_state = record { pollphase = empty; pending = none }

has_waiters : PollState → Bool
has_waiters s = not (is_some s.pending)

-- The assignment drops the handle that was pending.
set_waiter : PollState → ℕ → PollState × List FuseCall
unfolding new_poll_handle drop_pending
set_waiter s handle = (record s { pending = some (new_poll_handle handle) }, drop_pending s.pending)

take_waiters : PollState → PollState × Option PollHandle
take_waiters s = (record s { pending = none }, s.pending)

-- `if let Some(mut h) = … { h.notify(); }`: the handle is notified and then dropped.
notify_and_drop : Option PollHandle → List FuseCall
unfolding notify drop_poll_handle
notify_and_drop none = []
notify_and_drop (some h) = let (h', calls) = notify h in calls ++ drop_poll_handle h'

-- `Drop for PollState`. The fields are dropped after its body.
unfoldable pub drop_poll_state : PollState → List FuseCall
unfolding take_waiters notify_and_drop drop_pending
drop_poll_state s =
    let (s', old_handle) = take_waiters s in notify_and_drop old_handle ++ drop_pending s'.pending

pollin : ℕ
pollin = 1

-- What `vuinput_poll` does with a handle when the device has data.
answer_ready : Option ℕ → List FuseCall
unfolding pollin
answer_ready none = reply_poll pollin ∷ []
answer_ready (some ph) = notify_poll ph ∷ pollhandle_destroy ph ∷ reply_poll pollin ∷ []

answer_empty : Option ℕ → PollState → PollState × List FuseCall
unfolding set_waiter
answer_empty none s = (s, reply_poll 0 ∷ [])
answer_empty (some ph) s = let (s', calls) = set_waiter s ph in (s', calls ++ (reply_poll 0 ∷ []))

answer : PollPhase → Option ℕ → PollState → PollState × List FuseCall
unfolding answer_ready answer_empty
answer empty ph s = answer_empty ph s
answer readable ph s = (s, answer_ready ph)
answer reading ph s = (s, answer_ready ph)

-- The body of `vuinput_poll`; `none` is the null handle.
unfoldable pub vuinput_poll : Option ℕ → PollState → PollState × List FuseCall
unfolding answer
vuinput_poll ph s = answer s.pollphase ph s

-- What `file.read(&mut buffer)` returns: the bytes read, `WouldBlock`, or another error.
pub data ReadResult : Type 0 where
  bytes_read : List ℕ → ReadResult
  would_block : ReadResult
  failed : ReadResult

-- The `match` on the result; the buffer has room for one event of 24 bytes.
after_read : ReadResult → Bool → PollState → PollState × List FuseCall
after_read (bytes_read buffer) is_compat s =
    if length buffer == 24
    then if not is_compat then (s, reply_buf buffer ∷ []) else (s, reply_err Errno.eio ∷ [])
    else (s, reply_err Errno.eio ∷ [])
after_read would_block is_compat s = (record s { pollphase = empty }, reply_err Errno.eagain ∷ [])
after_read failed is_compat s = (s, reply_err Errno.eio ∷ [])

-- `vuinput_read` on the state of the device. The result of the read is the kernel's.
unfoldable pub vuinput_read :
    ℕ → Bool → ReadResult → PollState → Outcome (PollState × List FuseCall)
unfolding after_read
vuinput_read off is_compat result s =
    if off == 0
    then returned (after_read result is_compat (record s { pollphase = reading }))
    else panicked

-- One event of the device in the loop of `evdev_write_watch_loop`.
unfoldable pub watch_event : PollState → PollState × List FuseCall
unfolding take_waiters notify_and_drop
watch_event s =
    let (s', handle) = take_waiters s in
    (record s' { pollphase = readable }, notify_and_drop handle)
