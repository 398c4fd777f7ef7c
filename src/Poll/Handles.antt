-- ===== src/Poll/Handles.antt =====
-- Every poll handle is given back to libfuse exactly once, and none is used afterwards
-- (vuinputd/src/cuse_device/state.rs, vuinput_poll.rs, evdev_write_watcher.rs).
use vuinputd.Prelude.{
  ℕ, suc, ◌-◌, ◌≡◌, refl, ◌∙◌, false, Option, none, some, List, [], ◌∷◌, ◌++◌, ◌==◌, arith,
  if◌then◌else◌,
}
use vuinputd.Fuse.{notify_poll, pollhandle_destroy}
use vuinputd.Poll.{PollState, PollHandle, vuinput_poll, vuinput_read, watch_event}
use vuinputd.Poll.{drop_poll_state, new_poll_state}
use vuinputd.Poll.Runs.{PollOp, poll, read, watch, Trace, arrived, called, step, run, close}

-- How often the handle `ph` is live after one entry of a trace, from `n` times before it. `none`:
-- the entry notifies or destroys the handle while it is not live.
abbrev pub live_step : ℕ → Trace → ℕ → Option ℕ
live_step ph (arrived q) n = some (if q == ph then suc n else n)
live_step ph (called (notify_poll q)) n =
    if q == ph then if n == 0 then none else some n else some n
live_step ph (called (pollhandle_destroy q)) n =
    if q == ph then if n == 0 then none else some (n - 1) else some n
live_step ph (called c) n = some n

abbrev pub live : ℕ → List Trace → ℕ → Option ℕ
live ph [] n = some n
live ph (t ∷ ts) n = elim (live_step ph t n) [ none ↦ none | some m ↦ live ph ts m ]

-- How often `ph` waits in the state.
abbrev pub waiting : ℕ → Option PollHandle → ℕ
waiting ph none = 0
waiting ph (some h) = if h.ptr == ph then 1 else 0

-- A handle that waits has not been completed.
abbrev pub IsOpen : Option PollHandle → Type 0
IsOpen none = Unit {0}
IsOpen (some h) = h.has_been_completed ≡ false

live-append :
    (ph n : ℕ) (a b : List Trace) {m : ℕ} → live ph a n ≡ some m → live ph (a ++ b) n ≡ live ph b m
live-append ph n [] b h = ground arith
live-append ph n (t ∷ a) b {m} h = go (live_step ph t n) (λ k e. live-append ph k a b e) h
  where
    go :
        (o : Option ℕ)
        → ((k : ℕ) → live ph a k ≡ some m → live ph (a ++ b) k ≡ live ph b m)
        → (elim o [ none ↦ none | some k ↦ live ph a k ]) ≡ some m
        → (elim o [ none ↦ none | some k ↦ live ph (a ++ b) k ]) ≡ live ph b m
    go none ih h = cc
    go (some k) ih h = ih k h

step-live :
    (ph : ℕ) (s : PollState) (op : PollOp)
    → IsOpen s.pending
    → (live ph (step s op).1 (waiting ph s.pending) ≡ some (waiting ph (step s op).0.pending))
      × IsOpen (step s op).0.pending
unfolding step vuinput_poll vuinput_read watch_event
step-live ph s (poll p) h = ground arith
step-live ph s (read c r) h = ground arith
step-live ph s watch h = ground arith

run-live :
    (ph : ℕ) (s : PollState) (ops : List PollOp)
    → IsOpen s.pending
    → (live ph (run s ops).1 (waiting ph s.pending) ≡ some (waiting ph (run s ops).0.pending))
      × IsOpen (run s ops).0.pending
unfolding run
run-live ph s [] h = (refl, h)
run-live ph s (op ∷ ops) h =
    let (now, is_open) = step-live ph s op h in
    let (later, is_open') = run-live ph (step s op).0 ops is_open in
    (live-append ph _ (step s op).1 (run (step s op).0 ops).1 now ∙ later, is_open')

pub run-IsOpen :
    (s : PollState) (ops : List PollOp) → IsOpen s.pending → IsOpen (run s ops).0.pending
run-IsOpen s ops h = (run-live 0 s ops h).1

close-live :
    (ph : ℕ) (s : PollState) → IsOpen s.pending → live ph (close s) (waiting ph s.pending) ≡ some 0
unfolding close drop_poll_state
close-live ph s h = ground arith

-- Over the whole life of an open device, from its opening through any sequence of polls, reads and
-- watcher events to its closing: every handle that libfuse hands over is destroyed as often as it
-- arrived, so at the end it is live no more, and it is never notified or destroyed while it is not
-- live.
pub handles_released :
    (ops : List PollOp) (ph : ℕ)
    → let (s, trace) = run new_poll_state ops in live ph (trace ++ close s) 0 ≡ some 0
unfolding new_poll_state
handles_released ops ph =
    let (now, is_open) = run-live ph new_poll_state ops tt in
    live-append ph 0 (run new_poll_state ops).1 _ now ∙ close-live ph _ is_open
