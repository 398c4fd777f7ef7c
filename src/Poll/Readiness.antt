-- ===== src/Poll/Readiness.antt =====
-- What a poll answers, and that no wakeup is lost (vuinputd/src/cuse_device/vuinput_poll.rs,
-- vuinput_read.rs, evdev_write_watcher.rs, state.rs).
use vuinputd.Prelude.{
  ℕ, ◌≡◌, refl, ◌∙◌, ap, Bool, true, false, Option, none, some, List, [], ◌∷◌, arith, if◌then◌else◌,
}
use vuinputd.Fuse.{FuseCall, reply_poll}
use vuinputd.Poll.{
  PollPhase, PollState, ReadResult, would_block, vuinput_poll, vuinput_read, watch_event,
  new_poll_state,
}
use vuinputd.Poll.Runs.{PollOp, poll, read, watch, step, run}
use vuinputd.Poll.Handles.{IsOpen, run-IsOpen}

-- The device counts as drained from the opening, and from a read that would block, until the
-- watcher sees data or another read is made. Polls change nothing.
abbrev pub drained_from : Bool → List PollOp → Bool
drained_from d [] = d
drained_from d (poll ph ∷ ops) = drained_from d ops
drained_from d (read is_compat ReadResult.would_block ∷ ops) = drained_from true ops
drained_from d (read is_compat _ ∷ ops) = drained_from false ops
drained_from d (watch ∷ ops) = drained_from false ops

abbrev is_empty : PollPhase → Bool
is_empty PollPhase.empty = true
is_empty _ = false

-- The events by which a poll is answered.
abbrev pub answers : List FuseCall → List ℕ
answers [] = []
answers (reply_poll events ∷ calls) = events ∷ answers calls
answers (_ ∷ calls) = answers calls

vuinput_poll-is_empty :
    (ph : Option ℕ) (s : PollState)
    → is_empty (vuinput_poll ph s).0.pollphase ≡ is_empty s.pollphase
unfolding vuinput_poll
vuinput_poll-is_empty ph s = ground arith

run-drained :
    (s : PollState) (ops : List PollOp)
    → is_empty (run s ops).0.pollphase ≡ drained_from (is_empty s.pollphase) ops
unfolding run step vuinput_read watch_event
run-drained s [] = refl
run-drained s (poll ph ∷ ops) =
    run-drained (vuinput_poll ph s).0 ops
    ∙ ap (λ d. drained_from d ops) (vuinput_poll-is_empty ph s)
run-drained s (read c (ReadResult.bytes_read b) ∷ ops) =
    run-drained _ ops ∙ ap (λ d. drained_from d ops) (ground arith)
run-drained s (read c would_block ∷ ops) = run-drained _ ops
run-drained s (read c ReadResult.failed ∷ ops) = run-drained _ ops
run-drained s (watch ∷ ops) = run-drained _ ops

vuinput_poll-answers :
    (ph : Option ℕ) (s : PollState)
    → IsOpen s.pending
    → answers (vuinput_poll ph s).1 ≡ (if is_empty s.pollphase then 0 else 1) ∷ []
unfolding vuinput_poll
vuinput_poll-answers ph s h = ground arith

-- After any sequence of polls, reads and watcher events on a newly opened device, a poll is answered
-- once: with no event if the device was drained since (by its opening or a read that would block) and
-- with POLLIN if not.
pub poll_answer :
    (ops : List PollOp) (ph : Option ℕ)
    → answers (vuinput_poll ph (run new_poll_state ops).0).1
      ≡ (if drained_from true ops then 0 else 1) ∷ []
unfolding new_poll_state
poll_answer ops ph =
    vuinput_poll-answers ph _ (run-IsOpen new_poll_state ops tt)
    ∙ ap (λ (d : Bool). (if d then 0 else 1) ∷ []) (run-drained new_poll_state ops)

abbrev pub NoWatch : List PollOp → Type 0
NoWatch [] = Unit {0}
NoWatch (watch ∷ ops) = ⊥
NoWatch (_ ∷ ops) = NoWatch ops

-- The handle that waits after polls and reads, from one that waits: the last that came while the
-- device was drained.
abbrev pub last_waiting : Bool → ℕ → List PollOp → ℕ
last_waiting d q [] = q
last_waiting d q (poll none ∷ ops) = last_waiting d q ops
last_waiting d q (poll (some ph) ∷ ops) = last_waiting d (if d then ph else q) ops
last_waiting d q (read is_compat ReadResult.would_block ∷ ops) = last_waiting true q ops
last_waiting d q (read is_compat _ ∷ ops) = last_waiting false q ops
last_waiting d q (watch ∷ ops) = last_waiting false q ops

abbrev Waits : ℕ → PollState → Type 0
Waits q s = s.pending ≡ some (record { ptr = q; has_been_completed = false })
