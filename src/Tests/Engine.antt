-- ===== src/Tests/Engine.antt =====
-- The ends of the threads: a handler that waits, the dispatcher and the watcher.
use vuinputd.Prelude.{
  ℕ, ◌≡◌, ◌↔◌, refl, sym, ◌∙◌, ◌≢◌, Option, true, false, none, some, List, [], ◌∷◌,
}
use vuinputd.Prelude.Dict
use vuinputd.Prelude.Dict.{nat_eq}
use vuinputd.Prelude.Text.{codes}
use vuinputd.Fuse
use vuinputd.Fuse.{Outcome, returned}
use vuinputd.Inject.{fine}
use vuinputd.Inject.Strategy.{netlink_only}
use vuinputd.Jobs.Emit.{initialized, started, finished}
use vuinputd.Jobs.Remove.{never_announced, mknod_device}
use vuinputd.Jobs.Awaiter.{set_state, spurious, awaiter}
use vuinputd.Jobs.Awaiter.Bodies.{mknod_body, remove_body, handler_waits}
use vuinputd.Jobs.Dispatcher
use vuinputd.Jobs.Dispatcher.{Job, TargetLoop, container, target_eq}
use vuinputd.Jobs.Engine.{
  Engine, Event, thread_started, handle_kept, dispatched, routed, ran, dispatcher_loop, loop_of,
  new_engine, close, event,
}
use vuinputd.Jobs.Engine.Shutdown.{events}
use vuinputd.Tests.Fixtures.{requestor}
use vuinputd.Inject.{Ended, panicked, Stat}
use vuinputd.Inject.Nodes.{ensure_input_device}
use vuinputd.Inject.Strategy.{on_host, host_path}
use vuinputd.Jobs.Awaiter.Threads.{
  Threads, waiting, replied, queued, ended, begin, Reach, here, next, dispatch, run, set_finished,
  reply, CanEnd,
}
use vuinputd.Jobs.Awaiter.Placed.{body, node, create_placed}
use vuinputd.Tests.Hosts.{one_file, one_file-IsFileSystem, right_node}

handler_waits_example :
    ((awaiter finished initialized (spurious ∷ set_state finished ∷ []) ≡ true) ↔ (
      (mknod_body one_file
        (netlink_only one_file)
        (requestor false)
        (codes "event9")
        13
        73
        (none, [])).1
      ≡ fine))
    × ((awaiter finished initialized (set_state started ∷ spurious ∷ set_state finished ∷ [])
          ≡ true)
        ↔ ((remove_body one_file
              (netlink_only one_file)
              (requestor false)
              (codes "event9")
              13
              73
              never_announced
              (none, [])).1
            ≡ fine))
unfolding mknod_body remove_body netlink_only
handler_waits_example =
    handler_waits one_file (netlink_only one_file) (requestor false) (codes "event9") 13 73
      never_announced none (spurious ∷ set_state finished ∷ [])
      (set_state started ∷ spurious ∷ set_state finished ∷ []) refl refl

-- The node is made, the state is set, and the handler replies.
abbrev at_reply : Threads (Option Stat)
at_reply = record { handler = replied; job = ended fine; sync_state = finished; world = right_node }

abbrev making : Option Stat → Option Stat × Ended
making = body one_file (codes "vuinput") (codes "event9") (requestor false) 13 73

abbrev Undisturbed : Option Stat → Option Stat → Type 0
Undisturbed w w' = w ≡ w'

to_reply : Reach making Undisturbed (begin none) at_reply
unfolding mknod_device on_host ensure_input_device
to_reply =
    let t₀ : Threads (Option Stat) = begin none in
    let t₁ : Threads (Option Stat) = record t₀ { handler = waiting; job = queued } in
    let t₂ : Threads (Option Stat) = record t₁ { job = ended fine; world = right_node } in
    let t₃ : Threads (Option Stat) = record t₂ { sync_state = finished } in
    next
      (next (next (next here (dispatch t₀ refl)) (run t₁ right_node fine refl refl))
        (set_finished t₂ refl))
      (reply t₃ refl refl)

create_placed_example :
    (at_reply.handler ≡ replied
      → one_file.stat (host_path (codes "vuinput") (codes "event9")) at_reply.world
        ≡ some (node 13 73))
    × (at_reply.job ≡ ended panicked
        → (u : Threads (Option Stat)) → Reach making Undisturbed at_reply u
        → u.handler ≢ replied)
    × (at_reply.handler ≡ waiting
        → CanEnd making Undisturbed at_reply
        → (u : Threads (Option Stat)) × Reach making Undisturbed at_reply u × (u.handler ≡ replied))
create_placed_example =
    create_placed one_file (codes "vuinput") (codes "event9") (requestor false) 13 73 Undisturbed
      none (one_file-IsFileSystem (host_path (codes "vuinput") (codes "event9")))
      (λ w w' o h. sym o ∙ h) to_reply

abbrev job : ℕ → ℕ → Job ℕ ℕ
job process task = record { job_target = container process; task = task }

abbrev before : List (Event ℕ ℕ)
before =
    dispatched (job 1 5)
    ∷ dispatched (job 1 6)
    ∷ thread_started
    ∷ handle_kept
    ∷ routed
    ∷ handle_kept
    ∷ []

abbrev later : List (Event ℕ ℕ)
later = routed ∷ ran (container 1) ∷ []

-- A job in the queue of its target, and one that the loop of the dispatcher has not seen.
abbrev two_jobs : Dispatcher.Dispatcher ℕ ℕ
two_jobs = record {
  channel = job 1 6 ∷ [];
  targets = (container 1, record { taken = []; waiting = job 1 5 ∷ [] }) ∷ [];
  background = [];
}

abbrev running : Engine ℕ ℕ
running = record {
  queues = two_jobs;
  tx = true;
  alive =
      record { id = 0; loop = dispatcher_loop }
      ∷ record { id = 1; loop = loop_of (container 1) }
      ∷ [];
  future_handles = 0 ∷ 1 ∷ [];
  unkept = [];
  started = true;
  next_id = 2;
}

abbrev closed : Engine ℕ ℕ
closed = record running { tx = false; alive = []; future_handles = [] }

-- A dispatcher that is closed before its thread has begun still runs what was dispatched.
abbrev early : Engine ℕ ℕ
early = close (record new_engine {
  queues = record { channel = job 1 5 ∷ []; targets = []; background = [] };
})

abbrev late : List (Event ℕ ℕ)
late = thread_started ∷ handle_kept ∷ routed ∷ handle_kept ∷ ran (container 1) ∷ []

abbrev taken_by : Option (TargetLoop ℕ ℕ) → List (Job ℕ ℕ)
taken_by none = []
taken_by (some l) = l.taken

-- The jobs that the loop for process 1 has taken.
abbrev late_runs : Outcome (Engine ℕ ℕ) → List (Job ℕ ℕ)
late_runs Fuse.panicked = []
late_runs (returned e) = taken_by (Dict.get (container 1) e.queues.targets)

closed_early : late_runs (events late early) ≡ job 1 5 ∷ []
unfolding event close new_engine Dispatcher.dispatch Dispatcher.spawn_dispatcher_loop
    Dispatcher.job_target_loop Dict.get Dict.insert
closed_early = refl
