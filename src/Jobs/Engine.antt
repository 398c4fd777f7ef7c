-- ===== src/Jobs/Engine.antt =====
-- The life of the dispatcher's thread (vuinputd/src/job_engine/job.rs): the loops that are spawned on
-- its pool, the handles that are kept of them, and `close` and `wait_until_finished`, which drop the
-- handles and so cancel the loops. The thread starts at some time after `Dispatcher::new`, and it keeps
-- the handle of a loop some time after it has spawned it; the owner may act in between.
pub mod Shutdown
pub mod Order
use vuinputd.Prelude.{
  ℕ, ◌+◌, Bool, true, false, not, ◌||◌, ◌&&◌, Option, none, some, is_none, List, [], ◌∷◌, ◌++◌,
  ◌==◌, if◌then◌else◌,
}
use vuinputd.Prelude.Dict
use vuinputd.Prelude.Dict.{Dict, Eq}
use vuinputd.Fuse.{Outcome, panicked, returned}
use vuinputd.Jobs.Dispatcher
use vuinputd.Jobs.Dispatcher.{
  Job, JobTarget, background_loop, TargetLoop, Dispatcher, new_dispatcher, target_beq, target_eq,
  dispatch, get_or_spawn_target_loop, spawn_dispatcher_loop, job_target_loop,
}

-- The tasks of the pool.
pub data Loop (P : Type 0) : Type 0 where
  dispatcher_loop : Loop P
  loop_of : JobTarget P → Loop P
  background : Loop P

-- A task with its number; a handle is known by the number of its task.
pub record Task (P : Type 0) : Type 0 where
  pub id : ℕ
  pub loop : Loop P

pub record Engine (P A : Type 0) : Type 0 where
  pub queues : Dispatcher P A
  -- Whether the sending half of the channel is still held.
  pub tx : Bool
  pub alive : List (Task P)
  pub future_handles : List ℕ
  -- The handle of a loop that has just been spawned, until it is in `future_handles`.
  pub unkept : List ℕ
  -- Whether the thread has begun.
  pub started : Bool
  pub next_id : ℕ

-- What can happen. A loop makes its next step where it is alive; a background loop may end. All loops
-- are on one thread, which goes on once it has kept the handle of a loop that it has spawned.
pub data Event (P A : Type 0) : Type 0 where
  thread_started : Event P A
  handle_kept : Event P A
  dispatched : Job P A → Event P A
  routed : Event P A
  ran : JobTarget P → Event P A
  background_ended : ℕ → Event P A

abbrev pub is_nil : List ℕ → Bool
is_nil [] = true
is_nil (n ∷ ns) = false

abbrev pub has_id : ℕ → List ℕ → Bool
has_id n [] = false
has_id n (i ∷ is) = i == n || has_id n is

-- A dropped handle cancels its task.
abbrev pub cancel : {P : Type 0} → List ℕ → List (Task P) → List (Task P)
cancel dropped [] = []
cancel dropped (t ∷ ts) =
    let rest = cancel dropped ts in if has_id t.id dropped then rest else t ∷ rest

module _ {P : Type 0} ⦃eq : Eq P⦄ where
  abbrev loop_beq : Loop P → Loop P → Bool
  loop_beq dispatcher_loop dispatcher_loop = true
  loop_beq (loop_of s) (loop_of t) = target_beq eq.beq s t
  loop_beq background background = true
  loop_beq _ _ = false

  abbrev pub is_alive : Loop P → List (Task P) → Bool
  is_alive l [] = false
  is_alive l (t ∷ ts) = loop_beq t.loop l || is_alive l ts

  -- A loop that returns leaves the pool.
  abbrev end_loop : Loop P → List (Task P) → List (Task P)
  end_loop l [] = []
  end_loop l (t ∷ ts) = let rest = end_loop l ts in if loop_beq t.loop l then rest else t ∷ rest

  abbrev end_background : ℕ → List (Task P) → List (Task P)
  end_background n [] = []
  end_background n (t ∷ ts) =
      let rest = end_background n ts in
      if t.id == n then (if loop_beq t.loop background then rest else t ∷ rest) else t ∷ rest

module _ {P A : Type 0} ⦃eq : Eq P⦄ where
  spawn : Loop P → Engine P A → Engine P A
  spawn l e = record e {
    alive = e.alive ++ (record { id = e.next_id; loop = l } ∷ []);
    unkept = e.unkept ++ (e.next_id ∷ []);
    next_id = e.next_id + 1;
  }

  -- `Dispatcher::new`: the thread is created, and has not begun.
  unfoldable pub new_engine : Engine P A
  unfolding new_dispatcher
  new_engine = record {
    queues = new_dispatcher;
    tx = true;
    alive = [];
    future_handles = [];
    unkept = [];
    started = false;
    next_id = 0;
  }

  -- `dispatch` panics once the sender is gone.
  unfoldable pub dispatch_job : Job P A → Engine P A → Outcome (Engine P A)
  dispatch_job job e =
      if e.tx then returned (record e { queues = dispatch job e.queues }) else panicked

  -- The loop that a job needs, spawned where there is none.
  loop_for : Job P A → Engine P A → Engine P A
  unfolding spawn
  loop_for job e =
      if target_beq eq.beq job.job_target background_loop
      then spawn background e
      else if is_none (Dict.get job.job_target e.queues.targets)
      then spawn (loop_of job.job_target) e
      else e

  -- The loop of the dispatcher with what it receives: a job, nothing yet, or the end of the channel.
  receive : List (Job P A) → Engine P A → Engine P A
  unfolding loop_for
  receive [] e = if e.tx then e else record e { alive = end_loop dispatcher_loop e.alive }
  receive (job ∷ rest) e = record (loop_for job e) { queues = spawn_dispatcher_loop e.queues }

  abbrev waiting_in : Option (TargetLoop P A) → List (Job P A)
  waiting_in none = []
  waiting_in (some l) = l.waiting

  -- The senders of a target's queue are with the loop of the dispatcher: once it is gone and the queue
  -- is empty, the loop of the target ends.
  take_job : JobTarget P → List (Job P A) → Engine P A → Engine P A
  take_job t [] e =
      if is_alive dispatcher_loop e.alive
      then e
      else record e { alive = end_loop (loop_of t) e.alive }
  take_job t (job ∷ rest) e = record e { queues = job_target_loop t e.queues }

  -- Whether a loop can make a step.
  abbrev pub can_step : Loop P → Engine P A → Bool
  can_step l e = is_nil e.unkept && is_alive l e.alive

  -- The beginning of the thread: it spawns the loop of the dispatcher.
  start_thread : Engine P A → Engine P A
  unfolding spawn
  start_thread e = if e.started then e else spawn dispatcher_loop (record e { started = true })

  -- `future_handles.lock().unwrap().push(…)`
  keep_handle : Engine P A → Engine P A
  keep_handle e = record e { future_handles = e.future_handles ++ e.unkept; unkept = [] }

  unfoldable pub event : Event P A → Engine P A → Outcome (Engine P A)
  unfolding start_thread keep_handle dispatch_job receive take_job
  event thread_started e = returned (start_thread e)
  event handle_kept e = returned (keep_handle e)
  event (dispatched job) e = dispatch_job job e
  event routed e = returned (if can_step dispatcher_loop e then receive e.queues.channel e else e)
  event (ran t) e = returned (
      if can_step (loop_of t) e then take_job t (waiting_in (Dict.get t e.queues.targets)) e else e)
  event (background_ended n) e =
      returned (if is_nil e.unkept then record e { alive = end_background n e.alive } else e)

  -- `close`; `wait_until_finished` does the same and joins the thread, whose pool runs until no task
  -- is alive.
  unfoldable pub close : Engine P A → Engine P A
  close e = record e { tx = false; alive = cancel e.future_handles e.alive; future_handles = [] }
