-- ===== src/Jobs/Engine/Order.antt =====
-- The order of jobs in the life of the dispatcher's thread (vuinputd/src/job_engine/job.rs).
use mathlib.Core.List.{append-nil}
use mathlib.Core.Path.{subst}
use vuinputd.Prelude.{
  ◌≡◌, ◌≢◌, refl, sym, ◌∙◌, Bool, true, false, List, [], ◌∷◌, ◌++◌, if◌then◌else◌, if_both,
}
use vuinputd.Prelude.Dict
use vuinputd.Prelude.Dict.{Eq}
use vuinputd.Fuse.{returned, panicked, returned-inj}
use vuinputd.Jobs.Dispatcher
use vuinputd.Jobs.Dispatcher.{
  Job, JobTarget, background_loop, jobs_for, target_eq, target_beq, spawn_dispatcher_loop,
  job_target_loop,
}
use vuinputd.Jobs.Dispatcher.Order as Order
use vuinputd.Jobs.Dispatcher.Order.{all_for, moves-all}
use vuinputd.Jobs.Engine.{
  Engine, Event, thread_started, handle_kept, is_nil, can_step, dispatched, routed, ran,
  background_ended, event, receive, take_job, waiting_in, is_alive, dispatcher_loop, loop_of,
}

module _ {P A : Type 0} ⦃eq : Eq P⦄ where
  -- The job that an event dispatches.
  abbrev pub dispatched_by : Event P A → List (Job P A)
  dispatched_by thread_started = []
  dispatched_by handle_kept = []
  dispatched_by (dispatched job) = job ∷ []
  dispatched_by routed = []
  dispatched_by (ran t) = []
  dispatched_by (background_ended n) = []

  -- No job for the target is lost, added or overtaken.
  abbrev Same : JobTarget P → Engine P A → Engine P A → Type 0
  Same t e e' = all_for t e'.queues ≡ all_for t e.queues

  -- The same with jobs added behind those that were there.
  abbrev Added : JobTarget P → Engine P A → List (Job P A) → Engine P A → Type 0
  Added t e jobs e' = all_for t e'.queues ≡ all_for t e.queues ++ jobs

  routed-all :
      (t : JobTarget P) (e : Engine P A)
      → t ≢ background_loop
      → all_for t (spawn_dispatcher_loop e.queues) ≡ all_for t e.queues
  unfolding jobs_for
  routed-all t e h = moves-all (Order.routed ∷ []) t e.queues h ∙ append-nil _

  ran-all :
      (s t : JobTarget P) (e : Engine P A)
      → t ≢ background_loop
      → all_for t (job_target_loop s e.queues) ≡ all_for t e.queues
  unfolding jobs_for
  ran-all s t e h = moves-all (Order.ran s ∷ []) t e.queues h ∙ append-nil _

  receive-all :
      (t : JobTarget P) (channel : List (Job P A)) (e : Engine P A)
      → t ≢ background_loop
      → all_for t (receive channel e).queues ≡ all_for t e.queues
  unfolding receive
  receive-all t [] e h = if_both (Same t e) e.tx _ _ refl refl
  receive-all t (job ∷ rest) e h = routed-all t e h

  take_job-all :
      (s t : JobTarget P) (waiting : List (Job P A)) (e : Engine P A)
      → t ≢ background_loop
      → all_for t (take_job s waiting e).queues ≡ all_for t e.queues
  unfolding take_job
  take_job-all s t [] e h = if_both (Same t e) (is_alive dispatcher_loop e.alive) _ _ refl refl
  take_job-all s t (job ∷ rest) e h = ran-all s t e h

  -- An event that does not panic puts the job that it dispatches behind those for the same target.
  pub event-all :
      (m : Event P A) (t : JobTarget P) (e : Engine P A) {e' : Engine P A}
      → t ≢ background_loop
      → event m e ≡ returned e'
      → all_for t e'.queues ≡ all_for t e.queues ++ jobs_for t (dispatched_by m)
  unfolding event jobs_for
  event-all thread_started t e h r =
      subst (Added t e []) (returned-inj r)
        (if_both (Same t e) e.started _ _ refl refl ∙ sym (append-nil _))
  event-all handle_kept t e h r = subst (Added t e []) (returned-inj r) (sym (append-nil _))
  event-all (dispatched job) t e {e'} h r = by_sender e.tx r
    where
      by_sender :
          (tx : Bool)
          → (if tx
              then returned (record e { queues = Dispatcher.dispatch job e.queues })
              else panicked)
            ≡ returned e'
          → all_for t e'.queues ≡ all_for t e.queues ++ jobs_for t (job ∷ [])
      by_sender true q =
          subst (Added t e (jobs_for t (job ∷ []))) (returned-inj q)
            (moves-all (Order.dispatched job ∷ []) t e.queues h)
      by_sender false q = cc
  event-all routed t e h r = subst (Added t e []) (returned-inj r) (
      if_both (Same t e) (can_step dispatcher_loop e) _ _ (receive-all t e.queues.channel e h) refl
      ∙ sym (append-nil _))
  event-all (ran s) t e h r = subst (Added t e []) (returned-inj r) (
      if_both (Same t e) (can_step (loop_of s) e) _ _
        (take_job-all s t (waiting_in (Dict.get s e.queues.targets)) e h) refl
      ∙ sym (append-nil _))
  event-all (background_ended n) t e h r =
      subst (Added t e []) (returned-inj r)
        (if_both (Same t e) (is_nil e.unkept) _ _ refl refl ∙ sym (append-nil _))
