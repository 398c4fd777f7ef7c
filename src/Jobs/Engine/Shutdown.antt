-- ===== src/Jobs/Engine/Shutdown.antt =====
-- The end of the dispatcher (`close` and `wait_until_finished` of vuinputd/src/job_engine/job.rs).
use mathlib.Core.Path.{subst}
use mathlib.Core.List.{append_assoc, append-nil}
use vuinputd.Prelude.{
  ℕ, ◌≡◌, refl, ap, sym, ◌∙◌, inl, inr, Bool, true, false, ◌||◌, List, [], ◌∷◌, ◌++◌, ◌==◌,
  if◌then◌else◌, arith, All, All-append, Bool-cases, if_both,
}
use vuinputd.Prelude.Dict
use vuinputd.Prelude.Dict.{Eq}
use vuinputd.Fuse.{Outcome, panicked, returned, ◌>>=◌, returned-inj}
use vuinputd.Jobs.Dispatcher
use vuinputd.Jobs.Dispatcher.{Job, JobTarget, background_loop, Dispatcher, target_beq, target_eq}
use vuinputd.Jobs.Engine.{
  Engine, Event, thread_started, handle_kept, is_nil, can_step, dispatched, routed, ran,
  background_ended, Loop, dispatcher_loop, loop_of, background, Task, has_id, cancel, is_alive,
  loop_beq, end_loop, end_background, spawn, loop_for, receive, take_job, waiting_in, event, close,
}

abbrev HasHandle : {P : Type 0} → List ℕ → Task P → Type 0
HasHandle handles t = has_id t.id handles ≡ true

has_id-append : (n : ℕ) (xs ys : List ℕ) → has_id n (xs ++ ys) ≡ (has_id n xs || has_id n ys)
has_id-append n [] ys = refl
has_id-append n (x ∷ xs) ys = ground (arith, has_id-append n xs ys)

HasHandle-more :
    {P : Type 0} (ts : List (Task P)) (handles : List ℕ) (n : ℕ)
    → All (HasHandle handles) ts
    → All (HasHandle (handles ++ (n ∷ []))) ts
HasHandle-more [] handles n h = tt
HasHandle-more (t ∷ ts) handles n h =
    (ground (arith, has_id-append t.id handles (n ∷ [])), HasHandle-more ts handles n h.1)

pub cancel-nil :
    {P : Type 0} (handles : List ℕ) (ts : List (Task P))
    → All (HasHandle handles) ts
    → cancel handles ts ≡ []
cancel-nil handles [] h = refl
cancel-nil handles (t ∷ ts) h = ground (arith, cancel-nil handles ts h.1)

module _ {P : Type 0} ⦃eq : Eq P⦄ where
  end_loop-All :
      (Q : Task P → Type 0) (l : Loop P) (ts : List (Task P)) → All Q ts → All Q (end_loop l ts)
  end_loop-All Q l [] h = tt
  end_loop-All Q l (t ∷ ts) h = elim (Bool-cases (loop_beq t.loop l)) [
    | inl e ↦ rw e (end_loop-All Q l ts h.1)
    | inr e ↦ rw e (h.0, end_loop-All Q l ts h.1)
  ]

  end_background-All :
      (Q : Task P → Type 0) (n : ℕ) (ts : List (Task P)) → All Q ts → All Q (end_background n ts)
  end_background-All Q n [] h = tt
  end_background-All Q n (t ∷ ts) h = elim (Bool-cases (t.id == n)) [
    | inl e ↦ elim (Bool-cases (loop_beq t.loop background)) [
      | inl f ↦ rw (e, f) (end_background-All Q n ts h.1)
      | inr f ↦ rw (e, f) (h.0, end_background-All Q n ts h.1)
    ]
    | inr e ↦ rw e (h.0, end_background-All Q n ts h.1)
  ]

module _ {P A : Type 0} ⦃eq : Eq P⦄ where
  -- Every task that is alive has its handle kept, or about to be.
  abbrev pub IsHandled : Engine P A → Type 0
  IsHandled e = All (HasHandle (e.future_handles ++ e.unkept)) e.alive

  spawn-IsHandled : (l : Loop P) (e : Engine P A) → IsHandled e → IsHandled (spawn l e)
  unfolding spawn
  spawn-IsHandled l e h =
      subst (λ hs. All (HasHandle hs) (e.alive ++ (record { id = e.next_id; loop = l } ∷ [])))
        (append_assoc e.future_handles e.unkept (e.next_id ∷ []))
        (All-append (HasHandle ((e.future_handles ++ e.unkept) ++ (e.next_id ∷ []))) e.alive _
          (HasHandle-more e.alive (e.future_handles ++ e.unkept) e.next_id h)
          (
            ground (arith, has_id-append e.next_id (e.future_handles ++ e.unkept) (e.next_id ∷ [])),
            tt,
          ))

  loop_for-IsHandled : (job : Job P A) (e : Engine P A) → IsHandled e → IsHandled (loop_for job e)
  unfolding loop_for
  loop_for-IsHandled job e h =
      if_both IsHandled (target_beq eq.beq job.job_target background_loop) _ _
        (spawn-IsHandled background e h)
        (if_both IsHandled _ _ _ (spawn-IsHandled (loop_of job.job_target) e h) h)

  receive-IsHandled :
      (channel : List (Job P A)) (e : Engine P A) → IsHandled e → IsHandled (receive channel e)
  unfolding receive
  receive-IsHandled [] e h =
      if_both IsHandled e.tx _ _ h
        (end_loop-All (HasHandle (e.future_handles ++ e.unkept)) dispatcher_loop e.alive h)
  receive-IsHandled (job ∷ rest) e h = loop_for-IsHandled job e h

  take_job-IsHandled :
      (t : JobTarget P) (waiting : List (Job P A)) (e : Engine P A)
      → IsHandled e
      → IsHandled (take_job t waiting e)
  unfolding take_job
  take_job-IsHandled t [] e h =
      if_both IsHandled (is_alive dispatcher_loop e.alive) _ _ h
        (end_loop-All (HasHandle (e.future_handles ++ e.unkept)) (loop_of t) e.alive h)
  take_job-IsHandled t (job ∷ rest) e h = h

  pub event-IsHandled :
      (m : Event P A) (e : Engine P A) {e' : Engine P A}
      → event m e ≡ returned e'
      → IsHandled e
      → IsHandled e'
  unfolding event
  event-IsHandled thread_started e r h = subst IsHandled (returned-inj r) (
      if_both IsHandled e.started _ _ h
        (spawn-IsHandled dispatcher_loop (record e { started = true }) h))
  event-IsHandled handle_kept e r h =
      subst IsHandled (returned-inj r) (
        subst (λ hs. All (HasHandle hs) e.alive) (sym (append-nil (e.future_handles ++ e.unkept)))
          h)
  event-IsHandled (dispatched job) e {e'} r h = by_sender e.tx r
    where
      by_sender :
          (tx : Bool)
          → (if tx
              then returned (record e { queues = Dispatcher.dispatch job e.queues })
              else panicked)
            ≡ returned e'
          → IsHandled e'
      by_sender true q = subst IsHandled (returned-inj q) h
      by_sender false q = cc
  event-IsHandled routed e r h = subst IsHandled (returned-inj r) (
      if_both IsHandled (can_step dispatcher_loop e) _ _ (receive-IsHandled e.queues.channel e h) h)
  event-IsHandled (ran t) e r h = subst IsHandled (returned-inj r) (
      if_both IsHandled (can_step (loop_of t) e) _ _
        (take_job-IsHandled t (waiting_in (Dict.get t e.queues.targets)) e h) h)
  event-IsHandled (background_ended n) e r h = subst IsHandled (returned-inj r) (
      if_both IsHandled (is_nil e.unkept) _ _
        (end_background-All (HasHandle (e.future_handles ++ e.unkept)) n e.alive h) h)

  abbrev pub events : List (Event P A) → Engine P A → Outcome (Engine P A)
  events [] e = returned e
  events (m ∷ ms) e = event m e >>= events ms

  -- With its thread begun and no handle about to be kept, `close` ends all tasks.
  pub close-alive : (e : Engine P A) → IsHandled e → e.unkept ≡ [] → (close e).alive ≡ []
  unfolding close
  close-alive e h kept = cancel-nil e.future_handles e.alive (
      subst (λ hs. All (HasHandle hs) e.alive)
        (ap (λ hs. e.future_handles ++ hs) kept ∙ append-nil e.future_handles) h)

  -- Nothing is alive, nothing can be dispatched, and the thread does not begin any more.
  abbrev IsClosed : Dispatcher P A → Engine P A → Type 0
  IsClosed queues e = (e.alive ≡ []) × (e.tx ≡ false) × (e.started ≡ true) × (e.queues ≡ queues)
