-- ===== src/Jobs/Dispatcher.antt =====
-- The dispatcher (vuinputd/src/job_engine/job.rs): one channel into the dispatcher's loop, and for
-- each target a queue with a loop that runs its jobs one after the other. The loops are tasks of one
-- thread; which of them makes the next move is not fixed.
pub mod Order
use vuinputd.Prelude.{
  ℕ, ◌≡◌, ◌≢◌, refl, sym, ap, ◌∙◌, ◌↔◌, ◌⊎◌, inl, inr, Bool, true, false, not, Option, none, some,
  List, [], ◌∷◌, ◌++◌, if◌then◌else◌, arith, Bool-cases,
}
use vuinputd.Prelude.Dict
use vuinputd.Prelude.Dict.{Dict, Eq, get-insert}

-- `P` is `RequestingProcess`, of which the dispatcher uses `==` alone.
pub data JobTarget (P : Type 0) : Type 0 where
  host background_loop : JobTarget P
  container : P → JobTarget P

-- The derived `==`.
abbrev pub target_beq : {P : Type 0} → (P → P → Bool) → JobTarget P → JobTarget P → Bool
target_beq beq host host = true
target_beq beq background_loop background_loop = true
target_beq beq (container p) (container q) = beq p q
target_beq beq _ _ = false

pub target_beq_iff :
    {P : Type 0} (beq : P → P → Bool)
    → ((p q : P) → (beq p q ≡ true) ↔ (p ≡ q))
    → (s t : JobTarget P) → (target_beq beq s t ≡ true) ↔ (s ≡ t)
target_beq_iff beq h host host = (λ _. refl, λ _. refl)
target_beq_iff beq h background_loop background_loop = (λ _. refl, λ _. refl)
target_beq_iff beq h (container p) (container q) =
    (λ e. ap container ((h p q).0 e), λ e. ground (arith, h p q))
target_beq_iff beq h host background_loop = (λ e. cc, λ e. cc)
target_beq_iff beq h host (container q) = (λ e. cc, λ e. cc)
target_beq_iff beq h background_loop host = (λ e. cc, λ e. cc)
target_beq_iff beq h background_loop (container q) = (λ e. cc, λ e. cc)
target_beq_iff beq h (container p) host = (λ e. cc, λ e. cc)
target_beq_iff beq h (container p) background_loop = (λ e. cc, λ e. cc)

-- A job, by its target; `A` is what it does.
pub record Job (P : Type 0) (A : Type 0) : Type 0 where
  pub job_target : JobTarget P
  pub task : A

-- The loop of a target: the jobs that it took, oldest first, and those that wait in its queue.
pub record TargetLoop (P : Type 0) (A : Type 0) : Type 0 where
  pub taken : List (Job P A)
  pub waiting : List (Job P A)

abbrev pub new_loop : {P A : Type 0} → TargetLoop P A
new_loop = record { taken = []; waiting = [] }

-- The channel into the loop of the dispatcher, the loops of the targets, and the background loops.
pub record Dispatcher (P : Type 0) (A : Type 0) : Type 0 where
  pub channel : List (Job P A)
  pub targets : Dict (JobTarget P) (TargetLoop P A)
  pub background : List (Job P A)

unfoldable pub new_dispatcher : {P A : Type 0} → Dispatcher P A
new_dispatcher = record { channel = []; targets = []; background = [] }

instance abbrev pub target_eq : {P : Type 0} ⦃eq : Eq P⦄ → Eq (JobTarget P)
target_eq ⦃eq⦄ = record { beq = target_beq eq.beq; beq_iff = target_beq_iff eq.beq eq.beq_iff }

module _ {P A : Type 0} ⦃eq : Eq P⦄ where
  unfoldable pub dispatch : Job P A → Dispatcher P A → Dispatcher P A
  dispatch job d = record d { channel = d.channel ++ (job ∷ []) }

  -- The loop of a target, which is spawned when it is first used.
  abbrev pub get_or_spawn_target_loop :
      JobTarget P → Dict (JobTarget P) (TargetLoop P A) → TargetLoop P A
  get_or_spawn_target_loop t targets = elim (Dict.get t targets) [ none ↦ new_loop | some l ↦ l ]

  -- The loop of the dispatcher with a job that it received.
  route_job : Job P A → Dispatcher P A → Dispatcher P A
  route_job job d =
      let l = get_or_spawn_target_loop job.job_target d.targets in
      if target_beq eq.beq job.job_target background_loop
      then record d { background = d.background ++ (job ∷ []) }
      else record d {
        targets =
            Dict.insert job.job_target (record l { waiting = l.waiting ++ (job ∷ []) }) d.targets;
      }

  route_next : List (Job P A) → Dispatcher P A → Dispatcher P A
  unfolding route_job
  route_next [] d = d
  route_next (job ∷ rest) d = route_job job (record d { channel = rest })

  unfoldable pub spawn_dispatcher_loop : Dispatcher P A → Dispatcher P A
  unfolding route_next
  spawn_dispatcher_loop d = route_next d.channel d

  take_next : List (Job P A) → TargetLoop P A → TargetLoop P A
  take_next [] l = l
  take_next (job ∷ rest) l = record { taken = l.taken ++ (job ∷ []); waiting = rest }

  -- The loop of a target takes its next job; there is none for a target without a loop.
  unfoldable pub job_target_loop : JobTarget P → Dispatcher P A → Dispatcher P A
  unfolding take_next
  job_target_loop t d = elim (Dict.get t d.targets) [
    | none ↦ d
    | some l ↦ record d { targets = Dict.insert t (take_next l.waiting l) d.targets }
  ]

  -- The jobs for a target, in their order.
  unfoldable pub jobs_for : JobTarget P → List (Job P A) → List (Job P A)
  jobs_for t [] = []
  jobs_for t (job ∷ jobs) =
      let rest = jobs_for t jobs in if target_beq eq.beq job.job_target t then job ∷ rest else rest
