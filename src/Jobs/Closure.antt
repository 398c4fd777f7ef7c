-- ===== src/Jobs/Closure.antt =====
-- A job made of a closure (vuinputd/src/job_engine/closure_job.rs).
use vuinputd.Prelude.{Bool}
use vuinputd.Prelude.Text.{Text}
use vuinputd.Jobs.Dispatcher.{Job, JobTarget}

-- The closure is given the job, of which it reads these fields.
pub record ClosureJob (P : Type 0) (A : Type 0) : Type 0 where
  pub desc : Text
  pub execute_after_cancellation : Bool
  pub target : JobTarget P
  pub task_creator : Text → Bool → JobTarget P → A

unfoldable pub create_task : {P A : Type 0} → ClosureJob P A → A
create_task j = j.task_creator j.desc j.execute_after_cancellation j.target

-- What the dispatcher sees of it. Nothing asks whether it is to run after a cancellation.
unfoldable pub as_job : {P A : Type 0} → ClosureJob P A → Job P A
unfolding create_task
as_job j = record { job_target = j.target; task = create_task j }
