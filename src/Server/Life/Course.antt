-- ===== src/Server/Life/Course.antt =====
-- The whole life of the daemon (`main` of vuinputd/src/main.rs).
use vuinputd.Prelude.{ℕ, ◌≤◌, ◌≡◌, List, ◌++◌, map}
use vuinputd.Prelude.Dict
use vuinputd.Prelude.Dict.{Eq}
use vuinputd.Process.{RequestingProcess}
use vuinputd.Process.Equal.{process_eq}
use vuinputd.Device.{Uinput}
use vuinputd.Server.Runs.{Config}
use vuinputd.Server.Handles.{IsFresh}
use vuinputd.Jobs.Dispatcher.{Job, container, jobs_for, target_eq}
use vuinputd.Jobs.Dispatcher.Order.{all_for}
use vuinputd.Jobs.Engine
use vuinputd.Jobs.Engine.{Engine, cancel}
use vuinputd.Jobs.Engine.Shutdown.{IsHandled}
use vuinputd.Server.Life.{Work, Running, job_of}

module _ (U : Uinput) (c : Config) where
  -- The jobs of the engine for each container, with those behind which they stand.
  abbrev IsBehind :
      Engine RequestingProcess Work
      → List (Job RequestingProcess Work)
      → Engine RequestingProcess Work
      → Type 0
  IsBehind e jobs e' =
      (p : RequestingProcess)
      → all_for (container p) e'.queues
        ≡ all_for (container p) e.queues ++ jobs_for (container p) jobs

  -- What holds at every time of the daemon's life, with the counter at most `n`.
  record IsSound (n : ℕ) (r : Running U c) : Type 0 where
    handled : IsHandled r.engine
    fresh : IsFresh U c r.daemon
    counted : r.daemon.counter ≤ n
    ordered :
        (p : RequestingProcess)
        → all_for (container p) r.engine.queues ≡ jobs_for (container p) (map job_of r.asked)
