-- ===== src/Server/Life.antt =====
-- The daemon from its start to its end: what `main` (vuinputd/src/main.rs) does behind the
-- configuration, over the requests, the watcher and the dispatcher. That a handler waits for its job is
-- in Jobs/Awaiter and not repeated here.
pub mod Course
use mathlib.Core.Path.{subst}
use mathlib.Core.List.{append_assoc, append-nil}
use vuinputd.Prelude.{
  ℕ, ◌+◌, ◌<◌, ◌≤◌, ◌≡◌, ◌≢◌, refl, ap, sym, ◌∙◌, Bool, true, false, Option, none, some, List, [],
  ◌∷◌, ◌++◌, length, map, arith,
}
use vuinputd.Prelude.Dict.{Eq}
use vuinputd.Fuse.{Outcome, returned, ◌>>=◌, >>=-eq-returned, returned-inj}
use vuinputd.Process.{RequestingProcess}
use vuinputd.Process.Equal.{process_eq}
use vuinputd.Device.{Uinput, JobRequest, mknod_device, emit_udev_event, remove_device}
use vuinputd.Registry.{initialize_vuinput_state}
use vuinputd.Registry.Laws.{state_of}
use vuinputd.Server.{Daemon, u64_mod}
use vuinputd.Server.Runs.{Config, Op, step}
use vuinputd.Server.Handles.{IsFresh, step-Bounded}
use vuinputd.Server.Watcher.{EvdevWriteWatcher, new_watcher, stop, is_running}
use vuinputd.Jobs.Dispatcher.{Job, JobTarget, container, background_loop, jobs_for}
use vuinputd.Jobs.Dispatcher.Order.{all_for, jobs_for-append}
use vuinputd.Jobs.Engine
use vuinputd.Jobs.Engine.{Engine, Event, Task, new_engine, dispatch_job, event, close, cancel}
use vuinputd.Jobs.Engine.Order.{dispatched_by, event-all}
use vuinputd.Jobs.Engine.Shutdown.{IsHandled, event-IsHandled}

-- What a job does: the loop of the udev monitor, or a job that a request asked for.
pub data Work : Type 0 where
  monitor : Work
  requested : JobRequest → Work

abbrev process_of : JobRequest → RequestingProcess
process_of (mknod_device p devname sys_path major minor) = p
process_of (emit_udev_event p dev_path sys_path major minor) = p
process_of (remove_device p dev_name sys_path major minor) = p

-- The target of a job is made of the process that asked for it.
abbrev pub job_of : JobRequest → Job RequestingProcess Work
job_of r = record { job_target = container (process_of r); task = requested r }

-- `MonitorBackgroundLoop`
abbrev pub monitor_job : Job RequestingProcess Work
monitor_job = record { job_target = background_loop; task = monitor }

-- What happens while `cuse_lowlevel_main` runs: a request or an event of the watcher, or a step of the
-- thread of the dispatcher or of one of its loops.
pub data Happening : Type 0 where
  served : Op → Happening
  thread_started : Happening
  handle_kept : Happening
  job_routed : Happening
  job_ran : JobTarget RequestingProcess → Happening
  loop_ended : ℕ → Happening

module _ (U : Uinput) (c : Config) where
  -- The globals. `asked` has all jobs that requests dispatched, oldest first.
  pub record Running : Type 0 where
    pub daemon : Daemon U
    pub engine : Engine RequestingProcess Work
    pub watcher : EvdevWriteWatcher
    pub asked : List JobRequest

  -- From `initialize_evdev_write_watcher` to the first job.
  unfoldable pub start_up : U.Kernel → Outcome Running
  start_up k = initialize_vuinput_state none >>= λ states.
      dispatch_job monitor_job new_engine >>= λ engine. returned (record {
        daemon = record {
          states = states;
          counter = 3;
          last_error = none;
          kernel = k;
          dispatched = [];
          calls = [];
        };
        engine = engine;
        watcher = new_watcher;
        asked = [];
      })

  -- The handlers dispatch their jobs in order.
  dispatch_all :
      List JobRequest → Engine RequestingProcess Work → Outcome (Engine RequestingProcess Work)
  dispatch_all [] e = returned e
  dispatch_all (r ∷ rs) e = dispatch_job (job_of r) e >>= dispatch_all rs

  abbrev with_engine : Running → Outcome (Engine RequestingProcess Work) → Outcome Running
  with_engine r o = o >>= λ e. returned (record r { engine = e })

  abbrev asks : Running → Daemon U → Outcome Running
  asks r d =
      with_engine (record r { daemon = d; asked = r.asked ++ d.dispatched })
        (dispatch_all d.dispatched r.engine)

  unfoldable pub happen : Happening → Running → Outcome Running
  unfolding dispatch_all
  happen (served op) r = step U c op (record r.daemon { dispatched = [] }) >>= asks r
  happen thread_started r = with_engine r (event Engine.thread_started r.engine)
  happen handle_kept r = with_engine r (event Engine.handle_kept r.engine)
  happen job_routed r = with_engine r (event Engine.routed r.engine)
  happen (job_ran t) r = with_engine r (event (Engine.ran t) r.engine)
  happen (loop_ended n) r = with_engine r (event (Engine.background_ended n) r.engine)

  unfoldable pub serve : List Happening → Running → Outcome Running
  unfolding happen
  serve [] r = returned r
  serve (h ∷ hs) r = happen h r >>= serve hs

  -- `close` and `wait_until_finished`, which joins a thread that ends once none of its tasks is alive,
  -- and `stop`. `none`: a task is left, and the thread is waited for as long as it runs.
  abbrev joined : List (Task RequestingProcess) → Running → Option Running
  joined [] r = some (record r { watcher = stop r.watcher })
  joined (t ∷ ts) r = none

  unfoldable pub shut_down : Running → Option Running
  shut_down r = let e = close (close r.engine) in joined e.alive (record r { engine = e })
