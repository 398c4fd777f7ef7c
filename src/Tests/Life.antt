-- ===== src/Tests/Life.antt =====
-- The daemon from its start to its end, with one device.
use vuinputd.Prelude.{Bool, true, false, none, List, [], ◌∷◌}
use vuinputd.Prelude.Dict
use vuinputd.Fuse.{Outcome, returned, panicked, ◌>>=◌}
use vuinputd.Policy
use vuinputd.Registry
use vuinputd.Server
use vuinputd.Ioctl.Handler
use vuinputd.Ioctl.Mapping
use vuinputd.Ioctl.Lookup
use vuinputd.Prelude.Text
use vuinputd.Process
use vuinputd.Process.Equal.{process_eq}
use vuinputd.Ioctl.Codes
use vuinputd.Ioctl.Codes.{code_of}
use vuinputd.Server.Runs.{Config, open_device, ioctl}
use vuinputd.Jobs.Dispatcher
use vuinputd.Jobs.Dispatcher.{container}
use vuinputd.Jobs.Engine
use vuinputd.Server.Life.{
  Happening, served, thread_started, handle_kept, job_routed, job_ran, Running, start_up, serve,
}
use vuinputd.Tests.Fixtures.{empty_kernel, requestor}
use vuinputd.Tests.Ioctls.{naming_uinput, host}
use vuinputd.Ioctl.Handler.Lifecycle.{bare_call}

abbrev config : Config
config = record {
  policy = Policy.mute_sys_rq;
  host = host;
  get_requesting_process = λ pid. returned (requestor false);
}

-- A client in a container opens the device and creates one; of its two jobs, the first is taken.
abbrev happenings : List Happening
happenings =
    served (open_device 500)
    ∷ served (ioctl 3 (bare_call Codes.dev_create))
    ∷ thread_started
    ∷ handle_kept
    ∷ job_routed
    ∷ handle_kept
    ∷ job_routed
    ∷ handle_kept
    ∷ job_ran (container (requestor false))
    ∷ []

abbrev idle : Running naming_uinput config
idle = record {
  daemon = record {
    states = none;
    counter = 3;
    last_error = none;
    kernel = empty_kernel;
    dispatched = [];
    calls = [];
  };
  engine = record {
    queues = record { channel = []; targets = []; background = [] };
    tx = false;
    alive = [];
    future_handles = [];
    unkept = [];
    started = false;
    next_id = 0;
  };
  watcher = record { shutdown = false; thread_handle = true };
  asked = [];
}

abbrev returned_or : {A : Type 0} → A → Outcome A → A
returned_or a panicked = a
returned_or a (returned b) = b

abbrev busy : Running naming_uinput config
busy =
    returned_or idle
      (start_up naming_uinput config empty_kernel >>= serve naming_uinput config happenings)

abbrev is_returned : {A : Type 0} → Outcome A → Bool
is_returned panicked = false
is_returned (returned a) = true
