-- ===== src/Tests/Ioctls.antt =====
-- The ioctls and the life of handles.
use vuinputd.Prelude.{
  ℕ, ◌↔◌, ◌≢◌, ◌≡◌, refl, true, false, none, some, List, [], ◌∷◌, ◌++◌, arith, length,
}
use vuinputd.Prelude.Text.{codes, starts_with}
use vuinputd.Prelude.Dict
use vuinputd.Fuse.{returned, panicked, reply_ioctl, reply_ioctl_retry}
use vuinputd.Policy.{DevicePolicy}
use vuinputd.Device.{
  Uinput, VuInputState, Request, done, VuInputDevice, ui_get_sysname, ui_dev_create, ui_dev_destroy,
}
use vuinputd.Registry.{get_vuinput_state, insert_vuinput_state, remove_vuinput_state, store}
use vuinputd.Registry.Laws.{state_of}
use vuinputd.Ioctl.Codes
use vuinputd.Ioctl.Codes.{command, cmd_normalized, IsCodeOf, command-exact}
use vuinputd.Ioctl.Mapping.{retry}
use vuinputd.Ioctl.Lookup.{DirEntry, makedev, fetch_device_node, fetch_major_minor}
use vuinputd.Ioctl.Handler
use vuinputd.Ioctl.Handler.{
  Handled, create_jobs, remove_jobs, Host, IoctlCall, request, plain, vuinput_ioctl,
}
use vuinputd.Ioctl.Handler.Lifecycle.{bare_call, life_jobs, IsNewDevice, device_life}
use vuinputd.Ioctl.Handler.Retried.{Accepts, IsAnswered, retried-IsAnswered}
use vuinputd.Server.{Daemon, vuinput_open, vuinput_release, handle_poll, handle_watch}
use vuinputd.Server.Runs.{Config, Op, open_device, release, poll, watch}
use vuinputd.Server.Handles.{run, IsFresh, handles_isolated}
use vuinputd.Tests.Fixtures.{log_uinput, empty_kernel, host_namespaces, requestor, opened}

abbrev pub answer_to : Request → List ℕ
answer_to ui_get_sysname = codes "input97" ++ (0 ∷ 0 ∷ [])
answer_to _ = []

-- A kernel that answers with the name of the device.
abbrev pub naming_uinput : Uinput
naming_uinput = record (log_uinput 100) {
  ioctl = λ fd r k. (record k { requests = k.requests ++ (r ∷ []) }, done (answer_to r));
}

abbrev pub host : Host
host = record {
  self_namespaces = host_namespaces;
  read_dir = λ path. some (DirEntry.name (codes "mouse3") ∷ DirEntry.name (codes "event9") ∷ []);
  metadata = λ path. some (true, makedev 13 73);
}

abbrev client : VuInputState
client = opened false none

abbrev created_device : VuInputDevice
created_device = record {
  major = 13;
  minor = 73;
  syspath = codes "/sys/devices/virtual/input/input97";
  devname = codes "event9";
  devnode = codes "/dev/input/event9";
}

abbrev created : Handled naming_uinput
created = record {
  state = record client { input_device = some created_device };
  kernel = record { writes = []; requests = ui_dev_create ∷ ui_get_sysname ∷ [] };
  jobs = create_jobs host.self_namespaces client created_device;
  calls = reply_ioctl [] ∷ [];
}

abbrev destroyed : Handled naming_uinput
destroyed = record {
  state = client;
  kernel = record { writes = []; requests = ui_dev_destroy ∷ [] };
  jobs = remove_jobs host.self_namespaces client (some created_device);
  calls = reply_ioctl [] ∷ [];
}

create_returns :
    vuinput_ioctl naming_uinput host (bare_call Codes.dev_create) client empty_kernel
    ≡ returned created
unfolding vuinput_ioctl Handler.handle Handler.dev_create retry command cmd_normalized
    fetch_device_node fetch_major_minor starts_with
create_returns = refl

destroy_returns :
    vuinput_ioctl naming_uinput host (bare_call Codes.dev_destroy) created.state empty_kernel
    ≡ returned destroyed
unfolding vuinput_ioctl Handler.handle Handler.dev_destroy retry command cmd_normalized remove_jobs
destroy_returns = refl

device_life_example :
    (d : VuInputDevice) × IsNewDevice naming_uinput host client empty_kernel d
    × (created.state ≡ (record client { input_device = some d }))
    × (created.jobs ++ destroyed.jobs ≡ life_jobs host client d)
    × (remove_jobs host.self_namespaces destroyed.state destroyed.state.input_device ≡ [])
device_life_example =
    device_life naming_uinput host client empty_kernel empty_kernel create_returns destroy_returns

not_unknown : Codes.get_sysname ≢ Codes.unknown
not_unknown h = cc

command-exact_example :
    (command (cmd_normalized 0x8040552c) ≡ Codes.get_sysname)
    ↔ IsCodeOf Codes.get_sysname 0x8040552c
command-exact_example = command-exact 0x8040552c Codes.get_sysname not_unknown

-- The name of the device, asked for without a buffer and with one.
abbrev unmapped : IoctlCall
unmapped = record { cmd = 0x8040552c; arg = 0; in_buf = []; out_bufsz = 0 }

abbrev mapped : IoctlCall
mapped = record unmapped { out_bufsz = 64 }

name_asks :
    retry (command (cmd_normalized unmapped.cmd)) (length unmapped.in_buf) unmapped.out_bufsz
    ≡ some (record { in_len = 0; out_len = 64 })
unfolding retry command cmd_normalized
name_asks = refl

naming-Accepts : Accepts naming_uinput
naming-Accepts fd r k = (answer_to r, refl)

retried-IsAnswered_example :
    (vuinput_ioctl naming_uinput host unmapped client empty_kernel
      ≡ returned (record {
        state = client;
        kernel = empty_kernel;
        jobs = [];
        calls = reply_ioctl_retry 0 64 ∷ [];
      }))
    × IsAnswered naming_uinput client
        (vuinput_ioctl naming_uinput host mapped client empty_kernel)
        64
retried-IsAnswered_example =
    retried-IsAnswered naming_uinput naming-Accepts host unmapped mapped client client empty_kernel
      empty_kernel name_asks refl refl refl

-- The daemon with one open handle.
abbrev config : Config
config = record {
  policy = DevicePolicy.none;
  host = host;
  get_requesting_process = λ pid. returned (requestor false);
}

abbrev daemon : Daemon naming_uinput
daemon = record {
  states = some ((3, client) ∷ []);
  counter = 4;
  last_error = none;
  kernel = empty_kernel;
  dispatched = [];
  calls = [];
}

abbrev requests : List Op
requests = open_device 600 ∷ poll 4 (some 90) ∷ watch 4 ∷ release 4 ∷ open_device 601 ∷ []

-- The daemon after the requests.
abbrev daemon_after : Daemon naming_uinput
daemon_after = elim (run naming_uinput config requests daemon) [
  | panicked ↦ daemon
  | returned d ↦ d
]

requests_return : run naming_uinput config requests daemon ≡ returned daemon_after
unfolding vuinput_open vuinput_release handle_poll handle_watch get_vuinput_state
    insert_vuinput_state remove_vuinput_state store Dict.get Dict.insert Dict.remove
requests_return = refl

daemon-IsFresh : IsFresh naming_uinput config daemon
unfolding state_of Dict.get
daemon-IsFresh j h = ground arith

handles_isolated_example : state_of 3 daemon_after.states ≡ state_of 3 daemon.states
handles_isolated_example =
    handles_isolated naming_uinput config requests daemon 3 requests_return (omega arith)
      daemon-IsFresh (omega arith) (refl, (refl, (refl, (refl, (refl, tt)))))
