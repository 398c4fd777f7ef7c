-- ===== src/Tests/Fixtures.antt =====
-- Test data: a kernel that logs, processes, devices and events.
use vuinputd.Prelude.{
  ℕ, Bool, true, false, Option, none, some, List, [], ◌∷◌, ◌++◌, length, ltb, if◌then◌else◌,
}
use vuinputd.Prelude.Text.{codes}
use vuinputd.Input.{InputEvent, KeyTracker}
use vuinputd.Poll.{PollPhase, ReadResult}
use vuinputd.Process.{Namespaces, RequestingProcess}
use vuinputd.Device.{Uinput, VuInputDevice, VuInputState, Request, done, wrote, write_failed}

-- A kernel that keeps what was written to it and the requests made, and fails writes from the
-- `limit`th on.
pub record LogKernel : Type 0 where
  pub writes : List (List ℕ)
  pub requests : List Request

abbrev pub log_uinput : ℕ → Uinput
log_uinput limit = record {
  Kernel = LogKernel;
  open_uinput = λ k. (k, some 7);
  write = λ fd b k.
      if ltb (length k.writes) limit
      then (record k { writes = k.writes ++ (b ∷ []) }, wrote (length b))
      else (k, write_failed);
  read = λ fd k. (k, ReadResult.would_block);
  ioctl = λ fd r k. (record k { requests = k.requests ++ (r ∷ []) }, done []);
  close = λ fd k. k;
  epoll_add = λ fd fh k. (k, true);
  epoll_delete = λ fd k. (k, true);
}

abbrev pub empty_kernel : LogKernel
empty_kernel = record { writes = []; requests = [] }

abbrev pub host_namespaces : Namespaces
host_namespaces = record {
  net = some 1;
  uts = some 2;
  ipc = some 3;
  pid = some 4;
  pid_for_children = some 4;
  user = some 5;
  mnt = some 6;
  cgroup = some 7;
  time = some 8;
  time_for_children = some 8;
}

abbrev pub container_namespaces : Namespaces
container_namespaces = record host_namespaces { net = some 101; mnt = some 106 }

abbrev pub requestor : Bool → RequestingProcess
requestor is_compat = record {
  pid_requestor = 500;
  pid_requestor_root = 400;
  namespaces = container_namespaces;
  is_compat = is_compat;
}

abbrev pub device : VuInputDevice
device = record {
  major = 13;
  minor = 73;
  syspath = codes "/sys/devices/virtual/input/input97";
  devname = codes "event9";
  devnode = codes "/dev/input/event9";
}

abbrev pub no_keys : KeyTracker
no_keys = record {
  left_alt_down = false;
  right_alt_down = false;
  left_ctrl_down = false;
  right_ctrl_down = false;
}

abbrev pub opened : Bool → Option VuInputDevice → VuInputState
opened is_compat d = record {
  file = 7;
  requesting_process = requestor is_compat;
  input_device = d;
  keytracker = no_keys;
  poll = record { pollphase = PollPhase.empty; pending = none };
}

-- A key event with its code and value.
abbrev pub key_event : ℕ → ℕ → InputEvent
key_event code value = record { tv_sec = 0; tv_usec = 0; type_ = 1; code = code; value = value }

-- The bytes of a key event of a 32-bit process.
abbrev pub compat_key : ℕ → ℕ → List ℕ
compat_key code value = 1 ∷ 0 ∷ 0 ∷ 0 ∷ 2 ∷ 0 ∷ 0 ∷ 0 ∷ 1 ∷ 0 ∷ code ∷ 0 ∷ value ∷ 0 ∷ 0 ∷ 0 ∷ []

-- The bytes of a key event of a 64-bit process.
abbrev pub key_bytes : ℕ → ℕ → List ℕ
key_bytes code value =
    1 ∷ 0 ∷ 0 ∷ 0 ∷ 0 ∷ 0 ∷ 0 ∷ 0 ∷ 2 ∷ 0 ∷ 0 ∷ 0 ∷ 0 ∷ 0 ∷ 0 ∷ 0 ∷ 1 ∷ 0 ∷ code ∷ 0 ∷ value ∷ 0 ∷ 0
    ∷ 0 ∷ []
