-- ===== src/Device.antt =====
-- One open device: `VuInputDevice` and `VuInputState` (vuinputd/src/cuse_device/state.rs), and the
-- interface of the kernel's /dev/uinput that the handlers call.
use vuinputd.Prelude.{ℕ, Bool, Option, List}
use vuinputd.Prelude.Text.{Text}
use vuinputd.Input.{KeyTracker}
use vuinputd.Poll.{PollState, ReadResult}
use vuinputd.Process.{RequestingProcess}

pub record VuInputDevice : Type 0 where
  pub major : ℕ
  pub minor : ℕ
  pub syspath : Text
  pub devname : Text
  pub devnode : Text

-- `file` is the descriptor of the device's own opening of /dev/uinput.
pub record VuInputState : Type 0 where
  pub file : ℕ
  pub requesting_process : RequestingProcess
  pub input_device : Option VuInputDevice
  pub keytracker : KeyTracker
  pub poll : PollState

-- `libc::uinput_setup`. A name is its bytes.
pub record UinputSetup : Type 0 where
  pub bustype : ℕ
  pub vendor : ℕ
  pub product : ℕ
  pub version : ℕ
  pub name : List ℕ
  pub ff_effects_max : ℕ

-- `libc::uinput_abs_setup`, with `input_absinfo` flattened.
pub record UinputAbsSetup : Type 0 where
  pub code : ℕ
  pub value : ℕ
  pub minimum : ℕ
  pub maximum : ℕ
  pub fuzz : ℕ
  pub flat : ℕ
  pub resolution : ℕ

pub data BitKind : Type 0 where
  ev key rel abs msc led snd ff sw prop : BitKind

-- The requests of uinput-ioctls/src/lib.rs that the handlers make.
pub data Request : Type 0 where
  ui_dev_create : Request
  ui_dev_destroy : Request
  ui_dev_setup : UinputSetup → Request
  ui_abs_setup : List ℕ → Request
  ui_abs_setup_legacy : UinputAbsSetup → Request
  ui_get_sysname : Request
  ui_get_version : Request
  ui_set_bit : BitKind → ℕ → Request
  ui_set_phys : List ℕ → Request
  ui_begin_ff_upload : List ℕ → Request
  ui_end_ff_upload : List ℕ → Request
  ui_begin_ff_erase : List ℕ → Request
  ui_end_ff_erase : List ℕ → Request

-- The answer of an ioctl: the bytes that it wrote, or an error.
pub data Answer : Type 0 where
  done : List ℕ → Answer
  refused : Answer

pub data WriteResult : Type 0 where
  wrote : ℕ → WriteResult
  write_failed : WriteResult

-- The kernel, which is not part of the program: its state, and what the calls on a descriptor do.
pub record Uinput : Type 1 where
  pub Kernel : Type 0
  pub open_uinput : Kernel → Kernel × Option ℕ
  pub write : ℕ → List ℕ → Kernel → Kernel × WriteResult
  pub read : ℕ → Kernel → Kernel × ReadResult
  pub ioctl : ℕ → Request → Kernel → Kernel × Answer
  pub close : ℕ → Kernel → Kernel
  -- The registration of a descriptor, with the file handle as its data, and its end.
  pub epoll_add : ℕ → ℕ → Kernel → Kernel × Bool
  pub epoll_delete : ℕ → Kernel → Kernel × Bool

-- The jobs that the handlers dispatch, with the arguments of their `new`: the process, a device name
-- or node, the device's path in sysfs, and its numbers.
pub data JobRequest : Type 0 where
  mknod_device : RequestingProcess → Text → Text → ℕ → ℕ → JobRequest
  emit_udev_event : RequestingProcess → Text → Text → ℕ → ℕ → JobRequest
  remove_device : RequestingProcess → Text → Text → ℕ → ℕ → JobRequest
