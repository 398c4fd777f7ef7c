-- ===== src/Ioctl/Handler.antt =====
-- `vuinput_ioctl` for a device whose state has been looked up and locked
-- (vuinputd/src/cuse_device/vuinput_ioctl.rs).

pub mod Identity
pub mod Lifecycle
pub mod Retried
use vuinputd.Prelude.{
  ℕ, ◌%◌, Bool, true, false, not, Option, none, some, List, [], ◌∷◌, ◌++◌, ◌==◌, length, take, drop,
  replicate, if◌then◌else◌,
}
use vuinputd.Prelude.Text.{Text, codes}
use vuinputd.Fuse.{
  Errno, FuseCall, reply_err, reply_ioctl, reply_ioctl_retry, Outcome, panicked, returned, ◌>>=◌,
}
use vuinputd.Process.{Namespaces, equal_mnt_and_net}
use vuinputd.Device.{
  Uinput, UinputSetup, VuInputDevice, VuInputState, Request, Answer, done, refused, ui_dev_create,
  ui_dev_destroy, ui_dev_setup, ui_abs_setup, ui_get_sysname, ui_get_version, ui_set_bit,
  ui_set_phys, ui_begin_ff_upload, ui_end_ff_upload, ui_begin_ff_erase, ui_end_ff_erase, JobRequest,
  mknod_device, emit_udev_event, remove_device,
}
use vuinputd.Write.Bytes.{field, to_le}
use vuinputd.Write.Legacy.{bus_usb}
use vuinputd.Ioctl.Codes
use vuinputd.Ioctl.Codes.{Command, command, cmd_normalized}
use vuinputd.Ioctl.Mapping.{Retry, retry}
use vuinputd.Ioctl.Lookup.{DirEntry, fetch_device_node, fetch_major_minor}

-- The request as libfuse hands it over: the command, the argument as a number, the buffer that was
-- mapped for reading and the length of the one for writing.
pub record IoctlCall : Type 0 where
  pub cmd : ℕ
  pub arg : ℕ
  pub in_buf : List ℕ
  pub out_bufsz : ℕ

-- What a handler reads from the host: its own namespaces, and the file system.
pub record Host : Type 0 where
  pub self_namespaces : Namespaces
  pub read_dir : Text → Option (List DirEntry)
  pub metadata : Text → Option (Bool × ℕ)

-- `….unwrap()` of an option.
abbrev pub expect {ℓ} : {A : Type ℓ} → Option A → Outcome A
expect none = panicked
expect (some a) = returned a

-- A C string: the bytes before the first 0.
abbrev pub c_str : List ℕ → Text
c_str [] = []
c_str (b ∷ bs) = let rest = c_str bs in if b == 0 then [] else b ∷ rest

-- The bytes of a `uinput_setup`, with bus, vendor and product replaced.
unfoldable pub sanitized_setup : List ℕ → UinputSetup
sanitized_setup buf = record {
  bustype = bus_usb;
  vendor = 0x1209;
  product = 0x5020;
  version = field 6 2 buf;
  name = take 80 (drop 8 buf);
  ff_effects_max = field 88 4 buf;
}

-- The first job of UI_DEV_CREATE and the one behind the reply.
unfoldable pub create_jobs : Namespaces → VuInputState → VuInputDevice → List JobRequest
create_jobs self_namespaces s d =
    if not (equal_mnt_and_net self_namespaces s.requesting_process.namespaces)
    then (mknod_device s.requesting_process d.devname d.syspath d.major d.minor
        ∷ emit_udev_event s.requesting_process d.devnode d.syspath d.major d.minor
        ∷ [])
    else []

-- The job of UI_DEV_DESTROY and of `vuinput_release`, for the device that was taken.
unfoldable pub remove_jobs : Namespaces → VuInputState → Option VuInputDevice → List JobRequest
remove_jobs self_namespaces s none = []
remove_jobs self_namespaces s (some d) =
    if not (equal_mnt_and_net self_namespaces s.requesting_process.namespaces)
    then remove_device s.requesting_process d.devname d.syspath d.major d.minor ∷ []
    else []

module _ (U : Uinput) where
  -- The locked state, the kernel, the jobs that were dispatched and the calls into libfuse.
  pub record Handled : Type 0 where
    pub state : VuInputState
    pub kernel : U.Kernel
    pub jobs : List JobRequest
    pub calls : List FuseCall

  -- An ioctl, unwrapped: the kernel and the bytes that it wrote.
  abbrev pub request : ℕ → Request → U.Kernel → Outcome (U.Kernel × List ℕ)
  request fd r k =
      let (k', answer) = U.ioctl fd r k in
      elim answer [ done bytes ↦ returned (k', bytes) | refused ↦ panicked ]

  -- A reply with the bytes `out`, and nothing else changed.
  abbrev pub plain : VuInputState → U.Kernel → List ℕ → Handled
  plain s k out = record { state = s; kernel = k; jobs = []; calls = reply_ioctl out ∷ [] }

  abbrev pub guarded : Bool → Outcome Handled → Outcome Handled
  guarded test rest = if test then rest else panicked

  -- A request that is forwarded and answered with no data.
  abbrev pub forward : VuInputState → Request → U.Kernel → Outcome Handled
  forward s r k = request s.file r k >>= λ (k', _). returned (plain s k' [])

  -- The same for a buffer that the kernel changes and that is handed back.
  abbrev pub forward_back : VuInputState → Request → ℕ → U.Kernel → Outcome Handled
  forward_back s r out_bufsz k =
      request s.file r k >>= λ (k', bytes). returned (plain s k' (take out_bufsz bytes))

  -- A zeroed buffer of 64 bytes that the kernel has written to, from its start on.
  abbrev pub written_over : List ℕ → List ℕ
  written_over bytes = take 64 (bytes ++ replicate 64 0)

  unfoldable pub dev_create : Host → VuInputState → U.Kernel → Outcome Handled
  unfolding create_jobs
  dev_create host s k = do
    (k₁, _) ← request s.file ui_dev_create k
    (k₂, resultbuf) ← request s.file ui_get_sysname k₁
    let sysname = codes "/sys/devices/virtual/input/" ++ c_str resultbuf
    (devname, devnode) ← expect (fetch_device_node host.read_dir sysname)
    (major, minor) ← expect (fetch_major_minor host.metadata devnode)
    let device : VuInputDevice = record {
      major = major;
      minor = minor;
      syspath = sysname;
      devname = devname;
      devnode = devnode;
    }
    returned (record {
      state = record s { input_device = some device };
      kernel = k₂;
      jobs = create_jobs host.self_namespaces s device;
      calls = reply_ioctl [] ∷ [];
    })

  unfoldable pub dev_destroy : Host → VuInputState → U.Kernel → Outcome Handled
  unfolding remove_jobs
  dev_destroy host s k = request s.file ui_dev_destroy k >>= λ (k', _). returned (record {
    state = record s { input_device = none };
    kernel = k';
    jobs = remove_jobs host.self_namespaces s s.input_device;
    calls = reply_ioctl [] ∷ [];
  })

  -- The second `match`.
  unfoldable pub handle : Command → Host → IoctlCall → VuInputState → U.Kernel → Outcome Handled
  unfolding dev_create dev_destroy sanitized_setup
  handle Codes.dev_create host call s k = dev_create host s k
  handle Codes.dev_destroy host call s k = dev_destroy host s k
  handle Codes.dev_setup host call s k =
      guarded (not (length call.in_buf == 0))
        (forward s (ui_dev_setup (sanitized_setup call.in_buf)) k)
  handle Codes.abs_setup host call s k =
      guarded (not (length call.in_buf == 0)) (forward s (ui_abs_setup call.in_buf) k)
  handle Codes.get_sysname host call s k = guarded (call.out_bufsz == 64) (
      request s.file ui_get_sysname k >>= λ (k', bytes).
      returned (plain s k' (take call.out_bufsz (written_over bytes))))
  handle Codes.get_version host call s k =
      request s.file ui_get_version k >>= λ (k', _). returned (plain s k' (to_le 4 5))
  handle (Codes.set_bit kind) host call s k = forward s (ui_set_bit kind (call.arg % 4294967296)) k
  handle Codes.set_phys host call s k =
      guarded (not (length call.in_buf == 0)) (forward s (ui_set_phys call.in_buf) k)
  handle Codes.begin_ff_upload host call s k =
      guarded (not (length call.in_buf == 0))
        (forward_back s (ui_begin_ff_upload call.in_buf) call.out_bufsz k)
  handle Codes.end_ff_upload host call s k =
      guarded (not (length call.in_buf == 0)) (forward s (ui_end_ff_upload call.in_buf) k)
  handle Codes.begin_ff_erase host call s k =
      guarded (not (length call.in_buf == 0))
        (forward_back s (ui_begin_ff_erase call.in_buf) call.out_bufsz k)
  handle Codes.end_ff_erase host call s k =
      guarded (not (length call.in_buf == 0)) (forward s (ui_end_ff_erase call.in_buf) k)
  handle Codes.unknown host call s k =
      returned (record { state = s; kernel = k; jobs = []; calls = reply_err Errno.ebadrqc ∷ [] })

  -- A retry changes nothing.
  mapped_or_handled :
      Option Retry → Command → Host → IoctlCall → VuInputState → U.Kernel → Outcome Handled
  unfolding handle
  mapped_or_handled (some r) c host call s k = returned (record {
    state = s;
    kernel = k;
    jobs = [];
    calls = reply_ioctl_retry r.in_len r.out_len ∷ [];
  })
  mapped_or_handled none c host call s k = handle c host call s k

  unfoldable pub vuinput_ioctl : Host → IoctlCall → VuInputState → U.Kernel → Outcome Handled
  unfolding mapped_or_handled
  vuinput_ioctl host call s k =
      let c = command (cmd_normalized call.cmd) in
      mapped_or_handled (retry c (length call.in_buf) call.out_bufsz) c host call s k
