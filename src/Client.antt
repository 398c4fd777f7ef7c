-- ===== src/Client.antt =====
-- The client that the integration tests are made of (vuinputd-tests/src/devices/device_base.rs): it
-- creates a device through /dev/uinput, or through the device of the daemon, writes events and reads
-- them back. What it calls of the C library is a parameter.
pub mod Delivered
pub mod Keys
pub mod Devices
pub mod ForceFeedback
pub mod Durations
pub mod Scenarios
pub mod Programs
pub mod Transparent
use vuinputd.Prelude.{
  ℕ, ◌+◌, ◌-◌, ◌*◌, ◌/◌, Bool, true, false, ◌&&◌, Option, none, some, List, [], ◌∷◌, ◌++◌, ◌==◌,
  leb, take, replicate, length, is_some, if◌then◌else◌,
}
use vuinputd.Prelude.Text.{Text, codes}
use vuinputd.Input.{InputEvent, ev_syn}
use vuinputd.Device.{
  Request, UinputSetup, UinputAbsSetup, Answer, done, refused, ui_dev_setup, ui_get_sysname,
  WriteResult, wrote, write_failed,
}
use vuinputd.Write.Bytes.{to_le, bytes_of, event_at}
use vuinputd.Ioctl.Handler.{c_str}
use vuinputd.Ioctl.Lookup
use vuinputd.Ioctl.Lookup.{DirEntry}

-- How a call of the client ends: with a value, an error that it returns, an exit, or a panic.
pub data Result (A : Type 0) : Type 0 where
  ok : A → Result A
  failed : Result A
  exited : ℕ → Result A
  panicked : Result A

-- A computation over the state of the kernel.
abbrev pub Io : Type 0 → Type 0 → Type 0
Io K A = K → K × Result A

abbrev pub continue : {K A B : Type 0} → K × Result A → (A → Io K B) → K × Result B
continue (k, ok a) f = f a k
continue (k, failed) f = (k, failed)
continue (k, exited status) f = (k, exited status)
continue (k, panicked) f = (k, panicked)

infixl 5 ◌>>=◌ ◌>>◌
abbrev pub ◌>>=◌ : {K A B : Type 0} → Io K A → (A → Io K B) → Io K B
◌>>=◌ m f k = continue (m k) f

abbrev pub ◌>>◌ : {K A B : Type 0} → Io K A → Io K B → Io K B
m >> n = m >>= λ _. n

abbrev pub pure : {K A : Type 0} → A → Io K A
pure a k = (k, ok a)

-- `….unwrap()`
abbrev pub unwrapped : {A : Type 0} → Result A → Result A
unwrapped failed = panicked
unwrapped r = r

abbrev pub unwrap : {K A : Type 0} → Io K A → Io K A
unwrap m k = let (k', r) = m k in (k', unwrapped r)

pub data Flags : Type 0 where
  rdwr_nonblock wronly_nonblock rdonly_nonblock rdonly : Flags

-- The calls of the C library: their errors are `none`, `refused` and `write_failed`. `read_file` takes
-- the size of the buffer, `clock` gives seconds and nanoseconds, and `behind` is what lies behind the
-- bytes of a `String` in memory, up to the next 0.
pub record Libc : Type 1 where
  pub Kernel : Type 0
  pub open_file : Text → Flags → Kernel → Kernel × Option ℕ
  pub close : ℕ → Kernel → Kernel
  pub ioctl : ℕ → Request → Kernel → Kernel × Answer
  pub write : ℕ → List ℕ → Kernel → Kernel × WriteResult
  pub read_file : ℕ → ℕ → Kernel → Kernel × Option (List ℕ)
  pub read_dir : Text → Kernel → Option (List DirEntry)
  pub clock : Kernel → Kernel × (ℕ × ℕ)
  pub behind : Text → Text

-- `LoggedInputEvent`
pub record LoggedInputEvent : Type 0 where
  pub tv_sec : ℕ
  pub tv_nsec : ℕ
  pub duration_usec : ℕ
  pub type_ : ℕ
  pub code : ℕ
  pub value : ℕ
  pub send_and_receive_match : Bool

pub record DeviceState : Type 0 where
  pub uinput_fd : ℕ
  pub sysname : Text
  pub device_name : Text
  pub event_device_node : Text
  pub event_device_fd : ℕ
  pub events : List LoggedInputEvent

-- The `uinput_setup` that `setup_device` fills, from zeros. A name of 80 bytes or more would be copied
-- past its end; no program has one.
unfoldable pub usetup : Text → ℕ → ℕ → ℕ → ℕ → UinputSetup
usetup name vendor product bustype ff_effects_max = record {
  bustype = bustype;
  vendor = vendor;
  product = product;
  version = 0;
  name = take 80 (name ++ replicate 80 0);
  ff_effects_max = ff_effects_max;
}

-- `duration_usec` of two times of the monotonic clock, which does not go back: the difference of the
-- seconds is no less than 0, that of the nanoseconds may be.
unfoldable pub duration_usec : ℕ × ℕ → ℕ × ℕ → ℕ
duration_usec (sent_sec, sent_nsec) (recv_sec, recv_nsec) =
    if leb sent_nsec recv_nsec
    then (recv_sec - sent_sec) * 1000000 + (recv_nsec - sent_nsec) / 1000
    else (recv_sec - sent_sec) * 1000000 - (sent_nsec - recv_nsec) / 1000

abbrev written_all : WriteResult → Result (Unit {0})
written_all (wrote n) = if n == 24 then ok tt else failed
written_all write_failed = failed

abbrev event_read : Option (List ℕ) → Result InputEvent
event_read none = failed
event_read (some bytes) = if length bytes == 24 then ok (event_at bytes) else failed

abbrev answered : Answer → Result (List ℕ)
answered (done bytes) = ok bytes
answered refused = failed

abbrev opened : Option ℕ → Result ℕ
opened none = failed
opened (some fd) = ok fd

abbrev node_of : Option (Text × Text) → Result Text
node_of none = failed
node_of (some (devname, devnode)) = ok devnode

module _ (L : Libc) where
  -- An ioctl whose error is passed on.
  abbrev pub request : ℕ → Request → Io L.Kernel (List ℕ)
  request fd r k = let (k', answer) = L.ioctl fd r k in (k', answered answer)

  abbrev pub close_fd : ℕ → Io L.Kernel (Unit {0})
  close_fd fd k = (L.close fd k, ok tt)

  unfoldable pub emit : ℕ → ℕ → ℕ → ℕ → Io L.Kernel (Unit {0})
  emit fd ev_type code val k =
      let (k', written) =
        L.write fd
          (bytes_of (record { tv_sec = 0; tv_usec = 0; type_ = ev_type; code = code; value = val }))
          k in
      (k', written_all written)

  unfoldable pub read_event : ℕ → Io L.Kernel InputEvent
  read_event event_dev_fd k =
      let (k', read) = L.read_file event_dev_fd 24 k in (k', event_read read)

  unfoldable pub monotonic_time : Io L.Kernel (ℕ × ℕ)
  monotonic_time k = let (k', now) = L.clock k in (k', ok now)

  abbrev when : Bool → Io L.Kernel (Unit {0}) → Io L.Kernel (Unit {0})
  when true m = m
  when false m = pure tt

  unfoldable pub emit_read_and_log : ℕ → ℕ → ℕ → ℕ → ℕ → Bool → Io L.Kernel LoggedInputEvent
  unfolding emit read_event monotonic_time duration_usec
  emit_read_and_log emit_to read_from ev_type code val emit_syn = do
    sent ← monotonic_time
    emit emit_to ev_type code val
    when emit_syn (emit emit_to ev_syn 0 0)
    input_event_recv ← unwrap (read_event read_from)
    when emit_syn (unwrap (read_event read_from) >> pure tt)
    recv ← monotonic_time
    pure (record {
      tv_sec = sent.0;
      tv_nsec = sent.1;
      duration_usec = duration_usec sent recv;
      type_ = ev_type;
      code = code;
      value = val;
      send_and_receive_match =
          input_event_recv.type_ == ev_type
          && input_event_recv.code == code
          && input_event_recv.value == val;
    })

  abbrev device_or_default : Option Text → Text
  device_or_default none = codes "/dev/uinput"
  device_or_default (some dev_path) = dev_path

  unfoldable pub open_uinput : Option Text → Io L.Kernel ℕ
  open_uinput device k =
      let (k', fd) = L.open_file (device_or_default device) rdwr_nonblock k in (k', opened fd)

  unfoldable pub fetch_device_node : Text → Io L.Kernel Text
  fetch_device_node sysname k =
      (k, node_of (Lookup.fetch_device_node (λ path. L.read_dir path k) sysname))

  unfoldable pub setup_device : ℕ → Text → ℕ → ℕ → ℕ → ℕ → Io L.Kernel (Unit {0})
  unfolding usetup
  setup_device uinput_fd name vendor product bustype ff_effects_max =
      request uinput_fd (ui_dev_setup (usetup name vendor product bustype ff_effects_max))
      >> pure tt

  unfoldable pub get_sysname : ℕ → Io L.Kernel Text
  get_sysname uinput_fd = request uinput_fd ui_get_sysname >>= λ resultbuf.
      pure (codes "/sys/devices/virtual/input/" ++ c_str resultbuf)
