-- ===== src/Client/Programs.antt =====
-- The programs that drive a device by themselves: vuinputd-tests/src/bin/test-keyboard.rs and the
-- examples vuinput-examples/src/bin/keyboard-advanced.rs, mouse-advanced.rs and mouse-reuse.rs.
use vuinputd.Prelude.{
  ℕ, zero, suc, ◌+◌, ◌%◌, true, Option, none, some, List, [], ◌∷◌, leb, if◌then◌else◌,
}
use vuinputd.Prelude.Text.{Text, codes}
use vuinputd.Input.{ev_syn, ev_key}
use vuinputd.Device.{
  Request, ev, key, rel, ui_set_bit, ui_dev_setup, ui_dev_create, ui_dev_destroy, ui_get_sysname,
  ui_get_version,
}
use vuinputd.Write.Legacy.{bus_usb}
use vuinputd.Client
use vuinputd.Client.{
  Result, ok, failed, exited, panicked, Io, ◌>>=◌, ◌>>◌, pure, unwrap, Flags, wronly_nonblock,
  rdonly, Libc, LoggedInputEvent, usetup, request, close_fd, emit_read_and_log, fetch_device_node,
  get_sysname, opened,
}
use vuinputd.Client.Devices.{set_standard_keyboard_keys, requests}

abbrev path_of : Option Text → Text
path_of none = codes "/dev/uinput"
path_of (some device) = device

-- `std::env::args()`: the second of exactly two is the device.
abbrev pub device_argument : List Text → Option Text
device_argument (program ∷ device ∷ []) = some device
device_argument _ = none

abbrev exit_with : {A : Type 0} → ℕ → Result A → Result A
exit_with status failed = exited status
exit_with status r = r

-- The program has a copy of the table of keys, and so has the example.
unfoldable pub test_keyboard_keys : List Request
test_keyboard_keys = set_standard_keyboard_keys

unfoldable pub example_keyboard_keys : List Request
example_keyboard_keys = set_standard_keyboard_keys

abbrev minus_five : ℕ
minus_five = 4294967291

module _ (L : Libc) where
  -- `unwrap_or_else(|e| { …; exit(1) })`
  abbrev or_exit : {A : Type 0} → Io L.Kernel A → Io L.Kernel A
  or_exit m k = let (k', r) = m k in (k', exit_with 1 r)

  abbrev close_failed : {A : Type 0} → ℕ → L.Kernel × Result A → L.Kernel × Result A
  close_failed fd (k, failed) = (L.close fd k, exited 1)
  close_failed fd (k, r) = (k, r)

  -- The same with the descriptor closed before.
  abbrev or_close : {A : Type 0} → ℕ → Io L.Kernel A → Io L.Kernel A
  or_close fd m k = close_failed fd (m k)

  open_device : Option Text → Io L.Kernel ℕ
  open_device device k =
      let (k', fd) = L.open_file (path_of device) wronly_nonblock k in (k', opened fd)

  -- Each program sets up its device under the same name and identity.
  example_setup : Request
  unfolding usetup
  example_setup = ui_dev_setup (usetup (codes "Example device") 0xbeef 0xdead bus_usb 0)

  setup_and_create : ℕ → Io L.Kernel (Unit {0})
  unfolding example_setup
  setup_and_create fd =
      or_close fd (request L fd example_setup)
      >> or_close fd (request L fd ui_dev_create)
      >> pure tt

  -- The example programs give types and codes of i32, which are cut to u16.
  unfoldable pub emit : ℕ → ℕ → ℕ → ℕ → Io L.Kernel (Unit {0})
  emit fd ev_type code val = Client.emit L fd (ev_type % 65536) (code % 65536) val

  -- test-keyboard.rs sends the report behind every event.
  unfoldable pub emit_and_read : ℕ → ℕ → ℕ → ℕ → ℕ → Io L.Kernel LoggedInputEvent
  emit_and_read emit_to read_from ev_type code val =
      emit_read_and_log L emit_to read_from ev_type code val true

  destroy_and_close : ℕ → Io L.Kernel (Unit {0})
  destroy_and_close fd = or_close fd (request L fd ui_dev_destroy) >> close_fd L fd

  open_node : Text → Io L.Kernel ℕ
  open_node devnode k = let (k', fd) = L.open_file devnode rdonly k in (k', opened fd)

  -- `main` of test-keyboard.rs; the value is the log. The file of the event device is closed where it
  -- goes out of scope.
  unfoldable pub test_keyboard : Option Text → Io L.Kernel (List LoggedInputEvent)
  unfolding open_device setup_and_create destroy_and_close open_node emit_and_read
  test_keyboard dev_path = do
    fd ← open_device dev_path
    or_exit (request L fd ui_get_version)
    or_exit (requests L fd test_keyboard_keys)
    setup_and_create fd
    sysname ← unwrap (get_sysname L fd)
    devnode ← unwrap (fetch_device_node L sysname)
    event_device ← unwrap (open_node devnode)
    ev₁ ← emit_and_read fd event_device ev_key 57 1
    ev₂ ← emit_and_read fd event_device ev_key 57 0
    destroy_and_close fd
    close_fd L event_device
    pure (ev₁ ∷ ev₂ ∷ [])

  -- `main` of keyboard-advanced.rs.
  unfoldable pub keyboard_advanced : List Text → Io L.Kernel (Unit {0})
  unfolding open_device setup_and_create destroy_and_close emit
  keyboard_advanced args = do
    fd ← open_device (device_argument args)
    or_exit (request L fd ui_get_version)
    or_exit (requests L fd example_keyboard_keys)
    setup_and_create fd
    unwrap (request L fd ui_get_sysname)
    emit fd ev_key 57 1
    emit fd ev_syn 0 0
    emit fd ev_key 57 0
    emit fd ev_syn 0 0
    destroy_and_close fd

  -- What the two mouse programs ask for.
  mouse_bits : ℕ → Io L.Kernel (Unit {0})
  mouse_bits fd =
      or_exit (request L fd (ui_set_bit ev 1))
      >> or_exit (request L fd (ui_set_bit key 272))
      >> or_exit (request L fd (ui_set_bit ev 2))
      >> or_exit (request L fd (ui_set_bit rel 0))
      >> or_exit (request L fd (ui_set_bit rel 1))
      >> pure tt

  -- One move of the mouse in both axes, forth or back, and the report.
  move_mouse : ℕ → ℕ → Io L.Kernel (Unit {0})
  unfolding emit
  move_mouse fd n =
      let distance : ℕ = if leb (n % 10) 5 then 5 else minus_five in
      emit fd 2 0 distance >> emit fd 2 1 distance >> emit fd ev_syn 0 0

  -- `for n in first..`, for as many rounds.
  unfoldable pub move_loop : ℕ → ℕ → ℕ → Io L.Kernel (Unit {0})
  unfolding move_mouse
  move_loop zero first fd = pure tt
  move_loop (suc rounds) first fd = move_mouse fd first >> move_loop rounds (first + 1) fd

  -- `main` of mouse-advanced.rs.
  unfoldable pub mouse_advanced : List Text → Io L.Kernel (Unit {0})
  unfolding open_device mouse_bits setup_and_create move_loop destroy_and_close
  mouse_advanced args = do
    fd ← open_device (device_argument args)
    or_exit (request L fd ui_get_version)
    mouse_bits fd
    setup_and_create fd
    unwrap (request L fd ui_get_sysname)
    move_loop 2999 1 fd
    destroy_and_close fd

  -- `main` of mouse-reuse.rs: the device is created anew on the same descriptor, without its bits.
  unfoldable pub mouse_reuse : List Text → Io L.Kernel (Unit {0})
  unfolding open_device mouse_bits setup_and_create move_loop
  mouse_reuse args = do
    fd ← open_device (device_argument args)
    or_exit (request L fd ui_get_version)
    mouse_bits fd
    setup_and_create fd
    unwrap (request L fd ui_get_sysname)
    move_loop 9 1 fd
    or_close fd (request L fd ui_dev_destroy)
    setup_and_create fd
    move_loop 9 1 fd
    or_close fd (request L fd ui_dev_destroy)
    close_fd L fd
