-- ===== src/Client/Devices.antt =====
-- The devices of the tests: what each asks for before it is created, and how it is created and
-- destroyed (vuinputd-tests/src/devices: keyboard.rs, mouse.rs, mouse_absolute.rs, ps4_gamepad.rs,
-- xbox_gamepad.rs).
use vuinputd.Prelude.{ℕ, Option, List, [], ◌∷◌, ◌++◌, map}
use vuinputd.Prelude.Text.{Text}
use vuinputd.Device.{
  Request, UinputAbsSetup, ev, key, rel, abs, ff, prop, ui_set_bit, ui_abs_setup, ui_dev_create,
  ui_dev_destroy,
}
use vuinputd.Write.Bytes.{to_le}
use vuinputd.Write.Legacy.{bus_usb}
use vuinputd.Input.{ev_syn, ev_key, ev_abs, ev_ff, btn_south, btn_thumbr}
use vuinputd.Client.{
  ok, failed, exited, Io, ◌>>=◌, ◌>>◌, pure, Flags, rdonly_nonblock, rdwr_nonblock, Libc,
  DeviceState, request, close_fd, open_uinput, fetch_device_node, setup_device, get_sysname, opened,
}
use vuinputd.Client.Keys.{code, all_keys}

abbrev ev_rel : ℕ
ev_rel = 2

-- The bytes of a `uinput_abs_setup`; the two between the code and the axis are padding. A number below
-- 0 is its bit pattern.
abbrev pub abs_bytes : UinputAbsSetup → List ℕ
abs_bytes s =
    to_le 2 s.code
    ++ (0
        ∷ 0
        ∷ (to_le 4 s.value
            ++ (to_le 4 s.minimum
                ++ (to_le 4 s.maximum
                    ++ (to_le 4 s.fuzz ++ (to_le 4 s.flat ++ to_le 4 s.resolution))))))

abbrev pub axis : ℕ → ℕ → ℕ → ℕ → ℕ → ℕ → Request
axis code minimum maximum fuzz flat resolution = ui_abs_setup (
    abs_bytes (record {
      code = code;
      value = 0;
      minimum = minimum;
      maximum = maximum;
      fuzz = fuzz;
      flat = flat;
      resolution = resolution;
    }))

unfoldable pub set_standard_keyboard_keys : List Request
unfolding all_keys code
set_standard_keyboard_keys = ui_set_bit ev ev_key ∷ map (λ k. ui_set_bit key (code k)) all_keys

unfoldable pub setup_mouse : List Request
setup_mouse =
    ui_set_bit ev ev_syn
    ∷ ui_set_bit ev ev_key
    ∷ ui_set_bit key 272
    ∷ ui_set_bit key 273
    ∷ ui_set_bit key 274
    ∷ ui_set_bit ev ev_rel
    ∷ ui_set_bit rel 0
    ∷ ui_set_bit rel 1
    ∷ []

-- `INPUT_PROP_DIRECT` is 1.
unfoldable pub setup_mouse_absolute : List Request
setup_mouse_absolute =
    ui_set_bit ev ev_syn
    ∷ ui_set_bit prop 1
    ∷ ui_set_bit ev ev_key
    ∷ ui_set_bit key 272
    ∷ ui_set_bit ev ev_abs
    ∷ ui_set_bit abs 0
    ∷ ui_set_bit abs 1
    ∷ axis 0 0 19200 1 0 28
    ∷ axis 1 0 12000 1 0 28
    ∷ []

abbrev key_bits : List ℕ → List Request
key_bits codes = map (ui_set_bit key) codes

abbrev abs_bits : List ℕ → List Request
abs_bits codes = map (ui_set_bit abs) codes

unfoldable pub setup_ps4_gamepad : List Request
setup_ps4_gamepad =
    (ui_set_bit ev ev_syn ∷ ui_set_bit ev ev_key ∷ [])
    ++ (key_bits (
          304 ∷ 305 ∷ 306 ∷ 307 ∷ 310 ∷ 311 ∷ 312 ∷ 313 ∷ 314 ∷ 315 ∷ 316 ∷ 317 ∷ 318 ∷ 319 ∷ 320
          ∷ 321 ∷ 322 ∷ 323 ∷ 325 ∷ 326 ∷ 327 ∷ 328 ∷ [])
        ++ (ui_set_bit ev ev_abs ∷ abs_bits (0 ∷ 1 ∷ 3 ∷ 4 ∷ 24 ∷ 32 ∷ [])))

-- `-1` and `-32768`
abbrev minus_one : ℕ
minus_one = 4294967295

abbrev lowest_i16 : ℕ
lowest_i16 = 4294934528

unfoldable pub setup_xbox_gamepad : List Request
setup_xbox_gamepad =
    (ui_set_bit ev ev_syn ∷ ui_set_bit ev ev_key ∷ [])
    ++ (key_bits (
          0x134 ∷ 0x131 ∷ 0x133 ∷ btn_south ∷ 0x13d ∷ btn_thumbr ∷ 0x137 ∷ 0x136 ∷ 0x13a ∷ 0x13c
          ∷ 0x13b ∷ [])
        ++ (ui_set_bit ev ev_abs
            ∷ axis 0x11 minus_one 1 0 0 0
            ∷ axis 0x10 minus_one 1 0 0 0
            ∷ axis 0 lowest_i16 32767 16 128 0
            ∷ axis 3 lowest_i16 32767 16 128 0
            ∷ axis 1 lowest_i16 32767 16 128 0
            ∷ axis 4 lowest_i16 32767 16 128 0
            ∷ axis 2 0 255 0 0 0
            ∷ axis 5 0 255 0 0 0
            ∷ ui_set_bit ev ev_ff
            ∷ map (ui_set_bit ff) (0x50 ∷ 0x52 ∷ 0x51 ∷ 0x5a ∷ 0x57 ∷ 0x60 ∷ [])))

module _ (L : Libc) where
  -- Requests, one after the other, up to the first error.
  unfoldable pub requests : ℕ → List Request → Io L.Kernel (Unit {0})
  requests fd [] = pure tt
  requests fd (r ∷ rs) = request L fd r >> requests fd rs

  -- The path that is opened goes on behind the end of the node's name, which ends in no 0.
  open_event : Text → Flags → Io L.Kernel ℕ
  open_event node flags k =
      let (k', fd) = L.open_file (node ++ L.behind node) flags k in (k', opened fd)

  -- `create`, which the devices share but for their requests, the number of their effects and the way
  -- in which they open the event device.
  create : List Request → ℕ → Flags → Option Text → Text → Io L.Kernel DeviceState
  unfolding requests open_event
  create setup ff_effects_max flags device name = do
    fd ← open_uinput L device
    requests fd setup
    setup_device L fd name 0xbeef 0xdead bus_usb ff_effects_max
    request L fd ui_dev_create
    sysname ← get_sysname L fd
    event_device_node ← fetch_device_node L sysname
    event_device_fd ← open_event event_device_node flags
    pure (record {
      uinput_fd = fd;
      sysname = sysname;
      device_name = name;
      event_device_node = event_device_node;
      event_device_fd = event_device_fd;
      events = [];
    })

  unfoldable pub keyboard_create : Option Text → Text → Io L.Kernel DeviceState
  unfolding create
  keyboard_create = create set_standard_keyboard_keys 0 rdonly_nonblock

  unfoldable pub mouse_create : Option Text → Text → Io L.Kernel DeviceState
  unfolding create
  mouse_create = create setup_mouse 0 rdonly_nonblock

  unfoldable pub mouse_absolute_create : Option Text → Text → Io L.Kernel DeviceState
  unfolding create
  mouse_absolute_create = create setup_mouse_absolute 0 rdonly_nonblock

  unfoldable pub ps4_gamepad_create : Option Text → Text → Io L.Kernel DeviceState
  unfolding create
  ps4_gamepad_create = create setup_ps4_gamepad 10 rdonly_nonblock

  unfoldable pub xbox_gamepad_create : Option Text → Text → Io L.Kernel DeviceState
  unfolding create
  xbox_gamepad_create = create setup_xbox_gamepad 10 rdwr_nonblock

  -- An error of the request ends the program.
  abbrev or_exit : Io L.Kernel (List ℕ) → Io L.Kernel (Unit {0})
  or_exit m k = let (k', r) = m k in elim r [ failed ↦ (k', exited 1) | _ ↦ (k', ok tt) ]

  unfoldable pub destroy : DeviceState → Io L.Kernel (Unit {0})
  destroy state =
      or_exit (request L state.uinput_fd ui_dev_destroy)
      >> close_fd L state.uinput_fd
      >> close_fd L state.event_device_fd
