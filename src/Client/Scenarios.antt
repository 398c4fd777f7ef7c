-- ===== src/Client/Scenarios.antt =====
-- The scenarios of the tests (vuinputd-tests/src/scenarios): a device is created, a key is pressed and
-- released, and the device is destroyed.
use vuinputd.Prelude.{ℕ, true, false, Option, none, some, List, [], ◌∷◌, ◌++◌}
use vuinputd.Prelude.Text.{Text, codes}
use vuinputd.Input.{ev_key}
use vuinputd.Client.{Io, ◌>>=◌, ◌>>◌, pure, Libc, DeviceState, LoggedInputEvent, emit_read_and_log}
use vuinputd.Client.Devices.{
  keyboard_create, mouse_create, mouse_absolute_create, ps4_gamepad_create, xbox_gamepad_create,
  destroy,
}

pub record ScenarioArgs : Type 0 where
  pub dev_path : Option Text

abbrev path_of : Option Text → Text
path_of none = codes "/dev/uinput"
path_of (some dev_path) = dev_path

module _ (L : Libc) where
  abbrev logged : DeviceState → LoggedInputEvent → DeviceState
  logged state e = record state { events = state.events ++ (e ∷ []) }

  -- `Device::emit_read_and_log`: written to uinput, read from the event device, and logged.
  unfoldable pub log_event : ℕ → ℕ → ℕ → DeviceState → Io L.Kernel DeviceState
  log_event ev_type code val state =
      emit_read_and_log L state.uinput_fd state.event_device_fd ev_type code val true >>= λ e.
      pure (logged state e)

  -- `Device::emit_to_evdev_read_from_uinput_and_log`, the other way and with no report behind it.
  unfoldable pub log_feedback : ℕ → ℕ → ℕ → DeviceState → Io L.Kernel DeviceState
  log_feedback ev_type code val state =
      emit_read_and_log L state.event_device_fd state.uinput_fd ev_type code val false >>= λ e.
      pure (logged state e)

  -- The scenarios differ in the device, its name and the key; the value is the log.
  press_and_release :
      (Option Text → Text → Io L.Kernel DeviceState)
      → Text
      → ℕ
      → ScenarioArgs
      → Io L.Kernel (List LoggedInputEvent)
  unfolding log_event
  press_and_release create name key args = do
    created ← create (some (path_of args.dev_path)) name
    pressed ← log_event ev_key key 1 created
    released ← log_event ev_key key 0 pressed
    destroy L released
    pure released.events

  unfoldable pub basic_keyboard : ScenarioArgs → Io L.Kernel (List LoggedInputEvent)
  unfolding press_and_release
  basic_keyboard = press_and_release (keyboard_create L) (codes "Example Keyboard") 57

  unfoldable pub basic_mouse : ScenarioArgs → Io L.Kernel (List LoggedInputEvent)
  unfolding press_and_release
  basic_mouse = press_and_release (mouse_create L) (codes "Example Mouse") 272

  unfoldable pub basic_mouse_absolute : ScenarioArgs → Io L.Kernel (List LoggedInputEvent)
  unfolding press_and_release
  basic_mouse_absolute =
      press_and_release (mouse_absolute_create L) (codes "Example Mouse (absolute)") 272

  unfoldable pub basic_ps4_gamepad : ScenarioArgs → Io L.Kernel (List LoggedInputEvent)
  unfolding press_and_release
  basic_ps4_gamepad = press_and_release (ps4_gamepad_create L) (codes "PS4 Gamepad") 304

  unfoldable pub basic_xbox_gamepad : ScenarioArgs → Io L.Kernel (List LoggedInputEvent)
  unfolding press_and_release
  basic_xbox_gamepad = press_and_release (xbox_gamepad_create L) (codes "Xbox Gamepad") 304
