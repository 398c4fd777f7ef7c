-- ===== src/Tests/Clients.antt =====
-- The test client and the daemon.
use vuinputd.Prelude.{
  ◌≡◌, ◌+◌, ◌*◌, ◌<◌, false, true, refl, map, some, none, List, [], ◌∷◌, ◌++◌, arith, All,
}
use vuinputd.Prelude.Text.{codes}
use vuinputd.Fuse.{returned, ◌>>=◌}
use vuinputd.Device.{Request, ui_dev_setup}
use vuinputd.Ioctl.Handler.{Host}
use vuinputd.Client.{usetup, duration_usec}
use vuinputd.Client.Devices.{setup_mouse_absolute}
use vuinputd.Client.Durations.{nanoseconds, duration_bounds}
use vuinputd.Client.Transparent.{IsSetup, served, direct, setup_transparent}
use vuinputd.Fuse.{reply_write}
use vuinputd.Input.{InputEvent}
use vuinputd.Policy.{mute_sys_rq, is_allowed}
use vuinputd.Device.{VuInputState}
use vuinputd.Write.Bytes.{bytes_of, event_at}
use vuinputd.Write.Loop.{normal}
use vuinputd.Write.Stream.{permitted, write_all}
use vuinputd.Write.Handler.{vuinput_write}
use vuinputd.Client.Delivered.{emit_each, flat, emit_each_delivered}
use vuinputd.Tests.Fixtures.{
  LogKernel, log_uinput, empty_kernel, host_namespaces, opened, device, key_event,
}

abbrev host : Host
host = record {
  self_namespaces = host_namespaces;
  read_dir = λ path. none;
  metadata = λ path. none;
}

-- What the test of the absolute mouse asks for, up to the creation of the device.
abbrev mouse_requests : List Request
mouse_requests =
    setup_mouse_absolute ++ (ui_dev_setup (usetup (codes "Test mouse") 0xbeef 0xdead 3 0) ∷ [])

mouse-IsSetup : All IsSetup mouse_requests
unfolding setup_mouse_absolute usetup
mouse-IsSetup = omega arith

setup_transparent_example :
    served (log_uinput 100) host mouse_requests (opened false none) empty_kernel ≡ (
      direct (log_uinput 100) host mouse_requests 7 empty_kernel >>= λ k'.
      returned (opened false none, k'))
setup_transparent_example =
    setup_transparent (log_uinput 100) host mouse_requests (opened false none) empty_kernel
      mouse-IsSetup

duration_bounds_example :
    let logged = duration_usec (5, 999999999) (6, 1) * 1000 in
    (nanoseconds (6, 1) < nanoseconds (5, 999999999) + logged + 1000)
    × (nanoseconds (5, 999999999) + logged < nanoseconds (6, 1) + 1000)
duration_bounds_example = duration_bounds 5 999999999 6 1 (omega arith) (omega arith) (omega arith)

abbrev file : VuInputState
file = opened false (some device)

-- A SysRq key, which the policy blocks, and a space.
abbrev keys : List InputEvent
keys = key_event 99 1 ∷ key_event 57 1 ∷ []

abbrev one_written : LogKernel
one_written = record { writes = bytes_of (key_event 57 1) ∷ []; requests = [] }

one_taken :
    write_all
      (log_uinput 100)
      file.file
      (permitted mute_sys_rq normal file.keytracker (map bytes_of keys)).1
      empty_kernel
    ≡ (one_written, true)
unfolding is_allowed normal bytes_of event_at
one_taken = refl

emit_each_delivered_example :
    (emit_each (log_uinput 100) mute_sys_rq 3 keys file none empty_kernel
      ≡ returned (record {
        state = record file {
          keytracker = (permitted mute_sys_rq normal file.keytracker (map bytes_of keys)).0;
        };
        last_error = none;
        kernel = one_written;
        calls = reply_write 24 ∷ reply_write 24 ∷ [];
      }))
    × (vuinput_write (log_uinput 100) mute_sys_rq 3 0 (flat keys) file none empty_kernel
        ≡ returned (record {
          state = record file {
            keytracker = (permitted mute_sys_rq normal file.keytracker (map bytes_of keys)).0;
          };
          last_error = none;
          kernel = one_written;
          calls = reply_write 48 ∷ [];
        }))
emit_each_delivered_example =
    emit_each_delivered (log_uinput 100) mute_sys_rq 3 keys file none empty_kernel refl refl
      one_taken
