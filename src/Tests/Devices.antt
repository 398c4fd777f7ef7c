-- ===== src/Tests/Devices.antt =====
-- An open device: its policy, its polls and its writes.
use vuinputd.Prelude.{
  ℕ, ◌≡◌, refl, true, false, none, some, List, [], ◌∷◌, ◌++◌, arith, inl, All, replicate, length,
  ◌==◌, if◌then◌else◌,
}
use vuinputd.Fuse.{reply_write, reply_err, Errno, returned, panicked, ◌>>=◌}
use vuinputd.Input.{KeyTracker}
use vuinputd.Policy.{DevicePolicy, is_allowed}
use vuinputd.Policy.Order.{allows, allows_mono}
use vuinputd.Policy.History.{tracker_after, sanitized_exact, vt_switch}
use vuinputd.Poll.{ReadResult, vuinput_poll, new_poll_state}
use vuinputd.Poll.Runs.{PollOp, poll, read, watch, run, close}
use vuinputd.Poll.Handles.{live, handles_released}
use vuinputd.Poll.Readiness.{answers, poll_answer}
use vuinputd.Write.Bytes.{event_at, compat_at, map_to_64_bit, bytes_of, compat_roundtrip}
use vuinputd.Write.Stream.{entries, permitted}
use vuinputd.Write.Handler.{layout_of, vuinput_write}
use vuinputd.Write.Handler.Delivery.{write_delivers, write_stops}
use vuinputd.Write.Handler.SysRq.{IsSysRq, no_sysrq}
use vuinputd.Write.Handler.Setup.{request_all, setup_requests, legacy_write}
use vuinputd.Tests.Fixtures.{
  log_uinput, empty_kernel, device, opened, no_keys, key_event, compat_key, key_bytes,
}

-- A gamepad button passes the strict policy, and so the sanitized one.
allows_mono_example : allows DevicePolicy.sanitized no_keys (key_event 304 1) ≡ true
unfolding allows is_allowed
allows_mono_example =
    allows_mono DevicePolicy.strict_gamepad DevicePolicy.sanitized no_keys (key_event 304 1)
      (omega arith) refl

-- Alt is held, and F2 is pressed.
sanitized_exact_example :
    (is_allowed (tracker_after (key_event 56 1 ∷ [])) DevicePolicy.sanitized (key_event 60 1)).1
    ≡ false
sanitized_exact_example =
    (sanitized_exact (key_event 56 1 ∷ []) (key_event 60 1)).1
      (refl, vt_switch (inl refl) (inl (omega arith)))

abbrev polls : List PollOp
polls =
    poll (some 10)
    ∷ poll (some 11)
    ∷ watch
    ∷ poll (some 12)
    ∷ read false (ReadResult.bytes_read (replicate 24 0))
    ∷ read false ReadResult.would_block
    ∷ poll (some 13)
    ∷ []

handles_released_example :
    live 13 ((run new_poll_state polls).1 ++ close (run new_poll_state polls).0) 0 ≡ some 0
handles_released_example = handles_released polls 13

poll_answer_example :
    answers (vuinput_poll (some 14) (run new_poll_state (watch ∷ [])).0).1 ≡ 1 ∷ []
poll_answer_example = poll_answer (watch ∷ []) (some 14)

compat_roundtrip_example :
    event_at (bytes_of (map_to_64_bit (compat_at (compat_key 30 1))))
    ≡ map_to_64_bit (compat_at (compat_key 30 1))
compat_roundtrip_example = (compat_roundtrip (compat_key 30 1) (omega arith)).0

-- SysRq, the letter A, and two stray bytes.
abbrev buffer : List ℕ
buffer = key_bytes 99 1 ++ (key_bytes 30 1 ++ (0 ∷ 0 ∷ []))

write_delivers_example :
    vuinput_write
      (log_uinput 10)
      DevicePolicy.mute_sys_rq
      5
      0
      buffer
      (opened false (some device))
      none
      empty_kernel
    ≡ returned (record {
      state = opened false (some device);
      last_error = none;
      kernel = record { writes = key_bytes 30 1 ∷ []; requests = [] };
      calls = reply_write 48 ∷ [];
    })
unfolding layout_of event_at is_allowed
write_delivers_example =
    write_delivers (log_uinput 10) DevicePolicy.mute_sys_rq 5 buffer (opened false (some device))
      none empty_kernel refl refl

write_stops_example :
    (keytracker : KeyTracker) × (vuinput_write
        (log_uinput 1)
        DevicePolicy.none
        5
        0
        buffer
        (opened false (some device))
        none
        empty_kernel
      ≡ returned (record {
        state = record (opened false (some device)) { keytracker = keytracker };
        last_error = some 5;
        kernel = record { writes = key_bytes 99 1 ∷ []; requests = [] };
        calls = reply_err Errno.eio ∷ [];
      }))
unfolding layout_of event_at is_allowed
write_stops_example =
    write_stops (log_uinput 1) DevicePolicy.none 5 buffer (opened false (some device)) none
      empty_kernel refl refl

no_sysrq_example :
    All
      (λ r. ¬ IsSysRq (event_at r))
      (permitted DevicePolicy.mute_sys_rq
        (layout_of true)
        no_keys
        (entries 2 (layout_of true).size (compat_key 99 1 ++ compat_key 30 1))).1
no_sysrq_example =
    no_sysrq DevicePolicy.mute_sys_rq true no_keys 2 (compat_key 99 1 ++ compat_key 30 1) (λ e. cc)
      (omega arith)

-- A legacy setup with one axis, from 0 to 1.
abbrev one_axis : List ℕ
one_axis = replicate 92 0 ++ (1 ∷ replicate 1023 0)

legacy_write_example :
    vuinput_write
      (log_uinput 1)
      DevicePolicy.none
      5
      0
      one_axis
      (opened false none)
      none
      empty_kernel
    ≡ (if length one_axis == 1116
        then (request_all (log_uinput 1) 7 (setup_requests one_axis) empty_kernel >>= λ k.
            returned (record {
              state = opened false none;
              last_error = none;
              kernel = k;
              calls = reply_write (length one_axis) ∷ [];
            }))
        else panicked)
legacy_write_example =
    legacy_write (log_uinput 1) DevicePolicy.none 5 one_axis (opened false none) none empty_kernel
      refl
