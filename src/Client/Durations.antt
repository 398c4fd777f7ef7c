-- ===== src/Client/Durations.antt =====
-- The duration that the tests log for an event (vuinputd-tests/src/devices/device_base.rs).
use vuinputd.Prelude.{ℕ, ◌+◌, ◌*◌, ◌<◌, ◌≤◌, arith}
use vuinputd.Client.{duration_usec}

-- The time in nanoseconds.
abbrev pub nanoseconds : ℕ × ℕ → ℕ
nanoseconds (sec, nsec) = sec * 1000000000 + nsec

-- For two readings of the monotonic clock, the second not before the first, the logged duration is the
-- time between them to less than a microsecond, also where the nanoseconds of the second are fewer.
pub duration_bounds :
    (sent_sec sent_nsec recv_sec recv_nsec : ℕ)
    → sent_nsec < 1000000000
    → recv_nsec < 1000000000
    → nanoseconds (sent_sec, sent_nsec) ≤ nanoseconds (recv_sec, recv_nsec)
    → let logged = duration_usec (sent_sec, sent_nsec) (recv_sec, recv_nsec) * 1000 in
      (nanoseconds (recv_sec, recv_nsec) < nanoseconds (sent_sec, sent_nsec) + logged + 1000)
      × (nanoseconds (sent_sec, sent_nsec) + logged < nanoseconds (recv_sec, recv_nsec) + 1000)
unfolding duration_usec
duration_bounds a b c d h k le = ground arith
