-- ===== src/Write/Loop.antt =====
-- The two loops of `vuinput_write` (vuinputd/src/cuse_device/vuinput_write.rs). They differ in the
-- size of an entry and in the record that is written for it, and are one function over a layout.
use vuinputd.Prelude.{
  ℕ, zero, suc, ◌+◌, Bool, true, false, ◌&&◌, Option, none, some, List, leb, length, take, drop,
  if◌then◌else◌,
}
use vuinputd.Input.{InputEvent, KeyTracker}
use vuinputd.Policy.{DevicePolicy, is_allowed}
use vuinputd.Device.{Uinput, WriteResult, wrote, write_failed}
use vuinputd.Write.Bytes.{event_at, compat_at, map_to_64_bit, bytes_of}

pub record Layout : Type 0 where
  pub size : ℕ
  pub event : List ℕ → InputEvent
  pub written : List ℕ → List ℕ

-- `size_of::<input_event>()`; the entry itself is written.
unfoldable pub normal : Layout
normal = record { size = 24; event = event_at; written = λ entry. entry }

-- `size_of::<input_event_compat>()`; the entry is widened first.
unfoldable pub compat : Layout
compat = record {
  size = 16;
  event = λ entry. map_to_64_bit (compat_at entry);
  written = λ entry. bytes_of (map_to_64_bit (compat_at entry));
}

abbrev pub is_ok : WriteResult → Bool
is_ok (wrote n) = true
is_ok write_failed = false

module _ (U : Uinput) where
  -- The variables of the loop: `bytes`, `result`, the key tracker, and the kernel.
  pub record LoopState : Type 0 where
    pub bytes : ℕ
    pub result : WriteResult
    pub keytracker : KeyTracker
    pub kernel : U.Kernel

  module _ (fd : ℕ) (policy : DevicePolicy) (l : Layout) (buf : List ℕ) where
    -- The body of the loop for the entry at `bytes`.
    unfoldable pub body : LoopState → LoopState
    body s =
        let entry = take l.size (drop s.bytes buf) in
        let (keytracker, allowed) = is_allowed s.keytracker policy (l.event entry) in
        let (kernel, result) =
          if allowed then U.write fd (l.written entry) s.kernel else (s.kernel, s.result) in
        record {
          bytes = s.bytes + l.size;
          result = result;
          keytracker = keytracker;
          kernel = kernel;
        }

    -- `while bytes + size <= _size && result.is_ok()`, with fuel; `none`: the fuel ran out.
    unfoldable pub write_loop : ℕ → LoopState → Option LoopState
    unfolding body
    write_loop zero s = none
    write_loop (suc fuel) s =
        let rest = write_loop fuel (body s) in
        if leb (s.bytes + l.size) (length buf) && is_ok s.result then rest else some s
