-- ===== src/Write/Handler.antt =====
-- The whole of `vuinput_write` (vuinputd/src/cuse_device/vuinput_write.rs), for a device whose state
-- has been looked up and locked.
pub mod Delivery
pub mod SysRq
pub mod Setup
use vuinputd.Prelude.{ℕ, suc, Option, none, some, Bool, List, [], ◌∷◌, ◌==◌, length, if◌then◌else◌}
use vuinputd.Fuse.{Errno, FuseCall, reply_write, reply_err, Outcome, panicked, returned, ◌>>=◌}
use vuinputd.Policy.{DevicePolicy}
use vuinputd.Device.{Uinput, VuInputDevice, VuInputState, WriteResult, wrote, write_failed}
use vuinputd.Write.Loop.{Layout, normal, compat, LoopState, write_loop}
use vuinputd.Write.Legacy.{write_legacy}

unfoldable pub layout_of : Bool → Layout
unfolding normal compat
layout_of is_compat = if is_compat then compat else normal

module _ (U : Uinput) where
  -- The locked state, the file handle of the last error (`DEDUP_LAST_ERROR`), the kernel, and the
  -- calls into libfuse.
  pub record Written : Type 0 where
    pub state : VuInputState
    pub last_error : Option ℕ
    pub kernel : U.Kernel
    pub calls : List FuseCall

  -- The `match result` behind the loops.
  reply : ℕ → VuInputState → Option ℕ → LoopState U → WriteResult → Written
  reply fh s last_error t (wrote n) = record {
    state = record s { keytracker = t.keytracker };
    last_error = last_error;
    kernel = t.kernel;
    calls = reply_write t.bytes ∷ [];
  }
  reply fh s last_error t write_failed = record {
    state = record s { keytracker = t.keytracker };
    last_error = some fh;
    kernel = t.kernel;
    calls = reply_err Errno.eio ∷ [];
  }

  -- `none` would be a loop that has not ended.
  finish : ℕ → VuInputState → Option ℕ → Option (LoopState U) → Outcome Written
  unfolding reply
  finish fh s last_error none = panicked
  finish fh s last_error (some t) = returned (reply fh s last_error t t.result)

  write_events : DevicePolicy → ℕ → List ℕ → VuInputState → Option ℕ → U.Kernel → Outcome Written
  unfolding finish
  write_events policy fh buf s last_error kernel = finish fh s last_error (
      write_loop U s.file policy (layout_of s.requesting_process.is_compat) buf (suc (length buf))
        (record { bytes = 0; result = wrote 0; keytracker = s.keytracker; kernel = kernel }))

  write_to :
      Option VuInputDevice
      → DevicePolicy
      → ℕ
      → List ℕ
      → VuInputState
      → Option ℕ
      → U.Kernel
      → Outcome Written
  unfolding write_events
  write_to none policy fh buf s last_error kernel =
      write_legacy U s.file buf kernel >>= λ (k, calls).
      returned (record { state = s; last_error = last_error; kernel = k; calls = calls })
  write_to (some device) policy fh buf s last_error kernel =
      write_events policy fh buf s last_error kernel

  unfoldable pub vuinput_write :
      DevicePolicy → ℕ → ℕ → List ℕ → VuInputState → Option ℕ → U.Kernel → Outcome Written
  unfolding write_to
  vuinput_write policy fh off buf s last_error kernel =
      if off == 0 then write_to s.input_device policy fh buf s last_error kernel else panicked
