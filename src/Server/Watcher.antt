-- ===== src/Server/Watcher.antt =====
-- The watcher as its owner sees it: `EvdevWriteWatcher` (vuinputd/src/cuse_device/evdev_write_watcher.rs).
-- What its thread does for one event is `handle_watch`, which stands among the requests of Server/Runs.
use vuinputd.Prelude.{Bool, true, false}

-- The fields that `stop` and `is_running` use: the flag that the thread reads, and its handle.
pub record EvdevWriteWatcher : Type 0 where
  pub shutdown : Bool
  pub thread_handle : Bool

unfoldable pub new_watcher : EvdevWriteWatcher
new_watcher = record { shutdown = false; thread_handle = true }

-- The thread is joined where it has not been before.
unfoldable pub stop : EvdevWriteWatcher → EvdevWriteWatcher
stop w = record w { shutdown = true; thread_handle = false }

unfoldable pub is_running : EvdevWriteWatcher → Bool
is_running w = w.thread_handle
