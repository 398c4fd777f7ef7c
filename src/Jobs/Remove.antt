-- ===== src/Jobs/Remove.antt =====
-- `MknodDeviceJob` and `RemoveDeviceJob` (vuinputd/src/jobs/mknod_device_job.rs, remove_device_job.rs).
use vuinputd.Prelude.{ℕ, Option, none, some, if◌then◌else◌}
use vuinputd.Prelude.Dict
use vuinputd.Prelude.Dict.{Dict, get-insert_same, get-insert_other}
use vuinputd.Prelude.Text.{Text, codes, text_eq}
use vuinputd.Events
use vuinputd.Events.{Entry, EventStore, Properties}
use vuinputd.Inject.{System, Step, fine, panicked, ◌then?◌, unwrap}
use vuinputd.Inject.Strategy.{Injector}
use vuinputd.Process.{RequestingProcess}

-- What a removal does once it has looked at the store: nothing, because the device has never been
-- announced or has been removed already, an `unwrap` of `none`, or the removal with the properties of
-- its message.
pub data Removal : Type 0 where
  never_announced already_removed no_announcement : Removal
  remove_with : Properties → Removal

abbrev removal_of : Option Entry → Removal
removal_of none = never_announced
removal_of (some e) = if e.tombstone then already_removed else elim e.add_data [
  | none ↦ no_announcement
  | some netlink_data ↦ remove_with (Dict.insert (codes "ACTION") (codes "remove") netlink_data)
]

-- The store is asked once.
unfoldable pub look_up : Text → EventStore → Removal × EventStore
look_up sys_path store =
    let (entry, store') = Events.take sys_path store in (removal_of entry, store')

module _ (S : System) where
  unfoldable pub mknod_device : Injector S → RequestingProcess → Text → ℕ → ℕ → Step S.World
  mknod_device injector p devname major minor =
      unwrap (injector.mknod_device_node p devname major minor)

  unfoldable pub remove_device :
      Injector S → RequestingProcess → Text → ℕ → ℕ → Removal → Step S.World
  remove_device injector p dev_name major minor never_announced = λ w. (w, fine)
  remove_device injector p dev_name major minor already_removed = λ w. (w, fine)
  remove_device injector p dev_name major minor no_announcement = λ w. (w, panicked)
  remove_device injector p dev_name major minor (remove_with netlink_data) =
      unwrap (injector.remove_device_node p dev_name major minor)
      then? unwrap (injector.remove_udev_runtime_data p major minor)
      then? unwrap (injector.emit_netlink_message p netlink_data)
