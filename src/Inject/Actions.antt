-- ===== src/Inject/Actions.antt =====
-- An action in the child process: `handle_action`, and the `handle_cli_action` around it
-- (vuinputd/src/actions/handle_action.rs).
use vuinputd.Prelude.{none, some}
use vuinputd.Prelude.Text.{codes}
use vuinputd.Inject.{
  System, Step, Action, mknod_device, write_udev_runtime_data, emit_netlink_message, remove_device,
  ◌then?◌, unwrap,
}
use vuinputd.Inject.Nodes.{ensure_input_device, remove_input_device}
use vuinputd.Inject.RuntimeData.{ensure_udev_structure, write_udev_data, delete_udev_data}
use vuinputd.Inject.Netlink.{send_udev_monitor_message_with_properties}

module _ (S : System) where
  unfoldable pub handle_action : Action → Step S.World
  handle_action (mknod_device path major minor) = ensure_input_device S path major minor
  handle_action (write_udev_runtime_data (some data_) major minor) =
      ensure_udev_structure S then? write_udev_data S (codes "/run") data_ major minor
  handle_action (write_udev_runtime_data none major minor) =
      ensure_udev_structure S then? delete_udev_data S (codes "/run") major minor
  handle_action (emit_netlink_message netlink_message) =
      send_udev_monitor_message_with_properties S netlink_message
  handle_action (remove_device path major minor) = remove_input_device S path major minor

  -- The action has been parsed; an error panics.
  unfoldable pub handle_cli_action : Action → Step S.World
  unfolding handle_action
  handle_cli_action action = unwrap (handle_action action)
