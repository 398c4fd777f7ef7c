-- ===== src/Tests/Hosts.antt =====
-- What the daemon reads of its host and changes on it.
use vuinputd.Prelude.{
  ℕ, ◌≡◌, refl, true, false, Option, none, some, List, arith, ap, length, is_some,
}
use vuinputd.Prelude.Text.{Text, codes}
use vuinputd.Fuse.{returned}
use vuinputd.Policy
use vuinputd.Config
use vuinputd.Ioctl.Lookup.{makedev}
use vuinputd.Inject.{System, Stat, fine}
use vuinputd.Inject.Nodes.{IsFileSystem, ensure_input_device, remove_input_device, expected_mode}
use vuinputd.Inject.Nodes.Ensure.{ensure_input_device-node}
use vuinputd.Inject.Nodes.Remove.{remove-ensure_input_device}
use vuinputd.Inject.Netlink.{message_of, properties_of, message_carries}
use vuinputd.Inject.Strategy
use vuinputd.Inject.Strategy.{
  uses_run_folder, injection_strategy, placement_on_host, uses_run_folder_iff,
}
use vuinputd.Args.{Args}
use vuinputd.Args.Main.{Decoders, main}
use vuinputd.Args.Main.Outcome.{IsOutcome, main-IsOutcome}

-- A file system with one path that matters: what stands there.
abbrev pub one_file : System
one_file = record {
  World = Option Stat;
  exists = λ path w. is_some w;
  stat = λ path w. w;
  create_dir_all = λ path w. (w, true);
  create = λ path w. (w, true);
  write_all = λ path text w. (w, true);
  remove_file = λ path w. (none, true);
  mknod = λ path mode dev w. (some (record { is_char = true; st_rdev = dev; perms = 420 }), true);
  set_permissions = λ path mode w.
      (elim w [ none ↦ none | some st ↦ some (record st { perms = mode }) ], is_some w);
  send_netlink = λ groups message w. (w, true);
  start_action = λ action pid user w. (w, some 900);
  await_process = λ pid w. (w, true);
  incus = λ args w. (w, true);
}

pub one_file-IsFileSystem : (path : Text) → IsFileSystem one_file path
one_file-IsFileSystem path = record {
  exists_stat = λ w. refl;
  removal_removes = λ w h. refl;
  mknod_makes =
      λ mode dev w h. (record { is_char = true; st_rdev = dev; perms = 420 }, refl, refl, refl);
  chmod_sets = λ mode w s h. ap (λ o. (one_file.set_permissions path mode o).0) s;
}

abbrev wrong_node : Option Stat
wrong_node = some (record { is_char = true; st_rdev = 99; perms = 438 })

abbrev pub right_node : Option Stat
right_node = some (record { is_char = true; st_rdev = makedev 13 73; perms = expected_mode })

replaced :
    ensure_input_device one_file (codes "/dev/input/event9") 13 73 wrong_node ≡ (right_node, fine)
unfolding ensure_input_device
replaced = refl

ensure_input_device_example : one_file.stat (codes "/dev/input/event9") right_node ≡ right_node
ensure_input_device_example =
    ensure_input_device-node one_file (codes "/dev/input/event9") 13 73 wrong_node
      (one_file-IsFileSystem (codes "/dev/input/event9")) replaced

remove-ensure_input_device_example :
    (w : Option Stat) × (remove_input_device one_file (codes "/dev/input/event9") 13 73 right_node
      ≡ (w, fine))
    × (one_file.stat (codes "/dev/input/event9") w ≡ none)
remove-ensure_input_device_example =
    remove-ensure_input_device one_file (codes "/dev/input/event9") 13 73 wrong_node
      (one_file-IsFileSystem (codes "/dev/input/event9")) replaced refl

message_carries_example :
    (message : List ℕ) × (message_of (codes "ACTION=add") (some (codes "input")) none
      ≡ returned (some message))
    × (properties_of message ≡ codes "ACTION=add")
    × (length message ≡ 50)
message_carries_example = message_carries (codes "ACTION=add") (omega arith)

abbrev daemon_args : Args
daemon_args = record {
  major = some 120;
  minor = some 414795;
  devname = some (codes "vuinput");
  action = none;
  action_base64 = none;
  target_pid = none;
  enter_user_namespace = false;
  vt_guard = false;
  device_policy = Policy.mute_sys_rq;
  placement = none;
  device_owner = Config.auto;
  container_runtime = Strategy.docker;
  target_container = none;
}

-- Libraries that decode nothing.
abbrev no_decoders : Decoders
no_decoders = record { decode = λ text. none; is_utf8 = λ bytes. false }

main-IsOutcome_example : IsOutcome daemon_args (main no_decoders daemon_args)
main-IsOutcome_example = main-IsOutcome no_decoders daemon_args
