-- ===== src/Args/Main.antt =====
-- What `main` does with arguments (vuinputd/src/main.rs): it runs an action, mutes the keyboard, or
-- serves as the daemon.
pub mod Outcome
use vuinputd.Prelude.{ℕ, Bool, true, Option, none, some, List, ◌++◌, if◌then◌else◌}
use vuinputd.Prelude.Text.{Text, codes}
use vuinputd.Config.{DeviceOwner, GlobalConfig, initialize_global_config}
use vuinputd.Args.{Args, Refused, get_scope, resolve_runtime, validate_args}

-- The decoding of an action, which libraries do: base64, and the check for UTF-8.
pub record Decoders : Type 0 where
  pub decode : Text → Option (List ℕ)
  pub is_utf8 : List ℕ → Bool

-- The process whose namespaces the action enters, the owner of the devices, and whether the user
-- namespace is entered too.
pub record Target : Type 0 where
  pub target_pid : Text
  pub device_owner : DeviceOwner
  pub enter_user_namespace : Bool

-- The device that is registered with CUSE, and the configuration of the daemon.
pub record Daemon : Type 0 where
  pub config : GlobalConfig
  pub dev_info_argv : Text
  pub dev_major : ℕ
  pub dev_minor : ℕ

pub data Run : Type 0 where
  -- Exit with 2, before anything is done.
  refused : Refused → Run
  -- Return of an error of the decoding.
  undecodable : Run
  action : Option Target → Text → Run
  mute_keyboard : Run
  daemon : Daemon → Run
  -- Exit with 1: the configuration is already set.
  config_failed : Run

abbrev decoded_text : Decoders → Option (List ℕ) → Option Text
decoded_text D none = none
decoded_text D (some bytes) = if D.is_utf8 bytes then some bytes else none

abbrev when_decoded : Option Text → Option (Option Text)
when_decoded none = none
when_decoded (some text) = some (some text)

-- The action to run; `none` where it cannot be decoded. Two actions have been refused before.
decoded_action : Decoders → Option Text → Option Text → Option (Option Text)
decoded_action D (some json) base64 = some (some json)
decoded_action D none (some b64) = when_decoded (decoded_text D (D.decode b64))
decoded_action D none none = some none

abbrev target_of : Option Text → Args → Option Target
target_of none args = none
target_of (some target_pid) args = some (record {
  target_pid = target_pid;
  device_owner = args.device_owner;
  enter_user_namespace = args.enter_user_namespace;
})

abbrev device_name : Option Text → Text
device_name none = codes "vuinput"
device_name (some devname) = devname

abbrev major_of : Option ℕ → Option ℕ → ℕ
major_of (some major) (some minor) = major
major_of _ _ = 0

abbrev minor_of : Option ℕ → Option ℕ → ℕ
minor_of (some major) (some minor) = minor
minor_of _ _ = 0

-- The arguments of CUSE, behind the configuration.
abbrev daemon_of : Args → Option GlobalConfig × Bool → Run
daemon_of args (some config, true) = daemon (record {
  config = config;
  dev_info_argv = codes "DEVNAME=" ++ device_name args.devname;
  dev_major = major_of args.major args.minor;
  dev_minor = minor_of args.major args.minor;
})
daemon_of args (_, _) = config_failed

-- `main` behind the decoding. The configuration is not set before.
run_args : Option (Option Text) → Args → Run
run_args none args = undecodable
run_args (some (some json)) args = action (target_of args.target_pid args) json
run_args (some none) args =
    if args.vt_guard
    then mute_keyboard
    else daemon_of args (
        initialize_global_config args.device_policy (resolve_runtime args) args.devname
          args.device_owner (get_scope args) none)

abbrev run_checked : Decoders → Option Refused → Args → Run
run_checked D (some r) args = refused r
run_checked D none args = run_args (decoded_action D args.action args.action_base64) args

unfoldable pub main : Decoders → Args → Run
unfolding decoded_action run_args
main D args = run_checked D (validate_args args) args
