-- ===== src/Args.antt =====
-- The command line (vuinputd/src/main.rs) and the configuration that it selects
-- (vuinputd/src/global_config.rs). A text is its bytes.
pub mod Checks
pub mod Main
pub mod Child
use vuinputd.Prelude.{
  ℕ, ◌+◌, ◌-◌, ◌≤◌, ◌<◌, ◌≡◌, ◌≢◌, ◌↔◌, ◌⊎◌, inl, inr, refl, Bool, true, false, not, ◌&&◌, ◌||◌,
  Option, none, some, is_some, is_none, List, [], ◌∷◌, leb, length, if◌then◌else◌, arith,
  Option-cases,
}
use vuinputd.Prelude.Text.{Text, codes}
use vuinputd.Policy.{DevicePolicy}
use vuinputd.Config.{DeviceOwner}
use vuinputd.Inject.Strategy.{
  ContainerRuntime, auto, generic_placement_in_container, generic_placement_on_host,
  generic_send_netlink_message_only, Scope, multi, single,
}

pub data Placement : Type 0 where
  in_container on_host nowhere : Placement

-- The arguments that the program reads; the text of an action is what follows the option. The path of
-- a strategy file is accepted and not read.
pub record Args : Type 0 where
  pub major : Option ℕ
  pub minor : Option ℕ
  pub devname : Option Text
  pub action : Option Text
  pub action_base64 : Option Text
  pub target_pid : Option Text
  pub enter_user_namespace : Bool
  pub vt_guard : Bool
  pub device_policy : DevicePolicy
  pub placement : Option Placement
  pub device_owner : DeviceOwner
  pub container_runtime : ContainerRuntime
  pub target_container : Option Text

pub data Refused : Type 0 where
  placement_conflict two_actions action_with_others major_without_minor : Refused
  devname_too_long : Refused

unfoldable pub get_scope : Args → Scope
get_scope args = elim args.target_container [ none ↦ multi | some name ↦ single name ]

-- `match` on the deprecated option, and else the runtime.
runtime_of : Option Placement → ContainerRuntime → ContainerRuntime
runtime_of none runtime = runtime
runtime_of (some in_container) runtime = generic_placement_in_container
runtime_of (some on_host) runtime = generic_placement_on_host
runtime_of (some nowhere) runtime = generic_send_netlink_message_only

unfoldable pub resolve_runtime : Args → ContainerRuntime
unfolding runtime_of
resolve_runtime args = runtime_of args.placement args.container_runtime

abbrev is_auto : ContainerRuntime → Bool
is_auto auto = true
is_auto _ = false

-- `128 - "/dev/".len()`
abbrev pub devname_max_len : ℕ
devname_max_len = 123

-- The action, from the two options; `none` where both are given.
abbrev action_of : Option Text → Option Text → Option (Option Text)
action_of none none = some none
action_of none (some b64) = some (some b64)
action_of (some json) none = some (some json)
action_of (some json) (some b64) = none

-- The `match` on the device's options, the action and the process.
abbrev action_fits : Option ℕ → Option ℕ → Option Text → Option Text → Option Text → Bool
action_fits none none none (some action) target_pid = true
action_fits major minor devname none none = true
action_fits major minor devname action target_pid = false

abbrev together : Option ℕ → Option ℕ → Bool
together (some major) (some minor) = true
together none none = true
together _ _ = false

abbrev devname_fits : Option Text → Bool
devname_fits none = true
devname_fits (some devname) = not (leb devname_max_len (length devname))

-- The first check that fails, in the order of the source; `none`: the arguments are accepted.
unfoldable pub validate_args : Args → Option Refused
validate_args args =
    if is_some args.placement && not (is_auto args.container_runtime)
    then some placement_conflict
    else elim (action_of args.action args.action_base64) [
      | none ↦ some two_actions
      | some action ↦
          if not (action_fits args.major args.minor args.devname action args.target_pid)
          then some action_with_others
          else if not (together args.major args.minor)
          then some major_without_minor
          else if not (devname_fits args.devname)
          then some devname_too_long
          else none
    ]

-- The specification: an invocation to run an action, or one to run the daemon.
pub data IsAction : Args → Type 0 where
  json :
      {args : Args}
      → is_some args.action ≡ true
      → args.action_base64 ≡ none
      → args.major ≡ none
      → args.minor ≡ none
      → args.devname ≡ none
      → IsAction args
  base64 :
      {args : Args}
      → args.action ≡ none
      → is_some args.action_base64 ≡ true
      → args.major ≡ none
      → args.minor ≡ none
      → args.devname ≡ none
      → IsAction args

pub record IsDaemon (args : Args) : Type 0 where
  pub no_action : args.action ≡ none
  pub no_action_base64 : args.action_base64 ≡ none
  pub no_target : args.target_pid ≡ none
  pub both_numbers : is_some args.major ≡ is_some args.minor
  pub name_fits : (devname : Text) → args.devname ≡ some devname → 5 + length devname < 128

-- Where the runtime is chosen, it is chosen once.
abbrev pub IsChosenOnce : Args → Type 0
IsChosenOnce args = (args.placement ≡ none) ⊎ (args.container_runtime ≡ auto)
