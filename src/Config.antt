-- ===== src/Config.antt =====
-- The configuration that `main` sets once (vuinputd/src/global_config.rs): a `OnceLock`, empty before.
use vuinputd.Prelude.{Bool, true, false, Option, none, some}
use vuinputd.Prelude.Text.{Text, codes}
use vuinputd.Fuse.{Outcome, panicked, returned, ◌>>=◌}
use vuinputd.Policy.{DevicePolicy}
use vuinputd.Inject.Strategy.{ContainerRuntime, Scope}

pub data DeviceOwner : Type 0 where
  auto by_vuinputd container_dev_folder : DeviceOwner

unfoldable pub to_string_rep : DeviceOwner → Text
to_string_rep auto = codes "auto"
to_string_rep by_vuinputd = codes "vuinputd"
to_string_rep container_dev_folder = codes "container-dev-folder"

pub record GlobalConfig : Type 0 where
  pub policy : DevicePolicy
  pub container_runtime : ContainerRuntime
  pub vudevname : Text
  pub device_owner : DeviceOwner
  pub scope : Scope

-- `devname.unwrap_or("vuinput")`
abbrev pub name_or_default : Option Text → Text
name_or_default none = codes "vuinput"
name_or_default (some devname) = devname

-- `CONFIG.set(…)`: what the lock holds after it, and whether it was empty.
abbrev set_once : GlobalConfig → Option GlobalConfig → Option GlobalConfig × Bool
set_once config none = (some config, true)
set_once config (some old) = (some old, false)

-- `false`: the program exits with 1.
unfoldable pub initialize_global_config :
    DevicePolicy
    → ContainerRuntime
    → Option Text
    → DeviceOwner
    → Scope
    → Option GlobalConfig
    → Option GlobalConfig × Bool
initialize_global_config device_policy container_runtime devname device_owner scope =
    set_once (record {
      policy = device_policy;
      container_runtime = container_runtime;
      vudevname = name_or_default devname;
      device_owner = device_owner;
      scope = scope;
    })

-- `CONFIG.get().unwrap()`
abbrev get_config : Option GlobalConfig → Outcome GlobalConfig
get_config none = panicked
get_config (some config) = returned config

unfoldable pub get_device_policy : Option GlobalConfig → Outcome DevicePolicy
get_device_policy lock = get_config lock >>= λ c. returned c.policy

unfoldable pub get_container_runtime : Option GlobalConfig → Outcome ContainerRuntime
get_container_runtime lock = get_config lock >>= λ c. returned c.container_runtime

unfoldable pub get_vudevname : Option GlobalConfig → Outcome Text
get_vudevname lock = get_config lock >>= λ c. returned c.vudevname

unfoldable pub get_device_owner : Option GlobalConfig → Outcome DeviceOwner
get_device_owner lock = get_config lock >>= λ c. returned c.device_owner

unfoldable pub get_scope : Option GlobalConfig → Outcome Scope
get_scope lock = get_config lock >>= λ c. returned c.scope
