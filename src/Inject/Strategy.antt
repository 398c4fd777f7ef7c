-- ===== src/Inject/Strategy.antt =====
-- How a device gets into a container: the strategies of
-- vuinputd/src/container_runtime/injection_strategy.rs, and the runtimes that choose them
-- (vuinputd/src/container_runtime/mod.rs).
use vuinputd.Prelude.{ℕ, ◌≡◌, ◌↔◌, arith, Bool, true, false, none, some, List, [], ◌∷◌, ◌++◌}
use vuinputd.Prelude.Dict.{Dict}
use vuinputd.Prelude.Text.{Text, codes}
use vuinputd.Fuse.{Outcome}
use vuinputd.Process.{RequestingProcess}
use vuinputd.Inject.{System, Step, fine, failed, panicked, Action, unwrap, attempt, ignore}
use vuinputd.Inject.Nodes.{ensure_input_device, remove_input_device}
use vuinputd.Inject.RuntimeData.{write_udev_data, delete_udev_data}

pub data ContainerRuntime : Type 0 where
  auto generic_placement_in_container generic_placement_on_host : ContainerRuntime
  generic_send_netlink_message_only incus docker podman nspawn bubblewrap : ContainerRuntime
  custom_engine : ContainerRuntime

-- The four statics.
pub data InjectionStrategy : Type 0 where
  placement_in_container placement_on_host send_netlink_only incus_device : InjectionStrategy

pub data Scope : Type 0 where
  multi : Scope
  single : Text → Scope

unfoldable pub uses_run_folder : ContainerRuntime → Bool
uses_run_folder ContainerRuntime.generic_placement_on_host = true
uses_run_folder ContainerRuntime.bubblewrap = true
uses_run_folder _ = false

-- A custom engine is not implemented and panics.
unfoldable pub injection_strategy : ContainerRuntime → Outcome InjectionStrategy
injection_strategy ContainerRuntime.generic_placement_on_host = Outcome.returned placement_on_host
injection_strategy ContainerRuntime.generic_send_netlink_message_only =
    Outcome.returned send_netlink_only
injection_strategy ContainerRuntime.incus = Outcome.returned incus_device
injection_strategy ContainerRuntime.bubblewrap = Outcome.returned placement_on_host
injection_strategy ContainerRuntime.custom_engine = Outcome.panicked
injection_strategy _ = Outcome.returned placement_in_container

-- `/run/vuinputd/{vudevname}`
abbrev pub path_prefix : Text → Text
path_prefix vudevname = codes "/run/vuinputd/" ++ vudevname

-- `{path_prefix}/dev-input/{devname}`
abbrev pub host_path : Text → Text → Text
host_path vudevname devname = path_prefix vudevname ++ (codes "/dev-input/" ++ devname)

module _ (S : System) where
  -- `start_action(…).expect(…)`, and then what is done with the pid of the child.
  spawned : Action → RequestingProcess → Bool → (ℕ → Step S.World) → Step S.World
  spawned action p enter_user_ns continue w =
      let (w', child) = S.start_action action p.pid_requestor_root enter_user_ns w in
      elim child [ none ↦ (w', panicked) | some pid ↦ continue pid w' ]

  -- The wait for the child, unwrapped or dropped.
  await_unwrapped : ℕ → Step S.World
  await_unwrapped pid = unwrap (attempt (S.await_process pid))

  await_dropped : ℕ → Step S.World
  await_dropped pid = ignore (S.await_process pid)

  -- `Command::new("/usr/bin/incus")`, for the container that the scope names.
  with_container : Scope → (Text → List Text) → Step S.World
  with_container multi args w = (w, failed)
  with_container (single container_name) args w = attempt (S.incus (args container_name)) w

  -- The trait: how a device node is created and removed, how its udev data are written and removed, and
  -- how the container is told.
  pub record Injector : Type 0 where
    pub mknod_device_node : RequestingProcess → Text → ℕ → ℕ → Step S.World
    pub remove_device_node : RequestingProcess → Text → ℕ → ℕ → Step S.World
    pub write_udev_runtime_data : RequestingProcess → Text → ℕ → ℕ → Step S.World
    pub remove_udev_runtime_data : RequestingProcess → ℕ → ℕ → Step S.World
    pub emit_netlink_message : RequestingProcess → Dict Text Text → Step S.World

  unfoldable pub in_container : Injector
  unfolding spawned await_unwrapped await_dropped
  in_container = record {
    mknod_device_node = λ p devname major minor.
        spawned (Action.mknod_device (codes "/dev/input/" ++ devname) major minor) p false
          await_unwrapped;
    remove_device_node = λ p devname major minor.
        spawned (Action.remove_device (codes "/dev/input/" ++ devname) major minor) p false
          await_dropped;
    write_udev_runtime_data = λ p runtime_data major minor.
        spawned (Action.write_udev_runtime_data (some runtime_data) major minor) p false
          await_unwrapped;
    remove_udev_runtime_data = λ p major minor.
        spawned (Action.write_udev_runtime_data none major minor) p false await_dropped;
    emit_netlink_message = λ p netlink_message.
        spawned (Action.emit_netlink_message netlink_message) p false await_dropped;
  }

  unfoldable pub on_host : Text → Injector
  unfolding in_container
  on_host vudevname = record {
    mknod_device_node = λ p devname major minor.
        unwrap (ensure_input_device S (host_path vudevname devname) major minor);
    remove_device_node = λ p devname major minor.
        unwrap (remove_input_device S (host_path vudevname devname) major minor);
    write_udev_runtime_data = λ p runtime_data major minor.
        unwrap (write_udev_data S (path_prefix vudevname) runtime_data major minor);
    remove_udev_runtime_data =
        λ p major minor. unwrap (delete_udev_data S (path_prefix vudevname) major minor);
    emit_netlink_message = in_container.emit_netlink_message;
  }

  unfoldable pub netlink_only : Injector
  unfolding in_container
  netlink_only = record {
    mknod_device_node = λ p devname major minor w. (w, fine);
    remove_device_node = λ p devname major minor w. (w, fine);
    write_udev_runtime_data = λ p runtime_data major minor w. (w, fine);
    remove_udev_runtime_data = λ p major minor w. (w, fine);
    emit_netlink_message = in_container.emit_netlink_message;
  }

  unfoldable pub incus_tool : Scope → Injector
  unfolding spawned await_dropped with_container in_container
  incus_tool scope = record {
    mknod_device_node = λ p devname major minor. with_container scope λ container_name.
        codes "config"
        ∷ codes "device"
        ∷ codes "add"
        ∷ container_name
        ∷ devname
        ∷ codes "unix-char"
        ∷ (codes "path=/dev/input/" ++ devname)
        ∷ (codes "path=/dev/input/" ++ devname)
        ∷ codes "mode=666"
        ∷ [];
    remove_device_node = λ p devname major minor. with_container scope λ container_name.
        codes "config" ∷ codes "device" ∷ codes "remove" ∷ container_name ∷ devname ∷ [];
    write_udev_runtime_data = in_container.write_udev_runtime_data;
    remove_udev_runtime_data = in_container.remove_udev_runtime_data;
    emit_netlink_message = λ p netlink_message.
        spawned (Action.emit_netlink_message netlink_message) p true await_dropped;
  }

-- The folder under /run is prepared exactly for the runtimes whose strategy places device nodes and
-- udev data on the host.
pub uses_run_folder_iff :
    (r : ContainerRuntime)
    → (uses_run_folder r ≡ true) ↔ (injection_strategy r ≡ Outcome.returned placement_on_host)
unfolding uses_run_folder injection_strategy
uses_run_folder_iff r = ground arith
