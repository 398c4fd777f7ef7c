-- ===== src/Jobs/Emit.antt =====
-- `EmitUdevEventJob` (vuinputd/src/jobs/emit_udev_event_job.rs). In the wait between two attempts
-- other threads change the event store and the files: what an attempt finds is a parameter, by the
-- number of the attempt.
pub mod Outcome
use vuinputd.Prelude.{
  ap, ◌∙◌, ℕ, zero, suc, ◌+◌, ◌≡◌, refl, Bool, true, false, ◌&&◌, ◌||◌, Option, none, some, is_some,
  if◌then◌else◌,
}
use vuinputd.Prelude.Text.{Text}
use vuinputd.Events.{Entry, Properties}
use vuinputd.Inject.{System, Step, fine, ◌then?◌, unwrap}
use vuinputd.Inject.Strategy.{Injector}
use vuinputd.Process.{RequestingProcess}

pub data State : Type 0 where
  initialized started finished : State

-- What `take` gives for the device's path in an attempt, and what reading the udev data gives.
pub record Observed : Type 0 where
  pub taken : ℕ → Option Entry
  pub read_udev_data : ℕ → Option Text

-- How the loop ends: with a return from inside it, or with the two values.
pub data Loop : Type 0 where
  already_removed : Loop
  found : Option Properties → Option Text → Loop

-- `netlink_event.tombstone || netlink_event.remove_data.is_some()`
abbrev pub is_dead : Entry → Bool
is_dead e = e.tombstone || is_some e.remove_data

-- The first `if` of an attempt; `none` is the return from inside it.
abbrev pub take_netlink : Option Properties → Option Entry → Option (Option Properties)
take_netlink (some data_) taken = some (some data_)
take_netlink none none = some none
take_netlink none (some e) = if is_dead e then none else some e.add_data

abbrev pub read_runtime : Option Text → Option Text → Option Text
read_runtime (some data_) read = some data_
read_runtime none read = read

module _ (o : Observed) where
  -- The attempts from number `n` on, `fuel` of them at most.
  unfoldable pub attempts : ℕ → ℕ → Option Properties → Option Text → Loop
  attempts zero n netlink_data runtime_data = found netlink_data runtime_data
  attempts (suc fuel) n netlink_data runtime_data =
      if is_some netlink_data && is_some runtime_data
      then found netlink_data runtime_data
      else elim (take_netlink netlink_data (o.taken n)) [
        | none ↦ already_removed
        | some netlink_data' ↦
            attempts fuel (n + 1) netlink_data' (read_runtime runtime_data (o.read_udev_data n))
      ]

  unfoldable pub wait_for_data : Loop
  unfolding attempts
  wait_for_data = attempts 50 1 none none

module _ (S : System) where
  -- The end of the job: the device's state, and the injection.
  injected : Injector S → RequestingProcess → ℕ → ℕ → Properties → Text → Step S.World
  injected injector p major minor netlink_data runtime_data =
      unwrap (injector.write_udev_runtime_data p runtime_data major minor)
      then? unwrap (injector.emit_netlink_message p netlink_data)

  -- The state at the end, where the job does not panic, and the effects.
  unfoldable pub emit_udev_event :
      Injector S → RequestingProcess → ℕ → ℕ → Loop → State × Step S.World
  unfolding injected
  emit_udev_event injector p major minor already_removed = (started, λ w. (w, fine))
  emit_udev_event injector p major minor (found (some netlink_data) (some runtime_data)) =
      (finished, injected injector p major minor netlink_data runtime_data)
  emit_udev_event injector p major minor (found _ _) = (finished, λ w. (w, fine))
