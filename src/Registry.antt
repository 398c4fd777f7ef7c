-- ===== src/Registry.antt =====
-- The open devices by file handle: `VUINPUT_STATE` of vuinputd/src/cuse_device/state.rs. `none` is
-- the global before `initialize_vuinput_state`. The values are shared behind a mutex; a handler that
-- has locked one writes its new value back with `store`.
pub mod Laws
use vuinputd.Prelude.{ℕ, Bool, true, false, Option, none, some, is_some, [], if◌then◌else◌}
use vuinputd.Prelude.Dict
use vuinputd.Prelude.Dict.{Dict, nat_eq}
use vuinputd.Fuse.{Outcome, panicked, returned}
use vuinputd.Device.{VuInputState}

abbrev pub Registry : Type 0
Registry = Option (Dict ℕ VuInputState)

pub data StateError : Type 0 where
  not_initialized not_opened already_exists fh_unknown : StateError

pub data Result {ℓ} (A : Type ℓ) : Type ℓ where
  ok : A → Result A
  err : StateError → Result A

-- `….unwrap()`
abbrev pub unwrap {ℓ} : {A : Type ℓ} → Result A → Outcome A
unwrap (ok a) = returned a
unwrap (err e) = panicked

abbrev found : StateError → Option VuInputState → Result VuInputState
found e none = err e
found e (some s) = ok s

unfoldable pub get_vuinput_state : ℕ → Registry → Result VuInputState
get_vuinput_state fh none = err not_initialized
get_vuinput_state fh (some map) = found not_opened (Dict.get fh map)

unfoldable pub insert_vuinput_state : ℕ → VuInputState → Registry → Result Registry
insert_vuinput_state fh state none = err not_initialized
insert_vuinput_state fh state (some map) =
    if is_some (Dict.get fh map) then err already_exists else ok (some (Dict.insert fh state map))

abbrev removed : ℕ → Dict ℕ VuInputState → Option VuInputState → Result (VuInputState × Registry)
removed fh map none = err fh_unknown
removed fh map (some s) = ok (s, some (Dict.remove fh map))

unfoldable pub remove_vuinput_state : ℕ → Registry → Result (VuInputState × Registry)
remove_vuinput_state fh none = err not_initialized
remove_vuinput_state fh (some map) = removed fh map (Dict.get fh map)

unfoldable pub initialize_vuinput_state : Registry → Outcome Registry
initialize_vuinput_state none = returned (some [])
initialize_vuinput_state (some map) = panicked

-- The value behind the mutex of an open handle changes.
unfoldable pub store : ℕ → VuInputState → Registry → Registry
store fh state none = none
store fh state (some map) = some (Dict.insert fh state map)
