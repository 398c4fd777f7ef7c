-- ===== src/Registry/Laws.antt =====
-- The registry as a partial function of the handle (vuinputd/src/cuse_device/state.rs).
use vuinputd.Prelude.{ℕ, ◌≡◌, ◌≢◌, refl, Option, none, some, arith}
use vuinputd.Prelude.Dict
use vuinputd.Prelude.Dict.{Dict, nat_eq, get-insert, get-remove}
use vuinputd.Device.{VuInputState}
use vuinputd.Registry.{
  Registry, ok, get_vuinput_state, insert_vuinput_state, remove_vuinput_state, store,
}

-- The state of an open handle.
unfoldable pub state_of : ℕ → Registry → Option VuInputState
state_of fh none = none
state_of fh (some map) = Dict.get fh map

pub get-state_of :
    (fh : ℕ) (r : Registry) {s : VuInputState}
    → get_vuinput_state fh r ≡ ok s
    → state_of fh r ≡ some s
unfolding get_vuinput_state state_of
get-state_of fh none h = cc
get-state_of fh (some map) h = ground arith

pub state_of-store :
    (j fh : ℕ) (s : VuInputState) (r : Registry) → j ≢ fh → state_of j (store fh s r) ≡ state_of j r
unfolding state_of store
state_of-store j fh s none h = refl
state_of-store j fh s (some map) h = ground (arith, get-insert j fh s map)

pub state_of-get :
    (fh : ℕ) (r : Registry) {s : VuInputState}
    → state_of fh r ≡ some s
    → get_vuinput_state fh r ≡ ok s
unfolding get_vuinput_state state_of
state_of-get fh none h = cc
state_of-get fh (some map) h = ground arith

pub store-state_of :
    (fh : ℕ) (s : VuInputState) (r : Registry) {old : VuInputState}
    → state_of fh r ≡ some old
    → state_of fh (store fh s r) ≡ some s
unfolding state_of store
store-state_of fh s none h = cc
store-state_of fh s (some map) h = ground (arith, get-insert fh fh s map)

ok-inj {ℓ} : {A : Type ℓ} {a b : A} → ok a ≡ ok b → a ≡ b
ok-inj h = cc

pub state_of-insert :
    (j fh : ℕ) (s : VuInputState) (r : Registry) {r' : Registry}
    → insert_vuinput_state fh s r ≡ ok r'
    → j ≢ fh
    → state_of j r' ≡ state_of j r
unfolding state_of insert_vuinput_state
state_of-insert j fh s none e h = cc
state_of-insert j fh s (some map) {r' = none} e h = ground arith
state_of-insert j fh s (some map) {r' = some map'} e h = ground (arith, get-insert j fh s map)

pub state_of-remove :
    (j fh : ℕ) (r : Registry) {s : VuInputState} {r' : Registry}
    → remove_vuinput_state fh r ≡ ok (s, r')
    → j ≢ fh
    → state_of j r' ≡ state_of j r
unfolding state_of remove_vuinput_state
state_of-remove j fh none e h = cc
state_of-remove j fh (some map) {r' = none} e h = ground arith
state_of-remove j fh (some map) {r' = some map'} e h = ground (arith, get-remove j fh map)

-- A removal finds the state of an open handle.
pub remove-state_of :
    (fh : ℕ) (r : Registry) {s : VuInputState} {r' : Registry}
    → remove_vuinput_state fh r ≡ ok (s, r')
    → (state_of fh r ≡ some s) × (state_of fh r' ≡ none)
unfolding state_of remove_vuinput_state
remove-state_of fh none e = cc
remove-state_of fh (some map) {r' = none} e = ground arith
remove-state_of fh (some map) {r' = some map'} e = ground (arith, get-remove fh fh map)

-- An insertion succeeds exactly for a handle that is not open, and opens it.
pub insert-state_of :
    (fh : ℕ) (s : VuInputState) (r : Registry) {r' : Registry}
    → insert_vuinput_state fh s r ≡ ok r'
    → (state_of fh r ≡ none) × (state_of fh r' ≡ some s)
unfolding state_of insert_vuinput_state
insert-state_of fh s none e = cc
insert-state_of fh s (some map) {r' = none} e = ground arith
insert-state_of fh s (some map) {r' = some map'} e = ground (arith, get-insert fh fh s map)
