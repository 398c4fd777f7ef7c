-- ===== src/Jobs/Awaiter.antt =====
-- How a handler waits for its job: `set_state` and `get_awaiter_for_state` (the same in
-- vuinputd/src/jobs/mknod_device_job.rs and remove_device_job.rs), over the mutex and the condition
-- variable that the job and the handler share.
pub mod Threads
pub mod Placed
pub mod Bodies
use vuinputd.Prelude.{
  ℕ, ◌≡◌, ◌↔◌, refl, ap, sym, ◌∙◌, Bool, true, false, not, ◌||◌, List, [], ◌∷◌, ◌++◌, ltb,
  if◌then◌else◌, arith,
}
use vuinputd.Prelude.Text.{Text}
use vuinputd.Inject.{System, Ended, fine, failed, panicked}
use vuinputd.Inject.Strategy.{Injector}
use vuinputd.Process.{RequestingProcess}
use vuinputd.Jobs.Emit.{State, initialized, started, finished}
use vuinputd.Jobs.Remove.{Removal, mknod_device, remove_device}

abbrev pub rank : State → ℕ
rank initialized = 0
rank started = 1
rank finished = 2

-- The derived `<`.
abbrev pub state_lt : State → State → Bool
state_lt s t = ltb (rank s) (rank t)

-- Why `cvar.wait` returns: the job set a state, or for no reason.
pub data Wake : Type 0 where
  set_state : State → Wake
  spurious : Wake

abbrev woken : Wake → State → State
woken (set_state new_state) current_state = new_state
woken spurious current_state = current_state

-- Whether the awaiter, called for `state`, has returned after the wake-ups.
unfoldable pub awaiter : State → State → List Wake → Bool
awaiter state current_state [] = not (state_lt current_state state)
awaiter state current_state (w ∷ ws) =
    let rest = awaiter state (woken w current_state) ws in
    if state_lt current_state state then rest else true

-- The states that the job set.
abbrev pub states_set : List Wake → List State
states_set [] = []
states_set (set_state s ∷ ws) = s ∷ states_set ws
states_set (spurious ∷ ws) = states_set ws

abbrev pub reached : State → List State → Bool
reached state [] = false
reached state (s ∷ ss) = not (state_lt s state) || reached state ss

-- The awaiter returns once the state is reached, whatever else wakes it.
pub awaiter-reached :
    (state current_state : State) (ws : List Wake)
    → awaiter state current_state ws
      ≡ (not (state_lt current_state state) || reached state (states_set ws))
unfolding awaiter
awaiter-reached state current_state [] = ground arith
awaiter-reached state current_state (set_state s ∷ ws) = ground (arith, awaiter-reached state s ws)
awaiter-reached state current_state (spurious ∷ ws) =
    ground (arith, awaiter-reached state current_state ws)
