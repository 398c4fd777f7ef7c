-- ===== src/Policy/Order.antt =====
-- The four policies of vuinputd/src/cuse_device/device_policy.rs compared.
use vuinputd.Prelude.{ℕ, ◌≤◌, ◌≡◌, Bool, true, arith}
use vuinputd.Input.{InputEvent, KeyTracker}
use vuinputd.Policy.{DevicePolicy, is_allowed}

unfoldable pub allows : DevicePolicy → KeyTracker → InputEvent → Bool
allows policy keytracker event = (is_allowed keytracker policy event).1

-- The order in which the policies are listed, from the open one to the closed one.
abbrev pub strictness : DevicePolicy → ℕ
strictness DevicePolicy.none = 0
strictness DevicePolicy.mute_sys_rq = 1
strictness DevicePolicy.sanitized = 2
strictness DevicePolicy.strict_gamepad = 3

strict_gamepad-sanitized :
    (k : KeyTracker) (e : InputEvent)
    → allows DevicePolicy.strict_gamepad k e ≡ true
    → allows DevicePolicy.sanitized k e ≡ true
unfolding allows is_allowed
strict_gamepad-sanitized k e h = ground arith

sanitized-mute_sys_rq :
    (k : KeyTracker) (e : InputEvent)
    → allows DevicePolicy.sanitized k e ≡ true
    → allows DevicePolicy.mute_sys_rq k e ≡ true
unfolding allows is_allowed
sanitized-mute_sys_rq k e h = ground arith

mute_sys_rq-none : (k : KeyTracker) (e : InputEvent) → allows DevicePolicy.none k e ≡ true
unfolding allows is_allowed
mute_sys_rq-none k e = ground arith

-- An event that a policy allows is allowed, in the same state of the key tracker, by every policy
-- that is not stricter, in the order none, mute-sys-rq, sanitized, strict-gamepad.
pub allows_mono :
    (p q : DevicePolicy) (k : KeyTracker) (e : InputEvent)
    → strictness q ≤ strictness p
    → allows p k e ≡ true
    → allows q k e ≡ true
allows_mono p q k e le h =
    ground (arith, strict_gamepad-sanitized k e, sanitized-mute_sys_rq k e, mute_sys_rq-none k e)
