-- ===== src/Policy.antt =====
-- Which events a device may send: vuinputd/src/cuse_device/device_policy.rs, with `DevicePolicy` of
-- vuinputd/src/global_config.rs. A function that takes `&mut KeyTracker` returns the new tracker.
pub mod Order
pub mod History
use vuinputd.Prelude.{ℕ, Bool, true, false, ◌&&◌, ◌||◌, ◌==◌, leb, if◌then◌else◌}
use vuinputd.Input.{InputEvent, KeyTracker, is_positive}
use vuinputd.Input

pub data DevicePolicy : Type 0 where
  none mute_sys_rq sanitized strict_gamepad : DevicePolicy

is_allowed_in_mute_sysrq : KeyTracker → InputEvent → KeyTracker × Bool
is_allowed_in_mute_sysrq keytracker event =
    if event.type_ == Input.ev_key && event.code == Input.key_sysrq
    then (keytracker, false)
    else (keytracker, true)

-- The first `match` of `is_allowed_in_sanitized_mode`.
abbrev track_key : KeyTracker → ℕ → ℕ → KeyTracker
track_key keytracker code value =
    if code == Input.key_leftalt
    then record keytracker { left_alt_down = is_positive value }
    else if code == Input.key_rightalt
    then record keytracker { right_alt_down = is_positive value }
    else if code == Input.key_leftctrl
    then record keytracker { left_ctrl_down = is_positive value }
    else if code == Input.key_rightctrl
    then record keytracker { right_ctrl_down = is_positive value }
    else keytracker

-- The last `match` of `is_allowed_in_sanitized_mode`.
abbrev is_dangerous_key : ℕ → Bool
is_dangerous_key code =
    code == Input.key_power
    || code == Input.key_sleep
    || code == Input.key_wakeup
    || code == Input.key_fn
    || code == Input.key_break
    || code == Input.key_pause
    || code == Input.key_restart

-- The tests that follow on a key event, with the tracker already updated.
sanitize_key : KeyTracker → ℕ → Bool
sanitize_key keytracker code =
    let alt_down = keytracker.left_alt_down || keytracker.right_alt_down in
    let ctrl_down = keytracker.left_ctrl_down || keytracker.right_ctrl_down in
    if code == Input.key_sysrq
    then false
    else if alt_down && (leb Input.key_f1 code && leb code Input.key_f10)
    then false
    else if alt_down && (leb Input.key_f11 code && leb code Input.key_f12)
    then false
    else if alt_down && ctrl_down && (code == Input.key_delete || code == Input.key_kpdot)
    then false
    else if is_dangerous_key code
    then false
    else true

is_allowed_in_sanitized_mode : KeyTracker → InputEvent → KeyTracker × Bool
unfolding sanitize_key
is_allowed_in_sanitized_mode keytracker event =
    let tracked =
      if event.type_ == Input.ev_key
      then track_key keytracker event.code event.value
      else keytracker in
    if event.type_ == Input.ev_key
    then (tracked, sanitize_key tracked event.code)
    else (tracked, true)

is_allowed_in_strict_gamepad_mode : KeyTracker → InputEvent → KeyTracker × Bool
is_allowed_in_strict_gamepad_mode keytracker event =
    if event.type_ == Input.ev_syn
    then (keytracker, true)
    else if event.type_ == Input.ev_abs
    then (keytracker, true)
    else if event.type_ == Input.ev_ff
    then (keytracker, true)
    else if event.type_ == Input.ev_key
    then (
      keytracker,
      (leb Input.btn_south event.code && leb event.code Input.btn_thumbr)
          || (leb Input.btn_dpad_up event.code && leb event.code Input.btn_gripr2),
    )
    else (keytracker, false)

unfoldable pub is_allowed : KeyTracker → DevicePolicy → InputEvent → KeyTracker × Bool
unfolding is_allowed_in_mute_sysrq is_allowed_in_sanitized_mode is_allowed_in_strict_gamepad_mode
is_allowed keytracker none event = (keytracker, true)
is_allowed keytracker mute_sys_rq event = is_allowed_in_mute_sysrq keytracker event
is_allowed keytracker sanitized event = is_allowed_in_sanitized_mode keytracker event
is_allowed keytracker strict_gamepad event = is_allowed_in_strict_gamepad_mode keytracker event
