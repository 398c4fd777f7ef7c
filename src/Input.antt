-- ===== src/Input.antt =====
-- The values that the daemon passes around: `input_event` of libc and the key tracker
-- (vuinputd/src/cuse_device/state.rs), and the event codes (vuinputd/src/cuse_device/device_policy.rs).
use vuinputd.Prelude.{ℕ, Bool, false, ◌&&◌, ltb}

-- `libc::input_event` of a 64-bit target. Every field is the bit pattern of its integer:
-- the two time fields of i64, `type_` and `code` of u16, `value` of i32.
pub record InputEvent : Type 0 where
  pub tv_sec : ℕ
  pub tv_usec : ℕ
  pub type_ : ℕ
  pub code : ℕ
  pub value : ℕ

-- `value > 0` on the i32 that the bit pattern stands for.
abbrev pub is_positive : ℕ → Bool
is_positive v = ltb 0 v && ltb v 2147483648

pub record KeyTracker : Type 0 where
  pub left_alt_down : Bool
  pub right_alt_down : Bool
  pub left_ctrl_down : Bool
  pub right_ctrl_down : Bool

unfoldable pub new_key_tracker : KeyTracker
new_key_tracker = record {
  left_alt_down = false;
  right_alt_down = false;
  left_ctrl_down = false;
  right_ctrl_down = false;
}

abbrev pub ev_syn : ℕ
ev_syn = 0

abbrev pub ev_key : ℕ
ev_key = 1

abbrev pub ev_abs : ℕ
ev_abs = 3

abbrev pub ev_ff : ℕ
ev_ff = 0x15

abbrev pub key_leftalt : ℕ
key_leftalt = 56

abbrev pub key_rightalt : ℕ
key_rightalt = 100

abbrev pub key_leftctrl : ℕ
key_leftctrl = 29

abbrev pub key_rightctrl : ℕ
key_rightctrl = 97

abbrev pub key_f1 : ℕ
key_f1 = 59

abbrev pub key_f10 : ℕ
key_f10 = 68

abbrev pub key_f11 : ℕ
key_f11 = 87

abbrev pub key_f12 : ℕ
key_f12 = 88

abbrev pub key_sysrq : ℕ
key_sysrq = 99

abbrev pub key_delete : ℕ
key_delete = 111

abbrev pub key_kpdot : ℕ
key_kpdot = 83

abbrev pub key_power : ℕ
key_power = 116

abbrev pub key_sleep : ℕ
key_sleep = 142

abbrev pub key_wakeup : ℕ
key_wakeup = 143

abbrev pub key_break : ℕ
key_break = 0x19b

abbrev pub key_pause : ℕ
key_pause = 119

abbrev pub key_restart : ℕ
key_restart = 0x198

abbrev pub key_fn : ℕ
key_fn = 0x1d0

abbrev pub btn_south : ℕ
btn_south = 0x130

abbrev pub btn_thumbr : ℕ
btn_thumbr = 0x13e

abbrev pub btn_dpad_up : ℕ
btn_dpad_up = 0x220

abbrev pub btn_gripr2 : ℕ
btn_gripr2 = 0x227
