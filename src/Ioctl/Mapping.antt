-- ===== src/Ioctl/Mapping.antt =====
-- The first `match` of `vuinput_ioctl`: which buffers the kernel still has to map
-- (vuinputd/src/cuse_device/vuinput_ioctl.rs).
use vuinputd.Prelude.{ℕ, Option, none, some, ◌==◌, if◌then◌else◌}
use vuinputd.Ioctl.Codes.{
  Command, dev_setup, abs_setup, get_sysname, get_version, set_phys, begin_ff_upload, end_ff_upload,
  begin_ff_erase, end_ff_erase,
}
use vuinputd.Ioctl.Codes.{
  uinput_setup_size, uinput_abs_setup_size, uinput_ff_upload_size, uinput_ff_erase_size,
}

-- The lengths of the buffers asked for, to read from and to write to; 0: none.
pub record Retry : Type 0 where
  pub in_len : ℕ
  pub out_len : ℕ

ask_in : ℕ → ℕ → ℕ → Option Retry
ask_in in_bufsz in_len out_len =
    if in_bufsz == 0 then some (record { in_len = in_len; out_len = out_len }) else none

ask_out : ℕ → ℕ → Option Retry
ask_out out_bufsz out_len =
    if out_bufsz == 0 then some (record { in_len = 0; out_len = out_len }) else none

unfoldable pub retry : Command → ℕ → ℕ → Option Retry
unfolding ask_in ask_out
retry abs_setup in_bufsz out_bufsz = ask_in in_bufsz uinput_abs_setup_size 0
retry get_sysname in_bufsz out_bufsz = ask_out out_bufsz 64
retry get_version in_bufsz out_bufsz = ask_out out_bufsz 4
retry dev_setup in_bufsz out_bufsz = ask_in in_bufsz uinput_setup_size 0
retry set_phys in_bufsz out_bufsz = ask_in in_bufsz 1024 0
retry begin_ff_upload in_bufsz out_bufsz =
    ask_in in_bufsz uinput_ff_upload_size uinput_ff_upload_size
retry end_ff_upload in_bufsz out_bufsz = ask_in in_bufsz uinput_ff_upload_size 0
retry begin_ff_erase in_bufsz out_bufsz = ask_in in_bufsz uinput_ff_erase_size uinput_ff_erase_size
retry end_ff_erase in_bufsz out_bufsz = ask_in in_bufsz uinput_ff_erase_size 0
retry _ in_bufsz out_bufsz = none
