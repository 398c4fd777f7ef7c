-- ===== src/VtTools.antt =====
-- The keyboard mode of the virtual terminal (vuinputd/src/vt_tools.rs). The kernel's terminal is a
-- parameter.
use vuinputd.Prelude.{ℕ, Bool, true, false, Option, none, some, ◌==◌, if◌then◌else◌}
use vuinputd.Prelude.Text.{Text, codes}
use vuinputd.Inject.{Ended, fine, failed, panicked}

abbrev pub kdskbmode : ℕ
kdskbmode = 0x4B45

abbrev pub kdgkbmode : ℕ
kdgkbmode = 0x4B44

abbrev pub k_off : ℕ
k_off = 0x04

-- How an opening ends.
pub data Opened : Type 0 where
  not_found failed_to_open : Opened
  opened : ℕ → Opened

-- The calls on terminals: an opening for reading, or for reading and writing; the ioctl that reads
-- the mode, `none` for an error; and the one that sets it.
pub record Terminal : Type 1 where
  pub Kernel : Type 0
  pub open_read : Text → Kernel → Kernel × Opened
  pub open_read_write : Text → Kernel → Kernel × Opened
  pub get_mode : ℕ → ℕ → Kernel → Kernel × Option ℕ
  pub set_mode : ℕ → ℕ → ℕ → Kernel → Kernel × Bool

-- What `check_vt_status` logs.
pub data VtStatus : Type 0 where
  not_present not_opened ioctl_failed input_disabled : VtStatus
  active : ℕ → VtStatus

module _ (T : Terminal) where
  status_of : Option ℕ → VtStatus
  status_of none = ioctl_failed
  status_of (some mode) = if mode == k_off then input_disabled else active mode

  abbrev read_status : Opened → T.Kernel → T.Kernel × VtStatus
  read_status not_found k = (k, not_present)
  read_status failed_to_open k = (k, not_opened)
  read_status (opened fd) k = let (k', mode) = T.get_mode fd kdgkbmode k in (k', status_of mode)

  unfoldable pub check_vt_status : T.Kernel → T.Kernel × VtStatus
  unfolding status_of
  check_vt_status k = let (k', tty) = T.open_read (codes "/dev/tty1") k in read_status tty k'

  abbrev panic_unless : T.Kernel × Bool → T.Kernel × Ended
  panic_unless (k, true) = (k, fine)
  panic_unless (k, false) = (k, panicked)

  abbrev mute_opened : Opened → T.Kernel → T.Kernel × Ended
  mute_opened not_found k = (k, failed)
  mute_opened failed_to_open k = (k, failed)
  mute_opened (opened fd) k = panic_unless (T.set_mode fd kdskbmode k_off k)

  unfoldable pub mute_keyboard : T.Kernel → T.Kernel × Ended
  mute_keyboard k = let (k', tty) = T.open_read_write (codes "/dev/tty1") k in mute_opened tty k'
