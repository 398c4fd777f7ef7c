-- ===== src/Write/Legacy.antt =====
-- The legacy setup in `vuinput_write`, by a write of a `uinput_user_dev`
-- (vuinputd/src/cuse_device/vuinput_write.rs).
use vuinputd.Prelude.{
  ℕ, zero, suc, ◌+◌, ◌*◌, Bool, not, ◌||◌, List, [], ◌∷◌, ◌==◌, length, take, if◌then◌else◌,
}
use vuinputd.Fuse.{Outcome, panicked, returned, ◌>>=◌, FuseCall, reply_write}
use vuinputd.Device.{
  Uinput, UinputSetup, UinputAbsSetup, Answer, done, refused, ui_dev_setup, ui_abs_setup_legacy,
}
use vuinputd.Write.Bytes.{field}

-- `size_of::<libc::uinput_user_dev>()`: a name of 80 bytes, an id of four u16, a u32, and four
-- arrays of 64 i32.
abbrev pub uinput_user_dev_size : ℕ
uinput_user_dev_size = 1116

abbrev pub abs_cnt : ℕ
abs_cnt = 64

abbrev pub bus_usb : ℕ
bus_usb = 3

pub record LegacyDev : Type 0 where
  pub name : List ℕ
  pub version : ℕ
  pub ff_effects_max : ℕ
  pub absmax : ℕ → ℕ
  pub absmin : ℕ → ℕ
  pub absfuzz : ℕ → ℕ
  pub absflat : ℕ → ℕ

unfoldable pub legacy_dev : List ℕ → LegacyDev
legacy_dev buf = record {
  name = take 80 buf;
  version = field 86 2 buf;
  ff_effects_max = field 88 4 buf;
  absmax = λ code. field (92 + 4 * code) 4 buf;
  absmin = λ code. field (348 + 4 * code) 4 buf;
  absfuzz = λ code. field (604 + 4 * code) 4 buf;
  absflat = λ code. field (860 + 4 * code) 4 buf;
}

unfoldable pub legacy_setup : LegacyDev → UinputSetup
legacy_setup dev = record {
  bustype = bus_usb;
  vendor = 0x1209;
  product = 0x5020;
  version = dev.version;
  name = dev.name;
  ff_effects_max = dev.ff_effects_max;
}

abbrev pub has_axis : LegacyDev → ℕ → Bool
has_axis dev code = not (dev.absmax code == 0) || not (dev.absmin code == 0)

unfoldable pub legacy_abs_setup : LegacyDev → ℕ → UinputAbsSetup
legacy_abs_setup dev code = record {
  code = code;
  value = 0;
  minimum = dev.absmin code;
  maximum = dev.absmax code;
  fuzz = dev.absfuzz code;
  flat = dev.absflat code;
  resolution = 0;
}

-- `….unwrap()` of an ioctl.
abbrev pub unwrap {ℓ} : {A : Type ℓ} → A × Answer → Outcome A
unwrap (k, done bytes) = returned k
unwrap (k, refused) = panicked

module _ (U : Uinput) (fd : ℕ) where
  unfoldable pub setup_axis : LegacyDev → ℕ → U.Kernel → Outcome U.Kernel
  setup_axis dev code k =
      if has_axis dev code
      then unwrap (U.ioctl fd (ui_abs_setup_legacy (legacy_abs_setup dev code)) k)
      else returned k

  -- `for code in 0..ABS_CNT`: the rounds left, and the code.
  unfoldable pub setup_axes : ℕ → ℕ → LegacyDev → U.Kernel → Outcome U.Kernel
  unfolding setup_axis
  setup_axes zero code dev k = returned k
  setup_axes (suc n) code dev k = setup_axis dev code k >>= λ k'. setup_axes n (suc code) dev k'

  -- The branch for a device that has not been created.
  unfoldable pub write_legacy : List ℕ → U.Kernel → Outcome (U.Kernel × List FuseCall)
  unfolding setup_axes
  write_legacy buf k =
      if length buf == uinput_user_dev_size
      then (do
        k₁ ← unwrap (U.ioctl fd (ui_dev_setup (legacy_setup (legacy_dev buf))) k)
        k₂ ← setup_axes abs_cnt 0 (legacy_dev buf) k₁
        returned (k₂, reply_write (length buf) ∷ []))
      else panicked
