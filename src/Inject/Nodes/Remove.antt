-- ===== src/Inject/Nodes/Remove.antt =====
-- What `remove_input_device` removes (vuinputd/src/input_realizer/input_device.rs).
use vuinputd.Prelude.{
  ap, ◌∙◌, ℕ, ◌≡◌, ◌≢◌, ◌⊎◌, inl, inr, refl, true, false, Option, none, some, is_some, ==_iff,
  Bool-cases, arith,
}
use vuinputd.Prelude.Text.{Text}
use vuinputd.Ioctl.Lookup.{makedev}
use vuinputd.Inject.{System, Stat, fine, failed}
use vuinputd.Inject.Nodes.{is_device, remove_input_device, ensure_input_device, IsFileSystem}
use vuinputd.Inject.Nodes.Ensure.{ensure_input_device-node}

-- What stands at a path that is not the device: nothing, or a file that is no character device or
-- that has another number.
abbrev pub IsOther : ℕ → Option Stat → Type 0
IsOther dev none = Unit {0}
IsOther dev (some st) = (st.is_char ≡ false) ⊎ (st.st_rdev ≢ dev)

is_device-IsOther : (dev : ℕ) (o : Option Stat) → IsOther dev o → is_device dev o ≡ false
is_device-IsOther dev none h = refl
is_device-IsOther dev (some st) h = ground arith

module _ (S : System) where
  -- A path at which there is not the device with the numbers is left alone: the removal fails, and
  -- the system is as before.
  pub remove_input_device-other :
      (path : Text) (major minor : ℕ) (w : S.World)
      → IsOther (makedev major minor) (S.stat path w)
      → remove_input_device S path major minor w ≡ (w, failed)
  unfolding remove_input_device
  remove_input_device-other path major minor w h =
      let n = is_device-IsOther (makedev major minor) (S.stat path w) h in
      elim (Bool-cases (S.exists path w)) [
        | inl e ↦ rw (remove_input_device, e, n) refl
        | inr e ↦ rw (remove_input_device, e) refl
      ]

  -- The device that `ensure_input_device` has placed at a path is accepted for the removal with the
  -- same numbers, and nothing is left at the path, where the file system keeps its promises and lets
  -- the file be removed.
  pub remove-ensure_input_device :
      (path : Text) (major minor : ℕ) (w : S.World) {w₁ : S.World}
      → IsFileSystem S path
      → ensure_input_device S path major minor w ≡ (w₁, fine)
      → (S.remove_file path w₁).1 ≡ true
      → (w₂ : S.World) × (remove_input_device S path major minor w₁ ≡ (w₂, fine))
        × (S.stat path w₂ ≡ none)
  unfolding remove_input_device
  remove-ensure_input_device path major minor w {w₁} fs e r =
      let s = ensure_input_device-node S path major minor w fs e in
      let x = fs.exists_stat w₁ ∙ ap is_some s in
      let d =
        ap (is_device (makedev major minor)) s
        ∙ (==_iff (makedev major minor) (makedev major minor)).1 refl in
      ((S.remove_file path w₁).0, rw (remove_input_device, x, d) refl, fs.removal_removes w₁ r)
