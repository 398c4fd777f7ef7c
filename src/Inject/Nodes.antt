-- ===== src/Inject/Nodes.antt =====
-- Device nodes: `ensure_input_device` and `remove_input_device`
-- (vuinputd/src/input_realizer/input_device.rs).
pub mod Ensure
pub mod Remove
use mathlib.Core.Path.{subst}
use vuinputd.Prelude.{
  ap, sym, ◌∙◌, ℕ, ◌≡◌, refl, Bool, true, false, not, is_some, ◌&&◌, Option, none, some, ◌==◌,
  ==_iff, if◌then◌else◌, arith,
}
use vuinputd.Prelude.Text.{Text, codes}
use vuinputd.Ioctl.Lookup.{makedev}
use vuinputd.Inject.{
  System, Stat, Step, Ended, fine, failed, panicked, ◌then?◌, go_on, attempt, ignore, ended_of,
}

abbrev pub expected_mode : ℕ
expected_mode = 438

-- Whether the node is the device with the number.
abbrev pub is_device : ℕ → Option Stat → Bool
is_device expected_dev none = false
is_device expected_dev (some st) = st.is_char && (st.st_rdev == expected_dev)

module _ (S : System) where
  abbrev done : Step S.World
  done w = (w, fine)

  create_input_dir : Step S.World
  create_input_dir w =
      if not (S.exists (codes "/dev/input") w)
      then attempt (S.create_dir_all (codes "/dev/input")) w
      else done w

  abbrev needs_replacement : Text → ℕ → S.World → Bool
  needs_replacement path expected_dev w =
      if S.exists path w then not (is_device expected_dev (S.stat path w)) else true

  ensure_node : Text → ℕ → Step S.World
  ensure_node path expected_dev w =
      if needs_replacement path expected_dev w
      then (ignore (S.remove_file path) then? attempt (S.mknod path expected_mode expected_dev)) w
      else done w

  fix_mode : Text → Option Stat → Step S.World
  fix_mode path none w = done w
  fix_mode path (some st) w =
      if st.perms == expected_mode then done w else attempt (S.set_permissions path expected_mode) w

  ensure_mode : Text → Step S.World
  unfolding fix_mode
  ensure_mode path w = fix_mode path (S.stat path w) w

  unfoldable pub ensure_input_device : Text → ℕ → ℕ → Step S.World
  unfolding create_input_dir ensure_node ensure_mode
  ensure_input_device dev_path major minor =
      create_input_dir then? ensure_node dev_path (makedev major minor) then? ensure_mode dev_path

  unfoldable pub remove_input_device : Text → ℕ → ℕ → Step S.World
  remove_input_device dev_path major minor w =
      if not (S.exists dev_path w)
      then (w, failed)
      else if not (is_device (makedev major minor) (S.stat dev_path w))
      then (w, failed)
      else ((S.remove_file dev_path w).0, fine)

  -- What the functions rely on of the file system, at one path: a file exists if it has a state;
  -- `mknod` that succeeds makes a character device with the number; `chmod` that succeeds sets the mode
  -- alone; and a removal that succeeds leaves no file.
  pub record IsFileSystem (path : Text) : Type 0 where
    pub exists_stat : (w : S.World) → S.exists path w ≡ is_some (S.stat path w)
    pub mknod_makes :
        (mode dev : ℕ) (w : S.World)
        → (S.mknod path mode dev w).1 ≡ true
        → (st : Stat) × (S.stat path (S.mknod path mode dev w).0 ≡ some st)
          × (st.is_char ≡ true)
          × (st.st_rdev ≡ dev)
    pub chmod_sets :
        (mode : ℕ) (w : S.World) {st : Stat}
        → S.stat path w ≡ some st
        → (S.set_permissions path mode w).1 ≡ true
        → S.stat path (S.set_permissions path mode w).0 ≡ some (record st { perms = mode })
    pub removal_removes :
        (w : S.World)
        → (S.remove_file path w).1 ≡ true
        → S.stat path (S.remove_file path w).0 ≡ none

  -- A character device with the number.
  abbrev pub IsNode : Text → ℕ → S.World → Type 0
  IsNode path dev w =
      (st : Stat) × (S.stat path w ≡ some st) × (st.is_char ≡ true) × (st.st_rdev ≡ dev)
