-- ===== src/Inject/HostFs.antt =====
-- The folders of the placement on the host (vuinputd/src/input_realizer/host_fs.rs), and the runtimes
-- that prepare them (`ContainerRuntime::initialize` of vuinputd/src/container_runtime/mod.rs).
pub mod Prepared
use vuinputd.Prelude.{
  ℕ, zero, suc, ◌≡◌, refl, Bool, true, false, not, ◌||◌, Option, none, some, List, [], ◌∷◌, ◌++◌,
  ◌==◌, get_or, if◌then◌else◌,
}
use vuinputd.Prelude.Text.{Text, codes, text_beq, starts_with, contains, lines, split_whitespace}
use vuinputd.Inject.{System, Step, fine, ◌then?◌, attempt}
use vuinputd.Inject.Strategy.{ContainerRuntime, uses_run_folder, path_prefix}

-- What the check of the mounts logs; it is not used otherwise.
pub data MountCheck : Type 0 where
  unreadable mounted_nodev allows_devices no_mount : MountCheck

abbrev cons_left : ℕ → Option Text → Option Text
cons_left c none = none
cons_left c (some left) = some (c ∷ left)

-- The left half of `line.split_once(" - ")`.
before_separator : Text → Option Text
unfolding starts_with
before_separator [] = none
before_separator (c ∷ cs) =
    let rest = cons_left c (before_separator cs) in
    if starts_with (c ∷ cs) (codes " - ") then some [] else rest

abbrev cons_word : ℕ → List Text → List Text
cons_word c [] = (c ∷ []) ∷ []
cons_word c (word ∷ words) = (c ∷ word) ∷ words

-- `options.split(',')`
split_commas : Text → List Text
split_commas [] = [] ∷ []
split_commas (c ∷ cs) =
    let rest = split_commas cs in if c == 44 then [] ∷ rest else cons_word c rest

abbrev has_nodev : List Text → Bool
has_nodev [] = false
has_nodev (o ∷ os) = text_beq o (codes "nodev") || has_nodev os

-- The line of a mount whose mount point contains the path.
mount_line : Text → List Text → Option MountCheck
unfolding split_commas contains text_beq
mount_line path fields =
    if contains (get_or fields 4 []) path
    then some
        (if has_nodev (split_commas (get_or fields 5 [])) then mounted_nodev else allows_devices)
    else none

abbrev line_check : Text → Option Text → Option MountCheck
line_check path none = none
line_check path (some left) = mount_line path (split_whitespace left)

abbrev or_else : Option MountCheck → MountCheck → MountCheck
or_else none rest = rest
or_else (some c) rest = c

check_lines : Text → List Text → MountCheck
unfolding before_separator mount_line split_whitespace
check_lines path [] = no_mount
check_lines path (line ∷ ls) =
    or_else (line_check path (before_separator line)) (check_lines path ls)

-- `check_if_path_allows_char_devs`, from the content of /proc/self/mountinfo.
unfoldable pub check_if_path_allows_char_devs : Option Text → Text → MountCheck
unfolding check_lines lines
check_if_path_allows_char_devs none path = unreadable
check_if_path_allows_char_devs (some mountinfo) path = check_lines path (lines mountinfo)

nodev_found :
    check_if_path_allows_char_devs
      (some
        (codes "21 1 0:20 / /proc rw - proc proc rw\n40 1 0:35 / /run/v rw,nodev - tmpfs t rw\n"))
      (codes "/run/v")
    ≡ mounted_nodev
unfolding check_if_path_allows_char_devs
nodev_found = refl

abbrev pub dev_input_dir : Text → Text
dev_input_dir path_prefix = path_prefix ++ codes "/dev-input"

abbrev pub data_dir : Text → Text
data_dir path_prefix = path_prefix ++ codes "/udev/data"

abbrev pub control_file : Text → Text
control_file path_prefix = path_prefix ++ codes "/udev/control"

module _ (S : System) where
  -- `if !path.exists() { make(path)?; }`
  abbrev pub make_missing : (Text → S.World → S.World × Bool) → Text → Step S.World
  make_missing make path w = if not (S.exists path w) then attempt (make path) w else (w, fine)

  -- The check of the mounts changes nothing.
  unfoldable pub ensure_host_fs_structure : Text → Step S.World
  ensure_host_fs_structure path_prefix =
      make_missing S.create_dir_all (dev_input_dir path_prefix)
      then? make_missing S.create_dir_all (data_dir path_prefix)
      then? make_missing S.create (control_file path_prefix)

  -- An error of the preparation is dropped.
  unfoldable pub initialize : ContainerRuntime → Text → S.World → S.World
  initialize runtime vudevname w =
      if uses_run_folder runtime then (ensure_host_fs_structure (path_prefix vudevname) w).0 else w
