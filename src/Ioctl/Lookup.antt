-- ===== src/Ioctl/Lookup.antt =====
-- How the device node of a new device is found (vuinputd/src/cuse_device/vuinput_ioctl.rs). What the
-- file system answers is a parameter.
use vuinputd.Prelude.{
  ℕ, ◌+◌, ◌*◌, ◌/◌, ◌%◌, ◌<◌, ◌≡◌, Bool, not, Option, none, some, List, [], ◌∷◌, ◌++◌, arith,
  if◌then◌else◌,
}
use vuinputd.Prelude.Text.{Text, codes, starts_with}

-- An entry of a directory: its name, a name that is no text, or an error.
pub data DirEntry : Type 0 where
  name : Text → DirEntry
  not_text : DirEntry
  failed : DirEntry

-- The loop over the entries; `none`: an error.
unfoldable pub find_event : List DirEntry → Option (Text × Text)
find_event [] = none
find_event (failed ∷ entries) = none
find_event (not_text ∷ entries) = find_event entries
find_event (name n ∷ entries) =
    let rest = find_event entries in
    if starts_with n (codes "event") then some (n, codes "/dev/input/" ++ n) else rest

-- `fs::read_dir` gives the entries or an error.
unfoldable pub fetch_device_node : (Text → Option (List DirEntry)) → Text → Option (Text × Text)
unfolding find_event
fetch_device_node read_dir path = elim (read_dir path) [
  | none ↦ none
  | some entries ↦ find_event entries
]

-- `((rdev >> 8) & 0xfff, (rdev & 0xff) | ((rdev >> 12) & 0xfff00))`
unfoldable pub numbers_of : ℕ → ℕ × ℕ
numbers_of rdev = (rdev / 256 % 4096, rdev % 256 + rdev / 1048576 % 4096 * 256)

-- `fs::metadata` gives whether the file is a character device and its `rdev`, or an error.
unfoldable pub fetch_major_minor : (Text → Option (Bool × ℕ)) → Text → Option (ℕ × ℕ)
unfolding numbers_of
fetch_major_minor metadata path = elim (metadata path) [
  | none ↦ none
  | some (is_char_device, rdev) ↦ if not is_char_device then none else some (numbers_of rdev)
]

-- `makedev` of the C library, by which the kernel's device number is written.
abbrev pub makedev : ℕ → ℕ → ℕ
makedev major minor =
    minor % 256 + major % 4096 * 256 + minor / 256 * 1048576 + major / 4096 * 17592186044416

makedev-major :
    (major minor : ℕ) → major < 4096 → minor < 1048576 → makedev major minor / 256 % 4096 ≡ major
makedev-major major minor h k = omega arith

makedev-minor :
    (major minor : ℕ)
    → major < 4096
    → minor < 1048576
    → makedev major minor % 256 + makedev major minor / 1048576 % 4096 * 256 ≡ minor
makedev-minor major minor h k = omega arith

-- The numbers of a device are read back from the device number: of every minor below 2^20 and every
-- major below 2^12.
pub numbers_of-makedev :
    (major minor : ℕ)
    → major < 4096
    → minor < 1048576
    → numbers_of (makedev major minor) ≡ (major, minor)
unfolding numbers_of
numbers_of-makedev major minor h k =
    rw (makedev-major major minor h k, makedev-minor major minor h k)
