-- ===== src/Inject/RuntimeData.antt =====
-- The udev data of a device: vuinputd/src/input_realizer/runtime_data.rs.
use vuinputd.Prelude.{ℕ, ◌≡◌, refl, Bool, not, ◌||◌, List, [], ◌∷◌, ◌++◌, if◌then◌else◌}
use vuinputd.Prelude.Text.{Text, codes, contains, replace, lines, to_text}
use vuinputd.Inject.{System, Step, fine, ◌then?◌, attempt}

-- Whether a line is about the seat.
abbrev pub seat_line : Text → Bool
seat_line line = contains line (codes "ID_SEAT=") || contains line (codes "seat_")

unfoldable pub renamed : Text → Text
renamed line =
    replace (replace line (codes "ID_VUINPUT_KEYBOARD=1") (codes "ID_INPUT_KEYBOARD=1"))
      (codes "ID_VUINPUT_MOUSE=1") (codes "ID_INPUT_MOUSE=1")

unfoldable pub cleaned : List Text → Text
unfolding renamed
cleaned [] = []
cleaned (line ∷ ls) =
    let rest = cleaned ls in if seat_line line then rest else renamed line ++ (10 ∷ rest)

-- `{prefix}/udev/data/c{major}:{minor}`
abbrev pub data_path : Text → ℕ → ℕ → Text
data_path path_prefix major minor =
    path_prefix ++ (codes "/udev/data/c" ++ (to_text major ++ (codes ":" ++ to_text minor)))

module _ (S : System) where
  ensure_data_dir : Step S.World
  ensure_data_dir w =
      if not (S.exists (codes "/run/udev/data") w)
      then attempt (S.create_dir_all (codes "/run/udev/data")) w
      else (w, fine)

  ensure_control : Step S.World
  ensure_control w =
      if not (S.exists (codes "/run/udev/control") w)
      then attempt (S.create (codes "/run/udev/control")) w
      else (w, fine)

  unfoldable pub ensure_udev_structure : Step S.World
  unfolding ensure_data_dir ensure_control
  ensure_udev_structure = ensure_data_dir then? ensure_control

  unfoldable pub write_udev_data : Text → Text → ℕ → ℕ → Step S.World
  unfolding cleaned
  write_udev_data path_prefix content major minor =
      let path = data_path path_prefix major minor in
      attempt (S.create path) then? attempt (S.write_all path (cleaned (lines content)))

  unfoldable pub delete_udev_data : Text → ℕ → ℕ → Step S.World
  delete_udev_data path_prefix major minor =
      attempt (S.remove_file (data_path path_prefix major minor))

-- The test of the source.
cleaned_test :
    cleaned
      (lines (codes "I:16\nE:ID_VUINPUT_KEYBOARD=1\nE:ID_SEAT=seat_vuinput\nG:seat_vuinput\nV:1"))
    ≡ codes "I:16\nE:ID_INPUT_KEYBOARD=1\nV:1\n"
unfolding cleaned contains lines replace
cleaned_test = refl
