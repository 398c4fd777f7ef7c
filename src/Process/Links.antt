-- ===== src/Process/Links.antt =====
-- The namespaces of a process, read from the links under /proc/<pid>/ns
-- (vuinputd/src/process_tools/mod.rs).
use vuinputd.Prelude.{
  ℕ, ◌+◌, ◌-◌, ◌≡◌, refl, Option, none, some, List, [], ◌∷◌, ◌==◌, ltb, take, drop, if◌then◌else◌,
}
use vuinputd.Prelude.Text.{Text, codes, text_beq, parse_uint, u64_max}
use vuinputd.Fuse.{Outcome, panicked, returned, ◌>>=◌}
use vuinputd.Process.{Namespaces}

-- A link: its name, and what it points to; `none` where it cannot be read.
pub record NsLink : Type 0 where
  pub file_name : Text
  pub link : Option Text

abbrev pub no_namespaces : Namespaces
no_namespaces = record {
  net = none;
  uts = none;
  ipc = none;
  pid = none;
  pid_for_children = none;
  user = none;
  mnt = none;
  cgroup = none;
  time = none;
  time_for_children = none;
}

-- `s.find(c)`
unfoldable pub find : ℕ → Text → Option ℕ
find c [] = none
find c (b ∷ s) =
    let rest = find c s in
    if b == c then some 0 else elim rest [ none ↦ none | some i ↦ some (i + 1) ]

-- The number between the brackets; a slice that starts behind its end panics.
inode_between : Option ℕ → Option ℕ → Text → Outcome (Option ℕ)
inode_between (some start) (some end) s =
    if ltb end (start + 1)
    then panicked
    else returned (parse_uint u64_max (take (end - (start + 1)) (drop (start + 1) s)))
inode_between _ _ s = returned none

unfoldable pub inode_of : Text → Outcome (Option ℕ)
unfolding find inode_between
inode_of s = inode_between (find 91 s) (find 93 s) s

-- The `match` on the name of the link.
unfoldable pub set_namespace : Text → ℕ → Namespaces → Namespaces
set_namespace name inode ns =
    if text_beq name (codes "net")
    then record ns { net = some inode }
    else if text_beq name (codes "uts")
    then record ns { uts = some inode }
    else if text_beq name (codes "ipc")
    then record ns { ipc = some inode }
    else if text_beq name (codes "pid")
    then record ns { pid = some inode }
    else if text_beq name (codes "pid_for_children")
    then record ns { pid_for_children = some inode }
    else if text_beq name (codes "user")
    then record ns { user = some inode }
    else if text_beq name (codes "mnt")
    then record ns { mnt = some inode }
    else if text_beq name (codes "cgroup")
    then record ns { cgroup = some inode }
    else if text_beq name (codes "time")
    then record ns { time = some inode }
    else if text_beq name (codes "time_for_children")
    then record ns { time_for_children = some inode }
    else ns

set_found : Text → Option ℕ → Namespaces → Namespaces
unfolding set_namespace
set_found name none ns = ns
set_found name (some inode) ns = set_namespace name inode ns

-- The loop over the entries; an entry that cannot be read panics.
unfoldable pub read_links : List (Option NsLink) → Namespaces → Outcome Namespaces
unfolding inode_of set_found
read_links [] ns = returned ns
read_links (none ∷ entries) ns = panicked
read_links (some entry ∷ entries) ns = elim entry.link [
  | none ↦ panicked
  | some s ↦ inode_of s >>= λ found. read_links entries (set_found entry.file_name found ns)
]

-- `get_namespace`, from what reading the directory gives.
unfoldable pub get_namespace : Option (List (Option NsLink)) → Outcome Namespaces
unfolding read_links
get_namespace none = panicked
get_namespace (some entries) = read_links entries no_namespaces

abbrev link_of : Text → Text → Option NsLink
link_of name target = some (record { file_name = name; link = some target })

-- Two links as the kernel shows them.
links_read :
    get_namespace (
      some (
        link_of (codes "mnt") (codes "mnt:[4026531841]")
        ∷ link_of (codes "net") (codes "net:[4026531840]")
        ∷ []))
    ≡ returned (record no_namespaces { mnt = some 4026531841; net = some 4026531840 })
unfolding get_namespace text_beq parse_uint
links_read = refl
