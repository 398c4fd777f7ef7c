-- ===== src/Process/Ancestry.antt =====
-- The root process of the client's container: `get_ppid` and `get_requesting_process`
-- (vuinputd/src/process_tools/mod.rs). What /proc shows of each process is a parameter.
use vuinputd.Prelude.{
  ◌++◌, ◌==◌, ℕ, zero, suc, ◌<◌, ◌≡◌, refl, Bool, true, false, Option, none, some, List, [], ◌∷◌,
  if◌then◌else◌, arith, inl, inr, Option-cases, Bool-cases,
}
use vuinputd.Prelude.Text.{
  Text, codes, starts_with, text_beq, lines, split_whitespace, parse_uint, u32_max,
}
use vuinputd.Fuse.{Outcome-cases, Outcome, panicked, returned}
use vuinputd.Process.{Namespaces, RequestingProcess, equal_mnt_and_net}

-- `.lines().find(|line| line.starts_with("PPid:"))`
abbrev find_ppid : List Text → Option Text
find_ppid [] = none
find_ppid (line ∷ ls) =
    let rest = find_ppid ls in if starts_with line (codes "PPid:") then some line else rest

abbrev second : List Text → Option Text
second (a ∷ b ∷ more) = some b
second _ = none

-- From the content of /proc/<pid>/status, `none` where it cannot be read.
unfoldable pub get_ppid : Option Text → Option ℕ
get_ppid none = none
get_ppid (some content) = elim (find_ppid (lines content)) [
  | none ↦ none
  | some line ↦ elim (second (split_whitespace line)) [
    | none ↦ none
    | some ppid ↦ parse_uint u32_max ppid
  ]
]

parent_read : get_ppid (some (codes "Name:\tinit\nPid:\t1\nPPid:\t0\n")) ≡ some 0
unfolding get_ppid starts_with lines split_whitespace parse_uint
parent_read = refl

-- The byte EI_CLASS of an ELF header.
abbrev class_of : ℕ → Option Bool
class_of elf_class =
    if elf_class == 1 then some true else if elf_class == 2 then some false else none

-- From the program's file, `none` where it cannot be read; the five bytes are read exactly.
unfoldable pub is_compat_process : Option Text → Option Bool
is_compat_process (some (a ∷ b ∷ c ∷ d ∷ elf_class ∷ more)) =
    if text_beq (a ∷ b ∷ c ∷ d ∷ []) (127 ∷ codes "ELF") then class_of elf_class else none
is_compat_process _ = none

-- A file of the first five bytes of a 32-bit program.
compat_program : is_compat_process (some (127 ∷ codes "ELF" ++ (1 ∷ []))) ≡ some true
unfolding is_compat_process text_beq
compat_program = refl

-- /proc: the status file, the namespaces and the program's file of each process.
pub record Proc : Type 0 where
  pub status : ℕ → Option Text
  pub namespace : ℕ → Outcome Namespaces
  pub exe : ℕ → Option Text

module _ (proc : Proc) where
  -- The loop up the parents; `none` when the fuel is used up.
  unfoldable pub climb : ℕ → Namespaces → ℕ → Option (Outcome ℕ)
  climb zero nsinodes ppid = none
  climb (suc fuel) nsinodes ppid = elim (get_ppid (proc.status ppid)) [
    | none ↦ some (returned ppid)
    | some candidate_ppid ↦ elim (proc.namespace candidate_ppid) [
      | panicked ↦ some panicked
      | returned ppid_nsinodes ↦ elim (equal_mnt_and_net nsinodes ppid_nsinodes) [
        | true ↦ climb fuel nsinodes candidate_ppid
        | false ↦ some (returned ppid)
      ]
    ]
  ]

  abbrev pub process_of : ℕ → Namespaces → Option (Outcome ℕ) → Option (Outcome RequestingProcess)
  process_of pid nsinodes none = none
  process_of pid nsinodes (some panicked) = some panicked
  process_of pid nsinodes (some (returned ppid)) = some (
      returned (record {
        pid_requestor = pid;
        pid_requestor_root = ppid;
        namespaces = nsinodes;
        is_compat = elim (is_compat_process (proc.exe pid)) [ none ↦ false | some b ↦ b ];
      }))

  unfoldable pub get_requesting_process : ℕ → ℕ → Option (Outcome RequestingProcess)
  unfolding climb
  get_requesting_process fuel pid = elim (proc.namespace pid) [
    | panicked ↦ some panicked
    | returned nsinodes ↦ process_of pid nsinodes (climb fuel nsinodes pid)
  ]

  -- The specification: the topmost process that is reached from below through parents of the same
  -- mount and network namespaces, or a panic at a parent whose namespaces cannot be read.
  pub data Root (ns : Namespaces) : ℕ → Outcome ℕ → Type 0 where
    no_parent : {p : ℕ} → get_ppid (proc.status p) ≡ none → Root ns p (returned p)
    border :
        {p q : ℕ} {n : Namespaces}
        → get_ppid (proc.status p) ≡ some q
        → proc.namespace q ≡ returned n
        → equal_mnt_and_net ns n ≡ false
        → Root ns p (returned p)
    unreadable :
        {p q : ℕ}
        → get_ppid (proc.status p) ≡ some q
        → proc.namespace q ≡ panicked
        → Root ns p panicked
    above :
        {p q : ℕ} {n : Namespaces} {o : Outcome ℕ}
        → get_ppid (proc.status p) ≡ some q
        → proc.namespace q ≡ returned n
        → equal_mnt_and_net ns n ≡ true
        → Root ns q o
        → Root ns p o

  -- The parents of a process form a chain that ends: each has a smaller depth.
  abbrev pub IsTree : (ℕ → ℕ) → Type 0
  IsTree depth = (p q : ℕ) → get_ppid (proc.status p) ≡ some q → depth q < depth p

  -- Where the parents form a tree, a number of rounds above the depth of the process is enough, and
  -- the climb ends as the specification says.
  pub climb-Root :
      (depth : ℕ → ℕ)
      → IsTree depth
      → (fuel : ℕ) (ns : Namespaces) (p : ℕ) → depth p < fuel
      → (o : Outcome ℕ) × (climb fuel ns p ≡ some o) × Root ns p o
  unfolding climb
  climb-Root depth tree zero ns p h = absurd (omega arith)
  climb-Root depth tree (suc fuel) ns p h = elim (Option-cases (get_ppid (proc.status p))) [
    | inl e ↦ (returned p, rw (climb, e) refl, no_parent e)
    | inr (q, e) ↦ elim (Outcome-cases (proc.namespace q)) [
      | inl r ↦ (panicked, rw (climb, e, r) refl, unreadable e r)
      | inr (n, r) ↦ elim (Bool-cases (equal_mnt_and_net ns n)) [
        | inl b ↦
            let below = tree p q e in
            let (o, c, root) = climb-Root depth tree fuel ns q (omega arith) in
            (o, rw (climb, e, r, b) c, above e r b root)
        | inr b ↦ (returned p, rw (climb, e, r, b) refl, border e r b)
      ]
    ]
  ]

  -- Where the parents of processes form a tree, by some measure that falls from a process to its
  -- parent, and the client's namespaces can be read, the loop ends within as many rounds as the measure
  -- of the client and one. The root process that it finds is the topmost one that is reached through
  -- parents in the client's mount and network namespaces; a parent on that way whose namespaces cannot
  -- be read makes it panic.
  pub get_requesting_process-Root :
      (depth : ℕ → ℕ)
      → IsTree depth
      → (fuel pid : ℕ) {ns : Namespaces} → proc.namespace pid ≡ returned ns
      → depth pid < fuel
      → (o : Outcome ℕ) × Root ns pid o
        × (get_requesting_process fuel pid ≡ process_of pid ns (some o))
  unfolding get_requesting_process
  get_requesting_process-Root depth tree fuel pid {ns} r h =
      let (o, c, root) = climb-Root depth tree fuel ns pid h in
      (o, root, rw (get_requesting_process, r, c) refl)
