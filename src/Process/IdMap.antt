-- ===== src/Process/IdMap.antt =====
-- The map of user and group numbers of a user namespace (vuinputd/src/process_tools/ns_fscreds.rs).
-- The numbers are u64 and add with wrap-around, as in a release build.
use mathlib.Core.Path.{subst, sym}
use vuinputd.Prelude.{
  ℕ, ◌+◌, ◌-◌, ◌%◌, ◌<◌, ◌≤◌, ◌≡◌, ◌⊎◌, inl, inr, refl, ◌&&◌, Option, none, some, List, [], ◌∷◌,
  leb, ltb, if◌then◌else◌, arith, All,
}
use vuinputd.Prelude.Text.{Text, codes, lines, split_whitespace, parse_uint, u64_max}

pub record IdMapEntry : Type 0 where
  pub inside_start : ℕ
  pub outside_start : ℕ
  pub length : ℕ

abbrev entry_of : Option ℕ → Option ℕ → Option ℕ → Option IdMapEntry
entry_of (some i) (some o) (some n) =
    some (record { inside_start = i; outside_start = o; length = n })
entry_of _ _ _ = none

-- The fields of a line.
abbrev parse_fields : List Text → Option IdMapEntry
parse_fields (i ∷ o ∷ n ∷ more) =
    entry_of (parse_uint u64_max i) (parse_uint u64_max o) (parse_uint u64_max n)
parse_fields _ = none

-- `filter_map` over the lines.
abbrev parse_lines : List Text → List IdMapEntry
parse_lines [] = []
parse_lines (line ∷ ls) =
    let rest = parse_lines ls in
    elim (parse_fields (split_whitespace line)) [ none ↦ rest | some e ↦ e ∷ rest ]

-- `parse_id_map`, from the content of the file; `none` where it cannot be opened.
unfoldable pub parse_id_map : Option Text → Option (List IdMapEntry)
parse_id_map none = none
parse_id_map (some content) = some (parse_lines (lines content))

abbrev pub u64_wrap : ℕ → ℕ
u64_wrap n = n % 18446744073709551616

unfoldable pub to_host_id : List IdMapEntry → ℕ → Option ℕ
to_host_id [] inside_id = none
to_host_id (e ∷ entries) inside_id =
    let rest = to_host_id entries inside_id in
    if leb e.inside_start inside_id && ltb inside_id (u64_wrap (e.inside_start + e.length))
    then some (u64_wrap (e.outside_start + (inside_id - e.inside_start)))
    else rest

-- `get_uid_in_container`, and `get_gid_in_container` for the other file.
unfoldable pub get_id_in_container : Option Text → ℕ → Option ℕ
unfolding parse_id_map to_host_id
get_id_in_container content ns_id = elim (parse_id_map content) [
  | none ↦ none
  | some entries ↦ elim (to_host_id entries ns_id) [
    | none ↦ none
    | some id ↦ some (id % 4294967296)
  ]
]

-- The map of a rootless container.
rootless : get_id_in_container (some (codes "0 100000 65536\n")) 7 ≡ some 100007
unfolding get_id_in_container lines split_whitespace parse_uint
rootless = refl

-- An entry as the kernel writes it: its ranges are of 32-bit numbers.
abbrev pub IsIdRange : IdMapEntry → Type 0
IsIdRange e = (e.inside_start + e.length ≤ 4294967296) × (e.outside_start + e.length ≤ 4294967296)

abbrev pub Covers : IdMapEntry → ℕ → Type 0
Covers e id = (e.inside_start ≤ id) × (id < e.inside_start + e.length)

-- The specification: the first entry that covers the number places it.
pub data Placed (id : ℕ) : List IdMapEntry → Option ℕ → Type 0 where
  nowhere : Placed id [] none
  here :
      (e : IdMapEntry) (es : List IdMapEntry)
      → Covers e id
      → Placed id (e ∷ es) (some (e.outside_start + (id - e.inside_start)))
  later :
      (e : IdMapEntry) (es : List IdMapEntry) {o : Option ℕ}
      → (id < e.inside_start) ⊎ (e.inside_start + e.length ≤ id)
      → Placed id es o
      → Placed id (e ∷ es) o

covered? :
    (e : IdMapEntry) (id : ℕ)
    → Covers e id ⊎ ((id < e.inside_start) ⊎ (e.inside_start + e.length ≤ id))
covered? e id = ground arith

first_hit :
    (e : IdMapEntry) (es : List IdMapEntry) (id : ℕ)
    → IsIdRange e
    → Covers e id
    → to_host_id (e ∷ es) id ≡ some (e.outside_start + (id - e.inside_start))
unfolding to_host_id
first_hit e es id r c = ground arith

first_miss :
    (e : IdMapEntry) (es : List IdMapEntry) (id : ℕ)
    → IsIdRange e
    → (id < e.inside_start) ⊎ (e.inside_start + e.length ≤ id)
    → to_host_id (e ∷ es) id ≡ to_host_id es id
unfolding to_host_id
first_miss e es id r n = ground arith

-- In a map whose ranges, inside and outside, are of 32-bit numbers, a number is placed by the first
-- range that covers it, at its distance from the start of the range and without a wrap-around, and
-- one that no range covers is not placed.
pub to_host_id-Placed :
    (es : List IdMapEntry) (id : ℕ) → All IsIdRange es → Placed id es (to_host_id es id)
unfolding to_host_id
to_host_id-Placed [] id h = nowhere
to_host_id-Placed (e ∷ es) id h = elim (covered? e id) [
  | inl c ↦ subst (Placed id (e ∷ es)) (sym (first_hit e es id h.0 c)) (here e es c)
  | inr n ↦
      subst (Placed id (e ∷ es)) (sym (first_miss e es id h.0 n))
        (later e es n (to_host_id-Placed es id h.1))
]
