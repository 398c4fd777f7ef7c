-- ===== src/Prelude/Text.antt =====
-- Text as its UTF-8 bytes, with the operations of `str` that the program uses, and decimal numbers.
use Prim.Native.Nat.{ℕ, zero, suc, ◌+◌, ◌-◌, ◌*◌, ◌/◌, ◌%◌}
use Prim.Native.Char.{code}
use Prim.Native.String.{String}
use mathlib.Core.Path.{◌≡◌, refl}
use mathlib.Core.Logic.{◌↔◌}
use mathlib.Core.Bool.{Bool, true, false, ◌&&◌, ◌||◌}
use mathlib.Core.Option.{Option, none, some}
use mathlib.Core.List.{List, [], ◌∷◌, ◌++◌}
use native.Mathlib.Omega.{arith}
use vuinputd.Prelude.Tests.{leb, ◌==◌, if◌then◌else◌}
use vuinputd.Prelude.Lists.{length}
use vuinputd.Prelude.Dict.{Eq}

abbrev pub Text : Type 0
Text = List ℕ

-- The bytes of an ASCII literal.
abbrev pub codes : String → Text
codes String.[] = []
codes (String.◌∷◌ c s) = code c ∷ codes s

unfoldable pub text_beq : Text → Text → Bool
text_beq [] [] = true
text_beq (a ∷ s) (b ∷ t) = a == b && text_beq s t
text_beq _ _ = false

pub text_beq_iff : (s t : Text) → (text_beq s t ≡ true) ↔ (s ≡ t)
unfolding text_beq
text_beq_iff [] [] = (λ _. refl, λ _. refl)
text_beq_iff [] (b ∷ t) = (λ h. cc, λ h. cc)
text_beq_iff (a ∷ s) [] = (λ h. cc, λ h. cc)
text_beq_iff (a ∷ s) (b ∷ t) =
    (λ h. ground (arith, text_beq_iff s t), λ h. ground (arith, text_beq_iff s t))

-- Left shut under `ground`, which reads `beq_iff` at the texts that it is given.
instance abbrev pub text_eq : Eq Text
text_eq = record { beq = text_beq; beq_iff = text_beq_iff }

-- `s.starts_with(p)`
unfoldable pub starts_with : Text → Text → Bool
starts_with s [] = true
starts_with [] (p ∷ ps) = false
starts_with (c ∷ cs) (p ∷ ps) = c == p && starts_with cs ps

-- `s.contains(p)`
unfoldable pub contains : Text → Text → Bool
unfolding starts_with
contains [] p = starts_with [] p
contains (c ∷ cs) p = starts_with (c ∷ cs) p || contains cs p

-- `s.replace(from, to)` for a pattern that is not empty; the number counts the bytes of a match that
-- are still to be passed over.
unfoldable pub replace_from : ℕ → Text → Text → Text → Text
unfolding starts_with
replace_from n from to [] = []
replace_from (suc n) from to (c ∷ cs) = replace_from n from to cs
replace_from zero from to (c ∷ cs) =
    let after = replace_from (length from - 1) from to cs in
    let next = replace_from zero from to cs in
    if starts_with (c ∷ cs) from then to ++ after else c ∷ next

unfoldable pub replace : Text → Text → Text → Text
unfolding replace_from
replace s from to = replace_from 0 from to s

abbrev starts_line : Text → Bool
starts_line [] = false
starts_line (c ∷ cs) = c == 10

abbrev cons_first : ℕ → List Text → List Text
cons_first c [] = (c ∷ []) ∷ []
cons_first c (l ∷ ls) = (c ∷ l) ∷ ls

-- `s.lines()`: lines end at a line feed, and a carriage return before it belongs to the end.
unfoldable pub lines : Text → List Text
lines [] = []
lines (c ∷ cs) =
    let rest = lines cs in
    if c == 10 then [] ∷ rest else if c == 13 && starts_line cs then rest else cons_first c rest

is_space : ℕ → Bool
is_space c = c == 32 || (leb 9 c && leb c 13)

abbrev starts_blank : Text → Bool
starts_blank [] = true
starts_blank (c ∷ cs) = is_space c

-- `s.split_whitespace()`, for ASCII white space.
unfoldable pub split_whitespace : Text → List Text
unfolding is_space
split_whitespace [] = []
split_whitespace (c ∷ cs) =
    let rest = split_whitespace cs in
    if is_space c then rest else if starts_blank cs then (c ∷ []) ∷ rest else cons_first c rest

trim_start : Text → Text
unfolding is_space
trim_start [] = []
trim_start (c ∷ cs) = let rest = trim_start cs in if is_space c then rest else c ∷ cs

abbrev cons_kept : ℕ → Text → Text
cons_kept c [] = if is_space c then [] else c ∷ []
cons_kept c (d ∷ ds) = c ∷ d ∷ ds

trim_end : Text → Text
unfolding is_space
trim_end [] = []
trim_end (c ∷ cs) = cons_kept c (trim_end cs)

-- `s.trim()`, for ASCII white space.
unfoldable pub trim : Text → Text
unfolding trim_start trim_end
trim s = trim_end (trim_start s)

abbrev is_digit : ℕ → Bool
is_digit c = leb 48 c && leb c 57

parse_digits : ℕ → ℕ → Text → Option ℕ
parse_digits limit acc [] = some acc
parse_digits limit acc (c ∷ cs) =
    let next = acc * 10 + (c - 48) in
    let rest = parse_digits limit next cs in if is_digit c && leb next limit then rest else none

parse_nonempty : ℕ → Text → Option ℕ
unfolding parse_digits
parse_nonempty limit [] = none
parse_nonempty limit (c ∷ cs) = parse_digits limit 0 (c ∷ cs)

-- `s.parse::<uN>()`, with the largest number of the type. A leading plus is accepted.
unfoldable pub parse_uint : ℕ → Text → Option ℕ
unfolding parse_nonempty
parse_uint limit [] = none
parse_uint limit (c ∷ cs) =
    if c == 43 then parse_nonempty limit cs else parse_nonempty limit (c ∷ cs)

abbrev pub u32_max : ℕ
u32_max = 4294967295

abbrev pub u64_max : ℕ
u64_max = 18446744073709551615

print_digits : ℕ → ℕ → Text → Text
print_digits zero n acc = acc
print_digits (suc fuel) n acc =
    let more = print_digits fuel (n / 10) ((48 + n % 10) ∷ acc) in
    if n / 10 == 0 then (48 + n % 10) ∷ acc else more

-- A number in decimal, as `{}` formats it.
unfoldable pub to_text : ℕ → Text
unfolding print_digits
to_text n = print_digits (suc n) n []

-- Whether a text would be taken for an option.
abbrev pub starts_dash : Text → Bool
starts_dash [] = false
starts_dash (c ∷ cs) = c == 45

print_digits-starts_dash :
    (fuel n : ℕ) (acc : Text)
    → starts_dash acc ≡ false
    → starts_dash (print_digits fuel n acc) ≡ false
unfolding print_digits
print_digits-starts_dash zero n acc h = h
print_digits-starts_dash (suc fuel) n acc h =
    ground (arith, print_digits-starts_dash fuel (n / 10) ((48 + n % 10) ∷ acc))

pub to_text-starts_dash : (n : ℕ) → starts_dash (to_text n) ≡ false
unfolding to_text
to_text-starts_dash n = print_digits-starts_dash (suc n) n [] refl

printed : to_text 40960 ≡ codes "40960"
unfolding to_text
printed = refl

parsed : parse_uint u32_max (codes "40960") ≡ some 40960
unfolding parse_uint
parsed = refl

replaced : replace (codes "E:ABC=1 ABC") (codes "ABC") (codes "DE") ≡ codes "E:DE=1 DE"
unfolding replace
replaced = refl

split : split_whitespace (codes "  0 10  5 ") ≡ codes "0" ∷ codes "10" ∷ codes "5" ∷ []
unfolding split_whitespace
split = refl

trimmed : trim (codes " 4 2\n ") ≡ codes "4 2"
unfolding trim
trimmed = refl
