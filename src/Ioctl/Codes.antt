-- ===== src/Ioctl/Codes.antt =====
-- The commands and how a request code is recognised (uinput-ioctls/src/lib.rs,
-- vuinputd/src/cuse_device/vuinput_ioctl.rs).
use vuinputd.Prelude.{
  ℕ, ◌+◌, ◌*◌, ◌/◌, ◌%◌, ◌<◌, ◌≡◌, ◌≢◌, ◌↔◌, refl, ap, sym, ◌∙◌, ◌⊎◌, inl, inr, ◌==◌, arith,
  if◌then◌else◌,
}
use vuinputd.Device.{BitKind, ev, key, rel, abs, msc, led, snd, ff, sw, prop}

pub data Command : Type 0 where
  dev_create dev_destroy dev_setup abs_setup get_sysname get_version : Command
  set_bit : BitKind → Command
  set_phys : Command
  begin_ff_upload end_ff_upload begin_ff_erase end_ff_erase : Command
  unknown : Command

-- `_IOC(direction, b'U', number, size)`
abbrev pub request_code : ℕ → ℕ → ℕ → ℕ
request_code direction number size = direction * 1073741824 + size * 65536 + 21760 + number

-- The sizes of the structures, on x86-64.
abbrev pub uinput_setup_size : ℕ
uinput_setup_size = 92

abbrev pub uinput_abs_setup_size : ℕ
uinput_abs_setup_size = 28

abbrev pub uinput_ff_upload_size : ℕ
uinput_ff_upload_size = 104

abbrev pub uinput_ff_erase_size : ℕ
uinput_ff_erase_size = 12

-- The constants UI_….
abbrev pub code_of : Command → ℕ
code_of dev_create = request_code 0 1 0
code_of dev_destroy = request_code 0 2 0
code_of dev_setup = request_code 1 3 uinput_setup_size
code_of abs_setup = request_code 1 4 uinput_abs_setup_size
code_of get_sysname = request_code 2 44 0
code_of get_version = request_code 2 45 4
code_of (set_bit ev) = request_code 1 100 4
code_of (set_bit key) = request_code 1 101 4
code_of (set_bit rel) = request_code 1 102 4
code_of (set_bit abs) = request_code 1 103 4
code_of (set_bit msc) = request_code 1 104 4
code_of (set_bit led) = request_code 1 105 4
code_of (set_bit snd) = request_code 1 106 4
code_of (set_bit ff) = request_code 1 107 4
code_of set_phys = request_code 1 108 8
code_of (set_bit sw) = request_code 1 109 4
code_of (set_bit prop) = request_code 1 110 4
code_of begin_ff_upload = request_code 3 200 uinput_ff_upload_size
code_of end_ff_upload = request_code 1 201 uinput_ff_upload_size
code_of begin_ff_erase = request_code 3 202 uinput_ff_erase_size
code_of end_ff_erase = request_code 1 203 uinput_ff_erase_size
code_of unknown = 0

-- `cmd_u64 & !(SIZEMASK << SIZESHIFT)`: bits 16 to 29 cleared.
unfoldable pub cmd_without_size : ℕ → ℕ
cmd_without_size cmd = cmd / 1073741824 * 1073741824 + cmd % 65536

unfoldable pub cmd_normalized : ℕ → ℕ
unfolding cmd_without_size
cmd_normalized cmd =
    if cmd_without_size cmd == code_of get_sysname then code_of get_sysname else cmd

-- The arms of the second `match`, in three functions in the order of the source.
command_ff : ℕ → Command
command_ff cmd =
    if cmd == code_of begin_ff_upload
    then begin_ff_upload
    else if cmd == code_of end_ff_upload
    then end_ff_upload
    else if cmd == code_of begin_ff_erase
    then begin_ff_erase
    else if cmd == code_of end_ff_erase
    then end_ff_erase
    else unknown

command_bits : ℕ → Command
command_bits cmd =
    if cmd == code_of (set_bit ev)
    then set_bit ev
    else if cmd == code_of (set_bit key)
    then set_bit key
    else if cmd == code_of (set_bit rel)
    then set_bit rel
    else if cmd == code_of (set_bit abs)
    then set_bit abs
    else if cmd == code_of (set_bit msc)
    then set_bit msc
    else if cmd == code_of (set_bit led)
    then set_bit led
    else if cmd == code_of (set_bit snd)
    then set_bit snd
    else if cmd == code_of (set_bit ff)
    then set_bit ff
    else if cmd == code_of set_phys
    then set_phys
    else if cmd == code_of (set_bit sw)
    then set_bit sw
    else if cmd == code_of (set_bit prop)
    then set_bit prop
    else command_ff cmd

unfoldable pub command : ℕ → Command
unfolding command_ff command_bits
command cmd =
    if cmd == code_of dev_create
    then dev_create
    else if cmd == code_of dev_destroy
    then dev_destroy
    else if cmd == code_of dev_setup
    then dev_setup
    else if cmd == code_of abs_setup
    then abs_setup
    else if cmd == code_of get_sysname
    then get_sysname
    else if cmd == code_of get_version
    then get_version
    else command_bits cmd

command-set_bit : (b : BitKind) → command (cmd_normalized (code_of (set_bit b))) ≡ set_bit b
unfolding command cmd_normalized
command-set_bit ev = refl
command-set_bit _ = refl

-- Every command is recognised, after normalisation, by its own code.
pub command-code_of : (c : Command) → command (cmd_normalized (code_of c)) ≡ c
unfolding command cmd_normalized
command-code_of (set_bit b) = command-set_bit b
command-code_of dev_create = refl
command-code_of _ = refl

-- The request for the name of the device is recognised with every length below 2^14 in its code.
pub command-get_sysname :
    (len : ℕ) → len < 16384 → command (cmd_normalized (request_code 2 44 len)) ≡ get_sysname
unfolding command cmd_normalized cmd_without_size
command-get_sysname len h = ground arith

command_ff-code : (cmd : ℕ) → (command_ff cmd ≡ unknown) ⊎ (code_of (command_ff cmd) ≡ cmd)
unfolding command_ff
command_ff-code cmd = ground arith

command_bits-code : (cmd : ℕ) → (command_bits cmd ≡ unknown) ⊎ (code_of (command_bits cmd) ≡ cmd)
unfolding command_bits
command_bits-code cmd = ground (arith, command_ff-code cmd)

command-code : (cmd : ℕ) → (command cmd ≡ unknown) ⊎ (code_of (command cmd) ≡ cmd)
unfolding command
command-code cmd = ground (arith, command_bits-code cmd)

-- A command that is recognised, but for the last one, has the code that was normalised.
command-code_of_known : (cmd : ℕ) {c : Command} → c ≢ unknown → command cmd ≡ c → code_of c ≡ cmd
command-code_of_known cmd n h = elim (command-code cmd) [
  | inl u ↦ absurd (n (sym h ∙ u))
  | inr e ↦ sym (ap code_of h) ∙ e
]

-- The codes of linux/uinput.h on x86-64 for the bits of each kind.
abbrev pub bit_code : BitKind → ℕ
bit_code ev = 0x40045564
bit_code key = 0x40045565
bit_code rel = 0x40045566
bit_code abs = 0x40045567
bit_code msc = 0x40045568
bit_code led = 0x40045569
bit_code snd = 0x4004556a
bit_code ff = 0x4004556b
bit_code sw = 0x4004556d
bit_code prop = 0x4004556e

-- The codes that linux/uinput.h has for a command: one, or one for each length of the buffer.
abbrev pub IsCodeOf : Command → ℕ → Type 0
IsCodeOf dev_create cmd = cmd ≡ 0x5501
IsCodeOf dev_destroy cmd = cmd ≡ 0x5502
IsCodeOf dev_setup cmd = cmd ≡ 0x405c5503
IsCodeOf abs_setup cmd = cmd ≡ 0x401c5504
IsCodeOf get_sysname cmd = (len : ℕ) × (len < 16384) × (cmd ≡ 0x8000552c + len * 65536)
IsCodeOf get_version cmd = cmd ≡ 0x8004552d
IsCodeOf (set_bit kind) cmd = cmd ≡ bit_code kind
IsCodeOf set_phys cmd = cmd ≡ 0x4008556c
IsCodeOf begin_ff_upload cmd = cmd ≡ 0xc06855c8
IsCodeOf end_ff_upload cmd = cmd ≡ 0x406855c9
IsCodeOf begin_ff_erase cmd = cmd ≡ 0xc00c55ca
IsCodeOf end_ff_erase cmd = cmd ≡ 0x400c55cb
IsCodeOf unknown cmd = ⊥

-- Only the name of the device is normalised.
normalized-other :
    (cmd : ℕ) {code : ℕ} → code ≢ code_of get_sysname → cmd_normalized cmd ≡ code → cmd ≡ code
unfolding cmd_normalized
normalized-other cmd n h = ground arith

normalized-get_sysname :
    (cmd : ℕ) → code_of get_sysname ≡ cmd_normalized cmd → IsCodeOf get_sysname cmd
unfolding cmd_normalized cmd_without_size
normalized-get_sysname cmd h = (cmd / 65536 % 16384, ground arith, ground arith)

bit-code : (kind : BitKind) → bit_code kind ≡ code_of (set_bit kind)
bit-code ev = refl
bit-code _ = refl

-- The code that was normalised is one of the table.
code_of-IsCodeOf :
    (c : Command) (cmd : ℕ) → c ≢ unknown → code_of c ≡ cmd_normalized cmd → IsCodeOf c cmd
code_of-IsCodeOf get_sysname cmd n h = normalized-get_sysname cmd h
code_of-IsCodeOf unknown cmd n h = absurd (n refl)
code_of-IsCodeOf (set_bit kind) cmd n h =
    normalized-other cmd (λ e. other kind (bit-code kind ∙ e)) (sym h) ∙ sym (bit-code kind)
  where
    other : (kind : BitKind) → bit_code kind ≢ code_of get_sysname
    other ev e = omega arith
    other _ e = omega arith
code_of-IsCodeOf _ cmd n h = normalized-other cmd (λ e. omega arith) (sym h)

IsCodeOf-command : (c : Command) (cmd : ℕ) → IsCodeOf c cmd → command (cmd_normalized cmd) ≡ c
IsCodeOf-command get_sysname cmd (len, lt, e) =
    let e' : cmd ≡ request_code 2 44 len = omega arith in
    ap (λ x. command (cmd_normalized x)) e' ∙ command-get_sysname len lt
IsCodeOf-command unknown cmd h = absurd h
IsCodeOf-command (set_bit kind) cmd h =
    ap (λ x. command (cmd_normalized x)) (h ∙ bit-code kind) ∙ command-code_of (set_bit kind)
IsCodeOf-command c cmd h = ap (λ x. command (cmd_normalized x)) h ∙ command-code_of _

-- A request is recognised as a command exactly if its code is one that linux/uinput.h has for the
-- command on x86-64: its only one, or for the name of the device the one for any length below 2^14.
pub command-exact :
    (cmd : ℕ) (c : Command) → c ≢ unknown → (command (cmd_normalized cmd) ≡ c) ↔ IsCodeOf c cmd
command-exact cmd c n = (
  λ h. code_of-IsCodeOf c cmd n (command-code_of_known (cmd_normalized cmd) n h),
  IsCodeOf-command c cmd,
)
