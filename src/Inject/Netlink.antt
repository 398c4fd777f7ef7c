-- ===== src/Inject/Netlink.antt =====
-- The netlink message that announces a device in the container
-- (vuinputd/src/input_realizer/netlink_message.rs), on a little-endian machine.
use vuinputd.Prelude.{
  ℕ, ◌+◌, ◌*◌, ◌/◌, ◌%◌, ◌≤◌, ◌≡◌, refl, ap, ◌∙◌, Option, none, some, List, [], ◌∷◌, ◌++◌, length,
  take, drop, ltb, if◌then◌else◌, arith,
}
use vuinputd.Prelude.Dict.{Dict}
use vuinputd.Prelude.Text.{Text, codes, text_beq}
use vuinputd.Fuse.{Outcome, panicked, returned, ◌>>=◌}
use vuinputd.Write.Bytes.{to_le, field}
use vuinputd.Inject.{System, Step, Ended}

abbrev pub udev_event_mode : ℕ
udev_event_mode = 2

abbrev pub udev_monitor_magic : ℕ
udev_monitor_magic = 0xfeedcafe

abbrev pub max_netlink_payload : ℕ
max_netlink_payload = 65536

-- `size_of::<MonitorNetlinkHeader>()`
abbrev pub header_len : ℕ
header_len = 40

-- `to_be` of a u32: its bytes in reverse.
abbrev pub to_be : ℕ → ℕ
to_be n = n % 256 * 16777216 + n / 256 % 256 * 65536 + n / 65536 % 256 * 256 + n / 16777216 % 256

pub record MonitorNetlinkHeader : Type 0 where
  pub prefix : List ℕ
  pub magic : ℕ
  pub header_size : ℕ
  pub properties_off : ℕ
  pub properties_len : ℕ
  pub filter_subsystem_hash : ℕ
  pub filter_devtype_hash : ℕ
  pub filter_tag_bloom_hi : ℕ
  pub filter_tag_bloom_lo : ℕ

unfoldable pub string_hash32 : Text → Outcome ℕ
string_hash32 s =
    if text_beq s (codes "input")
    then returned 3248653424
    else if text_beq s []
    then returned 0
    else panicked

-- The hash of an optional filter.
filter_hash : Option Text → Outcome ℕ
unfolding string_hash32
filter_hash none = returned 0
filter_hash (some s) = string_hash32 s >>= λ h. returned (to_be h)

unfoldable pub new_header : ℕ → Option Text → Option Text → Outcome MonitorNetlinkHeader
unfolding filter_hash
new_header properties_len subsystem devtype = filter_hash subsystem >>= λ s.
    filter_hash devtype >>= λ d. returned (record {
      prefix = codes "libudev" ++ (0 ∷ []);
      magic = to_be udev_monitor_magic;
      header_size = header_len;
      properties_off = header_len;
      properties_len = properties_len % 4294967296;
      filter_subsystem_hash = s;
      filter_devtype_hash = d;
      filter_tag_bloom_hi = 0;
      filter_tag_bloom_lo = 0;
    })

unfoldable pub to_bytes : MonitorNetlinkHeader → List ℕ
to_bytes h =
    h.prefix
    ++ (to_le 4 h.magic
        ++ (to_le 4 h.header_size
            ++ (to_le 4 h.properties_off
                ++ (to_le 4 h.properties_len
                    ++ (to_le 4 h.filter_subsystem_hash
                        ++ (to_le 4 h.filter_devtype_hash
                            ++ (to_le 4 h.filter_tag_bloom_hi
                                ++ to_le 4 h.filter_tag_bloom_lo)))))))

-- `key=value\0` for every property.
unfoldable pub payload_of : Dict Text Text → List ℕ
payload_of [] = []
payload_of ((key, value) ∷ properties) = key ++ (61 ∷ value ++ (0 ∷ payload_of properties))

-- The message that is sent: an error when it is too long, and else its bytes.
unfoldable pub message_of : List ℕ → Option Text → Option Text → Outcome (Option (List ℕ))
unfolding new_header to_bytes
message_of payload subsystem devtype =
    if ltb max_netlink_payload (length payload + header_len)
    then returned none
    else (new_header (length payload) subsystem devtype >>= λ h.
        returned (some (to_bytes h ++ payload)))

-- What a receiver of the udev monitor protocol does with a message: the properties are found by the
-- offset and the length in the header.
abbrev pub properties_of : List ℕ → List ℕ
properties_of message = take (field 20 4 message) (drop (field 16 4 message) message)

module _ (S : System) where
  -- The error of the sending is dropped, that of the opening is not.
  unfoldable pub send_udev_monitor_message_with_properties : Dict Text Text → Step S.World
  unfolding message_of payload_of
  send_udev_monitor_message_with_properties properties w =
      elim (message_of (payload_of properties) (some (codes "input")) none) [
        | panicked ↦ (w, Ended.panicked)
        | returned none ↦ (w, Ended.panicked)
        | returned (some message) ↦
            let (w', ok) = S.send_netlink udev_event_mode message w in
            if ok then (w', Ended.fine) else (w', Ended.panicked)
      ]

take-all : {A : Type 0} (xs : List A) → take (length xs) xs ≡ xs
take-all [] = refl
take-all (x ∷ xs) = ap (λ ys. x ∷ ys) (take-all xs)

-- The header of a message for the subsystem input.
abbrev input_header : ℕ → MonitorNetlinkHeader
input_header n = record {
  prefix = codes "libudev" ++ (0 ∷ []);
  magic = to_be udev_monitor_magic;
  header_size = header_len;
  properties_off = header_len;
  properties_len = n % 4294967296;
  filter_subsystem_hash = to_be 3248653424;
  filter_devtype_hash = 0;
  filter_tag_bloom_hi = 0;
  filter_tag_bloom_lo = 0;
}

message_of-short :
    (payload : List ℕ)
    → length payload ≤ 65496
    → message_of payload (some (codes "input")) none
      ≡ returned (some (to_bytes (input_header (length payload)) ++ payload))
unfolding message_of new_header filter_hash string_hash32 text_beq
message_of-short payload h = ground arith

-- For the subsystem input and properties of at most 65496 bytes a message is made, and not refused as
-- too long. A receiver finds the very properties by the offset and the length in its header, and the
-- message is 40 bytes longer than they are.
pub message_carries :
    (payload : List ℕ)
    → length payload ≤ 65496
    → (message : List ℕ) × (message_of payload (some (codes "input")) none
        ≡ returned (some message))
      × (properties_of message ≡ payload)
      × (length message ≡ 40 + length payload)
unfolding to_bytes
message_carries payload h =
    let message = to_bytes (input_header (length payload)) ++ payload in
    let e : field 20 4 message ≡ length payload = omega arith in
    (
      message,
      message_of-short payload h,
      ap (λ n. take n payload) e ∙ take-all payload,
      omega arith,
    )
