-- ===== src/Write/Bytes.antt =====
-- The byte layouts of `input_event` and `input_event_compat`, and `map_to_64_bit`
-- (vuinputd/src/cuse_device/vuinput_write.rs).
use vuinputd.Prelude.{
  ℕ, zero, suc, ◌+◌, ◌*◌, ◌/◌, ◌%◌, ◌^◌, ◌<◌, ◌≡◌, ap, List, [], ◌∷◌, ◌++◌, arith, take, drop, All,
}
use vuinputd.Input.{InputEvent}

-- A little-endian number.
abbrev pub le : List ℕ → ℕ
le [] = 0
le (b ∷ bs) = b + 256 * le bs

abbrev pub to_le : ℕ → ℕ → List ℕ
to_le zero x = []
to_le (suc n) x = (x % 256) ∷ to_le n (x / 256)

abbrev pub field : ℕ → ℕ → List ℕ → ℕ
field offset size bytes = le (take size (drop offset bytes))

unfoldable pub event_at : List ℕ → InputEvent
event_at bytes = record {
  tv_sec = field 0 8 bytes;
  tv_usec = field 8 8 bytes;
  type_ = field 16 2 bytes;
  code = field 18 2 bytes;
  value = field 20 4 bytes;
}

pub record InputEventCompat : Type 0 where
  pub input_event_sec : ℕ
  pub input_event_usec : ℕ
  pub type_ : ℕ
  pub code : ℕ
  pub value : ℕ

unfoldable pub compat_at : List ℕ → InputEventCompat
compat_at bytes = record {
  input_event_sec = field 0 4 bytes;
  input_event_usec = field 4 4 bytes;
  type_ = field 8 2 bytes;
  code = field 10 2 bytes;
  value = field 12 4 bytes;
}

unfoldable pub map_to_64_bit : InputEventCompat → InputEvent
map_to_64_bit compat = record {
  tv_sec = compat.input_event_sec;
  tv_usec = compat.input_event_usec;
  type_ = compat.type_;
  code = compat.code;
  value = compat.value;
}

-- The bytes of an `input_event` in memory.
unfoldable pub bytes_of : InputEvent → List ℕ
bytes_of e =
    to_le 8 e.tv_sec
    ++ (to_le 8 e.tv_usec ++ (to_le 2 e.type_ ++ (to_le 2 e.code ++ to_le 4 e.value)))

pub record Fits (e : InputEvent) : Type 0 where
  pub tv_sec : e.tv_sec < 2 ^ 64
  pub tv_usec : e.tv_usec < 2 ^ 64
  pub type_ : e.type_ < 2 ^ 16
  pub code : e.code < 2 ^ 16
  pub value : e.value < 2 ^ 32

le-to_le_8 : (x : ℕ) → x < 2 ^ 64 → le (to_le 8 x) ≡ x
le-to_le_8 x h = omega arith

le-to_le_4 : (x : ℕ) → x < 2 ^ 32 → le (to_le 4 x) ≡ x
le-to_le_4 x h = omega arith

le-to_le_2 : (x : ℕ) → x < 2 ^ 16 → le (to_le 2 x) ≡ x
le-to_le_2 x h = omega arith

event_at-bytes_of : (e : InputEvent) → Fits e → event_at (bytes_of e) ≡ e
unfolding event_at bytes_of
event_at-bytes_of e f = λ i. record {
  tv_sec = le-to_le_8 e.tv_sec f.tv_sec i;
  tv_usec = le-to_le_8 e.tv_usec f.tv_usec i;
  type_ = le-to_le_2 e.type_ f.type_ i;
  code = le-to_le_2 e.code f.code i;
  value = le-to_le_4 e.value f.value i;
}

abbrev pub IsByte : ℕ → Type 0
IsByte b = b < 256

pub All-drop : (n : ℕ) (bs : List ℕ) → All IsByte bs → All IsByte (drop n bs)
All-drop zero bs h = h
All-drop (suc n) [] h = h
All-drop (suc n) (b ∷ bs) h = All-drop n bs h.1

le-take_2 : (bs : List ℕ) → All IsByte bs → le (take 2 bs) < 2 ^ 16
le-take_2 [] h = omega arith
le-take_2 (a ∷ []) h = omega arith
le-take_2 (a ∷ b ∷ bs) h = omega arith

le-take_4 : (bs : List ℕ) → All IsByte bs → le (take 4 bs) < 2 ^ 32
le-take_4 [] h = omega arith
le-take_4 (a ∷ []) h = omega arith
le-take_4 (a ∷ b ∷ []) h = omega arith
le-take_4 (a ∷ b ∷ c ∷ []) h = omega arith
le-take_4 (a ∷ b ∷ c ∷ d ∷ bs) h = omega arith

map_to_64_bit-Fits : (bs : List ℕ) → All IsByte bs → Fits (map_to_64_bit (compat_at bs))
unfolding map_to_64_bit compat_at
map_to_64_bit-Fits bs h = record {
  tv_sec = omega (arith, le-take_4 bs h);
  tv_usec = omega (arith, le-take_4 (drop 4 bs) (All-drop 4 bs h));
  type_ = le-take_2 (drop 8 bs) (All-drop 8 bs h);
  code = le-take_2 (drop 10 bs) (All-drop 10 bs h);
  value = le-take_4 (drop 12 bs) (All-drop 12 bs h);
}

-- An entry of a 32-bit process keeps its meaning: the 64-bit record that is written for it reads back
-- as the event that the policy has judged, with the type, code and value of the entry and its two
-- time fields widened.
pub compat_roundtrip :
    (entry : List ℕ)
    → All IsByte entry
    → let compat = compat_at entry in
      let written = event_at (bytes_of (map_to_64_bit compat)) in
      (written ≡ map_to_64_bit compat)
      × (written.type_ ≡ compat.type_)
      × (written.code ≡ compat.code)
      × (written.value ≡ compat.value)
      × (written.tv_sec ≡ compat.input_event_sec)
      × (written.tv_usec ≡ compat.input_event_usec)
unfolding map_to_64_bit
compat_roundtrip entry h =
    let same = event_at-bytes_of (map_to_64_bit (compat_at entry)) (map_to_64_bit-Fits entry h) in
    (
      same,
      ap (λ (e : InputEvent). e.type_) same,
      ap (λ (e : InputEvent). e.code) same,
      ap (λ (e : InputEvent). e.value) same,
      ap (λ (e : InputEvent). e.tv_sec) same,
      ap (λ (e : InputEvent). e.tv_usec) same,
    )
