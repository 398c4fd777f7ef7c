-- ===== src/Client/ForceFeedback.antt =====
-- Force feedback of the test gamepad (vuinputd-tests/src/devices/xbox_gamepad.rs): the magnitudes of a
-- rumble effect in the union of `ff_effect`, its upload, and the loop that answers the kernel's
-- requests on the uinput descriptor.
use vuinputd.Prelude.{
  ℕ, ◌+◌, ◌*◌, ◌^◌, ◌<◌, ◌≡◌, refl, Bool, true, false, ◌&&◌, List, [], ◌∷◌, ◌++◌, ◌==◌, ltb, length,
  replicate, if◌then◌else◌, arith,
}
use vuinputd.Input.{InputEvent}
use vuinputd.Device.{ui_begin_ff_upload, ui_end_ff_upload}
use vuinputd.Write.Bytes.{to_le, le, field, event_at}
use vuinputd.Client.{panicked, Io, ◌>>=◌, ◌>>◌, pure, unwrap, Libc, request}

-- `u64::from_ne_bytes`, on a little-endian machine; the other three words of the union are 0.
unfoldable pub create_rumble_array : ℕ → ℕ → List ℕ
create_rumble_array strong_magnitude weak_magnitude =
    le (to_le 2 strong_magnitude ++ (to_le 2 weak_magnitude ++ replicate 4 0)) ∷ replicate 3 0

-- The two fields of the `ff_rumble_effect` that the kernel finds in the union.
abbrev pub rumble_fields : List ℕ → ℕ × ℕ
rumble_fields [] = (0, 0)
rumble_fields (word ∷ words) = (field 0 2 (to_le 8 word), field 2 2 (to_le 8 word))

rumble_word :
    (s w : ℕ)
    → s < 2 ^ 16
    → w < 2 ^ 16
    → le (to_le 2 s ++ (to_le 2 w ++ replicate 4 0)) ≡ s + 65536 * w
rumble_word s w h k = omega arith

-- For magnitudes of 16 bits the first word of the array is below 2^32, and the kernel finds in it the
-- strong and the weak magnitude.
rumble_fits :
    (strong weak : ℕ)
    → strong < 2 ^ 16
    → weak < 2 ^ 16
    → (field 0 8 (to_le 8 (strong + 65536 * weak)) < 2 ^ 32)
      × (create_rumble_array strong weak ≡ (strong + 65536 * weak) ∷ replicate 3 0)
      × (rumble_fields (create_rumble_array strong weak) ≡ (strong, weak))
unfolding create_rumble_array
rumble_fits strong weak h k =
    (omega arith, rw (rumble_word strong weak h k) refl, λ i. (strong_read i, weak_read i))
  where
    strong_read : (rumble_fields (create_rumble_array strong weak)).0 ≡ strong
    strong_read = omega arith

    weak_read : (rumble_fields (create_rumble_array strong weak)).1 ≡ weak
    weak_read = omega arith

abbrev ev_uinput : ℕ
ev_uinput = 0x0101

abbrev ui_ff_upload : ℕ
ui_ff_upload = 1

-- What `read` of 256 bytes gives.
pub data FfRead : Type 0 where
  would_block read_failed : FfRead
  bytes_read : List ℕ → FfRead

-- One round of the loop: whether the flag is set, and what the read after the wait gives.
pub record FfRound : Type 0 where
  pub shutdown : Bool
  pub read : FfRead

-- A `uinput_ff_upload` of zeros with the number of the request.
abbrev upload_bytes : ℕ → List ℕ
upload_bytes request_id = to_le 4 request_id ++ replicate 100 0

module _ (L : Libc) where
  -- `input_event.value.try_into().unwrap()` panics for a value below 0.
  begin_and_end : ℕ → ℕ → Io L.Kernel (Unit {0})
  begin_and_end fd value =
      if ltb value 2147483648
      then (unwrap (request L fd (ui_begin_ff_upload (upload_bytes value))) >>= λ upload.
          unwrap (request L fd (ui_end_ff_upload upload)) >> pure tt)
      else (λ k. (k, panicked))

  process_event : ℕ → InputEvent → Io L.Kernel (Unit {0})
  unfolding begin_and_end
  process_event fd e =
      if e.type_ == ev_uinput && e.code == ui_ff_upload then begin_and_end fd e.value else pure tt

  -- The value says whether the loop goes on.
  after_read : ℕ → FfRead → Io L.Kernel Bool
  unfolding process_event
  after_read fd would_block = pure true
  after_read fd read_failed = pure false
  after_read fd (bytes_read bytes) =
      if length bytes == 0
      then pure false
      else if length bytes == 24
      then process_event fd (event_at bytes) >> pure true
      else pure true

  abbrev go_on : Bool → Io L.Kernel (Unit {0}) → Io L.Kernel (Unit {0})
  go_on true rest = rest
  go_on false rest = pure tt

  unfoldable pub read_process_ff_event_from_uinput : ℕ → List FfRound → Io L.Kernel (Unit {0})
  unfolding after_read
  read_process_ff_event_from_uinput fd [] = pure tt
  read_process_ff_event_from_uinput fd (r ∷ rounds) =
      let next =
        after_read fd r.read >>= λ more. go_on more (read_process_ff_event_from_uinput fd rounds) in
      if r.shutdown then pure tt else next
