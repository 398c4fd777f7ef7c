-- ===== src/Write/Handler/Setup.antt =====
-- What the legacy setup asks of the kernel (vuinputd/src/cuse_device/vuinput_write.rs).
use vuinputd.Prelude.{
  Bool, true, false, not, ◌||◌, ℕ, zero, suc, ◌+◌, ◌*◌, take, ◌≡◌, ◌≢◌, ◌∙◌, refl, ap, Option, none,
  List, [], ◌∷◌, length, arith, if◌then◌else◌, Bool-cases, inl, inr, ==_iff, ◌==◌,
}
use vuinputd.Fuse.{Outcome, panicked, returned, ◌>>=◌, FuseCall, reply_write}
use mathlib.Core.Path.{fun_ext}
use vuinputd.Policy.{DevicePolicy}
use vuinputd.Device.{Uinput, VuInputState, Request, ui_dev_setup, ui_abs_setup_legacy}
use vuinputd.Write.Bytes.{field}
use vuinputd.Write.Legacy.{
  LegacyDev, legacy_dev, legacy_setup, legacy_abs_setup, has_axis, write_legacy, unwrap, setup_axes,
}
use vuinputd.Write.Handler.{Written, vuinput_write, write_to}

-- A `uinput_user_dev` as linux/uinput.h lays it out: a name of 80 bytes, bus, vendor, product and
-- version of two bytes each, the number of effects, and four arrays of 64 numbers, for the maximum,
-- the minimum, the fuzz and the flat of each axis. What is asked of the kernel for an axis:
abbrev pub axis_request : List ℕ → ℕ → Request
axis_request buf code = ui_abs_setup_legacy (record {
  code = code;
  value = 0;
  minimum = field (348 + 4 * code) 4 buf;
  maximum = field (92 + 4 * code) 4 buf;
  fuzz = field (604 + 4 * code) 4 buf;
  flat = field (860 + 4 * code) 4 buf;
  resolution = 0;
})

-- The requests for the axes from `code` on, for `n` codes: none for one without a range.
abbrev pub axis_requests : List ℕ → ℕ → ℕ → List Request
axis_requests buf zero code = []
axis_requests buf (suc n) code =
    let rest = axis_requests buf n (suc code) in
    let all = axis_request buf code ∷ rest in
    if field (92 + 4 * code) 4 buf == 0
    then (if field (348 + 4 * code) 4 buf == 0 then rest else all)
    else all

-- The whole legacy setup: the device, with the identity that is pinned, and its axes.
abbrev pub setup_requests : List ℕ → List Request
setup_requests buf =
    ui_dev_setup (record {
      bustype = 3;
      vendor = 0x1209;
      product = 0x5020;
      version = field 86 2 buf;
      name = take 80 buf;
      ff_effects_max = field 88 4 buf;
    })
    ∷ axis_requests buf 64 0

-- The requests of the loop over the axes.
abbrev loop_requests : LegacyDev → ℕ → ℕ → List Request
loop_requests dev zero code = []
loop_requests dev (suc n) code =
    let rest = loop_requests dev n (suc code) in
    if has_axis dev code then ui_abs_setup_legacy (legacy_abs_setup dev code) ∷ rest else rest

axis-tests :
    (no_max no_min : Bool) (rest all : List Request)
    → (if not no_max || not no_min then all else rest)
      ≡ (if no_max then (if no_min then rest else all) else all)
axis-tests true true rest all = refl
axis-tests true false rest all = refl
axis-tests false no_min rest all = refl

loop_requests-eq :
    (buf : List ℕ) (n code : ℕ) → loop_requests (legacy_dev buf) n code ≡ axis_requests buf n code
unfolding legacy_dev legacy_abs_setup
loop_requests-eq buf zero code = refl
loop_requests-eq buf (suc n) code =
    let no_max = field (92 + 4 * code) 4 buf == 0 in
    let no_min = field (348 + 4 * code) 4 buf == 0 in
    axis-tests no_max no_min (loop_requests (legacy_dev buf) n (suc code))
      (axis_request buf code ∷ loop_requests (legacy_dev buf) n (suc code))
    ∙ ap (with_axis no_max no_min) (loop_requests-eq buf n (suc code))
  where
    with_axis : Bool → Bool → List Request → List Request
    with_axis no_max no_min rest =
        if no_max
        then (if no_min then rest else axis_request buf code ∷ rest)
        else axis_request buf code ∷ rest

module _ (U : Uinput) (fd : ℕ) where
  -- Requests made one after another; the first refusal is a panic.
  abbrev pub request_all : List Request → U.Kernel → Outcome U.Kernel
  request_all [] k = returned k
  request_all (r ∷ rs) k = unwrap (U.ioctl fd r k) >>= λ k'. request_all rs k'

  setup_axes-request_all :
      (n code : ℕ) (dev : LegacyDev) (k : U.Kernel)
      → setup_axes U fd n code dev k ≡ request_all (loop_requests dev n code) k
  unfolding setup_axes
  setup_axes-request_all zero code dev k = refl
  setup_axes-request_all (suc n) code dev k = elim (Bool-cases (has_axis dev code)) [
    | inl h ↦ rw (h, fun_ext (λ k'. setup_axes-request_all n (suc code) dev k'))
    | inr h ↦ rw (h, setup_axes-request_all n (suc code) dev k)
  ]

  abbrev handler_requests : List ℕ → List Request
  handler_requests buf =
      ui_dev_setup (legacy_setup (legacy_dev buf)) ∷ loop_requests (legacy_dev buf) 64 0

  handler_requests-eq : (buf : List ℕ) → handler_requests buf ≡ setup_requests buf
  unfolding legacy_dev legacy_setup legacy_abs_setup
  handler_requests-eq buf =
      ap (λ rs. ui_dev_setup (legacy_setup (legacy_dev buf)) ∷ rs) (loop_requests-eq buf 64 0)

  bind_axes :
      (dev : LegacyDev) (size : ℕ) (o : Outcome U.Kernel)
      → ◌≡◌ {A = Outcome (U.Kernel × List FuseCall)}
          (o >>= λ k. setup_axes U fd 64 0 dev k >>= λ k'. returned (k', reply_write size ∷ []))
          (o >>= (λ k. request_all (loop_requests dev 64 0) k) >>= λ k'.
            returned (k', reply_write size ∷ []))
  bind_axes dev size panicked = refl
  bind_axes dev size (returned k) = rw (setup_axes-request_all 64 0 dev k)

  write_legacy-requests :
      (buf : List ℕ) (k : U.Kernel)
      → length buf ≡ 1116
      → write_legacy U fd buf k ≡ (
          request_all (setup_requests buf) k >>= λ k'. returned (k', reply_write (length buf) ∷ []))
  unfolding write_legacy
  write_legacy-requests buf k h = rw ((==_iff _ _).1 h) (
      bind_axes (legacy_dev buf) (length buf)
        (unwrap (U.ioctl fd (ui_dev_setup (legacy_setup (legacy_dev buf))) k))
      ∙ ap (λ rs. request_all rs k >>= λ k'. returned (k', reply_write (length buf) ∷ []))
          (handler_requests-eq buf))

  write_legacy-size :
      (buf : List ℕ) (k : U.Kernel) → length buf ≢ 1116 → write_legacy U fd buf k ≡ panicked
  unfolding write_legacy
  write_legacy-size buf k h = ground arith

-- The answer of the legacy branch in the handler.
answered :
    (U : Uinput) (s : VuInputState) (last_error : Option ℕ) (size : ℕ) (o : Outcome U.Kernel)
    → ◌≡◌ {A = Outcome (Written U)}
        (o >>= (λ k. returned (k, reply_write size ∷ [])) >>= λ (k, calls).
          returned (record { state = s; last_error = last_error; kernel = k; calls = calls }))
        (o >>= λ k. returned (record {
          state = s;
          last_error = last_error;
          kernel = k;
          calls = reply_write size ∷ [];
        }))
answered U s last_error size panicked = refl
answered U s last_error size (returned k) = refl

write_to_none :
    (U : Uinput) (policy : DevicePolicy) (fh : ℕ) (buf : List ℕ) (s : VuInputState)
    (last_error : Option ℕ) (kernel : U.Kernel)
    → write_to U none policy fh buf s last_error kernel ≡ (
        if length buf == 1116
        then (request_all U s.file (setup_requests buf) kernel >>= λ k. returned (record {
          state = s;
          last_error = last_error;
          kernel = k;
          calls = reply_write (length buf) ∷ [];
        }))
        else panicked)
unfolding write_to
write_to_none U policy fh buf s last_error kernel = elim (Bool-cases (length buf == 1116)) [
  | inl h ↦
      rw (h, write_legacy-requests U s.file buf kernel ((==_iff _ _).0 h))
        (answered U s last_error (length buf) (request_all U s.file (setup_requests buf) kernel))
  | inr h ↦ rw (h, write_legacy-size U s.file buf kernel (λ e. ground arith))
]

-- A write at offset 0 to a device that has not been created panics unless it has the size of a
-- `uinput_user_dev`. One of that size makes one UI_DEV_SETUP, with bus 3, vendor 0x1209, product 0x5020
-- and the name, version and effects of the client, and one UI_ABS_SETUP for each axis, in rising order,
-- whose minimum or maximum is not 0, with these, its fuzz and its flat from their arrays; it panics
-- at the first that the kernel refuses, and otherwise answers with the size and changes nothing of
-- the state of the device.
pub legacy_write :
    (U : Uinput) (policy : DevicePolicy) (fh : ℕ) (buf : List ℕ) (s : VuInputState)
    (last_error : Option ℕ) (kernel : U.Kernel)
    → s.input_device ≡ none
    → vuinput_write U policy fh 0 buf s last_error kernel ≡ (
        if length buf == 1116
        then (request_all U s.file (setup_requests buf) kernel >>= λ k. returned (record {
          state = s;
          last_error = last_error;
          kernel = k;
          calls = reply_write (length buf) ∷ [];
        }))
        else panicked)
unfolding vuinput_write
legacy_write U policy fh buf s last_error kernel dev =
    ap (λ d. write_to U d policy fh buf s last_error kernel) dev
    ∙ write_to_none U policy fh buf s last_error kernel
