-- ===== src/Client/Transparent.antt =====
-- The requests of a client that sets up a device, made to the daemon
-- (vuinputd/src/cuse_device/vuinput_ioctl.rs) instead of to the kernel.
use vuinputd.Prelude.{
  ℕ, zero, suc, ◌%◌, ◌^◌, ◌<◌, ◌≡◌, refl, ap, ◌∙◌, false, none, List, [], ◌∷◌, ◌++◌, ◌==◌, length,
  take, drop, arith, All,
}
use vuinputd.Fuse.{Outcome, panicked, returned, ◌>>=◌}
use vuinputd.Device.{
  Uinput, UinputSetup, VuInputState, Request, ui_dev_setup, ui_abs_setup, ui_set_bit,
}
use vuinputd.Write.Bytes.{to_le, le}
use vuinputd.Ioctl.Codes
use vuinputd.Ioctl.Codes.{Command, command, cmd_normalized, code_of, command-code_of}
use vuinputd.Ioctl.Mapping.{retry}
use vuinputd.Ioctl.Handler as IoctlHandler
use vuinputd.Ioctl.Handler.{
  IoctlCall, Host, Handled, plain, sanitized_setup, vuinput_ioctl, handle, forward,
}

-- The bytes of a `uinput_setup`.
abbrev pub setup_bytes : UinputSetup → List ℕ
setup_bytes s =
    to_le 2 s.bustype
    ++ (to_le 2 s.vendor
        ++ (to_le 2 s.product ++ (to_le 2 s.version ++ (s.name ++ to_le 4 s.ff_effects_max))))

-- What the kernel hands over for a request once the buffer is mapped.
abbrev pub call_of : Request → IoctlCall
call_of (ui_set_bit kind bit) = record {
  cmd = code_of (Codes.set_bit kind);
  arg = bit;
  in_buf = [];
  out_bufsz = 0;
}
call_of (ui_abs_setup bytes) = record {
  cmd = code_of Codes.abs_setup;
  arg = 0;
  in_buf = bytes;
  out_bufsz = 0;
}
call_of (ui_dev_setup s) = record {
  cmd = code_of Codes.dev_setup;
  arg = 0;
  in_buf = setup_bytes s;
  out_bufsz = 0;
}
call_of _ = record { cmd = 0; arg = 0; in_buf = []; out_bufsz = 0 }

-- The requests that set up a device, with values that fit their types.
abbrev pub IsSetup : Request → Type 0
IsSetup (ui_set_bit kind bit) = bit < 4294967296
IsSetup (ui_abs_setup bytes) = 0 < length bytes
IsSetup (ui_dev_setup s) = (s.version < 2 ^ 16) × (length s.name ≡ 80) × (s.ff_effects_max < 2 ^ 32)
IsSetup _ = ⊥

-- What arrives at the kernel: the request, with the identity that the daemon gives every device.
abbrev pub pinned : Request → Request
pinned (ui_dev_setup s) = ui_dev_setup (record s { bustype = 3; vendor = 0x1209; product = 0x5020 })
pinned r = r

take-append : (n : ℕ) (xs ys : List ℕ) → length xs ≡ n → take n (xs ++ ys) ≡ xs
take-append zero [] ys h = refl
take-append zero (x ∷ xs) ys h = absurd (omega arith)
take-append (suc n) [] ys h = absurd (omega arith)
take-append (suc n) (x ∷ xs) ys h = ap (λ zs. x ∷ zs) (take-append n xs ys (omega arith))

drop-append : (n : ℕ) (xs ys : List ℕ) → length xs ≡ n → drop n (xs ++ ys) ≡ ys
drop-append zero [] ys h = refl
drop-append zero (x ∷ xs) ys h = absurd (omega arith)
drop-append (suc n) [] ys h = absurd (omega arith)
drop-append (suc n) (x ∷ xs) ys h = drop-append n xs ys (omega arith)

sanitized_setup-setup_bytes :
    (s : UinputSetup)
    → s.version < 2 ^ 16
    → length s.name ≡ 80
    → s.ff_effects_max < 2 ^ 32
    → ui_dev_setup (sanitized_setup (setup_bytes s)) ≡ pinned (ui_dev_setup s)
unfolding sanitized_setup
sanitized_setup-setup_bytes s v n f = λ i. ui_dev_setup (record {
  bustype = 3;
  vendor = 0x1209;
  product = 0x5020;
  version = version_read i;
  name = take-append 80 s.name (to_le 4 s.ff_effects_max) n i;
  ff_effects_max = effects_read i;
})
  where
    version_read : le (to_le 2 s.version) ≡ s.version
    version_read = omega arith

    effects_le : le (to_le 4 s.ff_effects_max) ≡ s.ff_effects_max
    effects_le = omega arith

    effects_read : le (take 4 (drop 80 (s.name ++ to_le 4 s.ff_effects_max))) ≡ s.ff_effects_max
    effects_read =
        ap (λ bs. le (take 4 bs)) (drop-append 80 s.name (to_le 4 s.ff_effects_max) n) ∙ effects_le

small : {n : ℕ} → n < 4294967296 → n % 4294967296 ≡ n
small h = omega arith

nonzero : (n : ℕ) → 0 < n → (n == 0) ≡ false
nonzero n h = ground arith

dev_setup_mapped : (n : ℕ) → 0 < n → retry Codes.dev_setup n 0 ≡ none
unfolding retry
dev_setup_mapped n h = ground arith

abs_setup_mapped : (n : ℕ) → 0 < n → retry Codes.abs_setup n 0 ≡ none
unfolding retry
abs_setup_mapped n h = ground arith

module _ (U : Uinput) (host : Host) where
  -- A request that comes with its buffer.
  dev_setup_handled :
      (buf : List ℕ) (s : VuInputState) (k : U.Kernel)
      → 0 < length buf
      → vuinput_ioctl U host
          (record { cmd = code_of Codes.dev_setup; arg = 0; in_buf = buf; out_bufsz = 0 })
          s
          k
        ≡ forward U s (ui_dev_setup (sanitized_setup buf)) k
  unfolding vuinput_ioctl
  dev_setup_handled buf s k h =
      rw (command-code_of Codes.dev_setup, dev_setup_mapped (length buf) h, nonzero (length buf) h)
        refl

  abs_setup_handled :
      (buf : List ℕ) (s : VuInputState) (k : U.Kernel)
      → 0 < length buf
      → vuinput_ioctl U host
          (record { cmd = code_of Codes.abs_setup; arg = 0; in_buf = buf; out_bufsz = 0 })
          s
          k
        ≡ forward U s (ui_abs_setup buf) k
  unfolding vuinput_ioctl
  abs_setup_handled buf s k h =
      rw (command-code_of Codes.abs_setup, abs_setup_mapped (length buf) h, nonzero (length buf) h)
        refl

  handled :
      (r : Request) (s : VuInputState) (k : U.Kernel)
      → IsSetup r
      → vuinput_ioctl U host (call_of r) s k ≡ forward U s (pinned r) k
  unfolding vuinput_ioctl retry
  handled (ui_set_bit kind bit) s k h =
      rw (command-code_of (Codes.set_bit kind))
        (ap (λ b. forward U s (ui_set_bit kind b) k) (small h))
  handled (ui_abs_setup bytes) s k h = abs_setup_handled bytes s k h
  handled (ui_dev_setup setup) s k h =
      dev_setup_handled (setup_bytes setup) s k (omega arith)
      ∙ ap (λ r. forward U s r k) (sanitized_setup-setup_bytes setup h.0 h.1 h.2)
  handled _ s k h = absurd h

  -- Requests made to the daemon, one after the other.
  abbrev pub served : List Request → VuInputState → U.Kernel → Outcome (VuInputState × U.Kernel)
  served [] s k = returned (s, k)
  served (r ∷ rs) s k =
      vuinput_ioctl U host (call_of r) s k >>= λ (h : Handled U). served rs h.state h.kernel

  -- The same requests made to the kernel on the descriptor of the daemon, with the identity pinned. A
  -- request that the kernel refuses makes the daemon panic.
  abbrev pub direct : List Request → ℕ → U.Kernel → Outcome U.Kernel
  direct [] file k = returned k
  direct (r ∷ rs) file k =
      IoctlHandler.request U file (pinned r) k >>= λ (k', bytes). direct rs file k'

  -- What follows the answer of the kernel.
  answered :
      (s : VuInputState) (o : Outcome (U.Kernel × List ℕ))
      (rest : VuInputState → U.Kernel → Outcome (VuInputState × U.Kernel))
      (rest' : U.Kernel → Outcome U.Kernel)
      → ((k' : U.Kernel) → rest s k' ≡ (rest' k' >>= λ k''. returned (s, k'')))
      → ((o >>= λ (k', bytes). returned (plain U s k' [])) >>= λ (h : Handled U).
          rest h.state h.kernel)
        ≡ ((o >>= λ (k', bytes). rest' k') >>= λ k'. returned (s, k'))
  answered s panicked rest rest' h = refl
  answered s (returned (k', bytes)) rest rest' h = h k'

  -- A client that sets up a device through the daemon, with any sequence of requests for bits, axes
  -- and the identity whose values fit their types, leaves in the kernel what the same requests would
  -- leave that are made directly, with the bus, vendor and product of the daemon in place of the
  -- client's; the state of the handle does not change, and the daemon panics exactly where the kernel
  -- refuses a request.
  pub setup_transparent :
      (rs : List Request) (s : VuInputState) (k : U.Kernel)
      → All IsSetup rs
      → served rs s k ≡ (direct rs s.file k >>= λ k'. returned (s, k'))
  setup_transparent [] s k h = refl
  setup_transparent (r ∷ rs) s k h =
      ap (λ (o : Outcome (Handled U)). o >>= λ (h : Handled U). served rs h.state h.kernel)
        (handled r s k h.0)
      ∙ answered s (IoctlHandler.request U s.file (pinned r) k) (served rs) (direct rs s.file)
          (λ k'. setup_transparent rs s k' h.1)
