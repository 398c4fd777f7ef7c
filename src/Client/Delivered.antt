-- ===== src/Client/Delivered.antt =====
-- A client that emits its events one at a time (vuinputd-tests/src/devices/device_base.rs), to the
-- daemon (vuinputd/src/cuse_device/vuinput_write.rs).
use mathlib.Core.Path.{subst}
use vuinputd.Prelude.{
  ℕ, ◌*◌, ◌≡◌, refl, ap, sym, ◌∙◌, Bool, true, false, Option, some, List, [], ◌∷◌, ◌++◌, length,
  replicate, map, arith,
}
use vuinputd.Fuse.{Outcome, returned, ◌>>=◌, FuseCall, reply_write}
use vuinputd.Input.{InputEvent, KeyTracker}
use vuinputd.Policy.{DevicePolicy}
use vuinputd.Device.{Uinput, VuInputState, VuInputDevice}
use vuinputd.Write.Bytes.{bytes_of}
use vuinputd.Write.Loop.{normal}
use vuinputd.Write.Stream.{permitted, write_all, entries, write_all-append, permitted-cons}
use vuinputd.Write.Handler.{Written, vuinput_write, layout_of}
use vuinputd.Write.Handler.Delivery.{write_delivers, whole}

-- The bytes of events behind each other.
abbrev pub flat : List InputEvent → List ℕ
flat [] = []
flat (e ∷ es) = bytes_of e ++ flat es

entries-flat : (es : List InputEvent) → entries (length es) 24 (flat es) ≡ map bytes_of es
unfolding bytes_of
entries-flat [] = refl
entries-flat (e ∷ es) = ap (λ zs. bytes_of e ∷ zs) (entries-flat es)

length-flat : (es : List InputEvent) → length (flat es) ≡ length es * 24
unfolding bytes_of
length-flat [] = refl
length-flat (e ∷ es) = omega (arith, length-flat es)

module _ (U : Uinput) (policy : DevicePolicy) (fh : ℕ) where
  -- One write for each event.
  abbrev pub emit_each : List InputEvent → VuInputState → Option ℕ → U.Kernel → Outcome (Written U)
  emit_each [] s last_error kernel =
      returned (record { state = s; last_error = last_error; kernel = kernel; calls = [] })
  emit_each (e ∷ es) s last_error kernel =
      vuinput_write U policy fh 0 (bytes_of e) s last_error kernel >>= λ w.
      emit_each es w.state w.last_error w.kernel >>= λ v.
      returned (record v { calls = w.calls ++ v.calls })

  -- What the policy makes of a request, by whether the process is one of 32 bits.
  abbrev asked : VuInputState → Bool → List ℕ → KeyTracker × List (List ℕ)
  asked s c buf =
      permitted policy (layout_of c) s.keytracker (entries (whole c buf) (layout_of c).size buf)

  module _ (s : VuInputState) (last_error : Option ℕ) (kernel : U.Kernel) where
    abbrev Answered : Bool → List ℕ → U.Kernel → Type 0
    Answered c buf k =
        vuinput_write U policy fh 0 buf s last_error kernel
        ≡ returned (record {
          state = record s { keytracker = (asked s c buf).0 };
          last_error = last_error;
          kernel = k;
          calls = reply_write (whole c buf * (layout_of c).size) ∷ [];
        })

    -- `write_delivers` for a process of 64 bits.
    native_delivers :
        (buf : List ℕ) {d : VuInputDevice} {k : U.Kernel}
        → s.input_device ≡ some d
        → s.requesting_process.is_compat ≡ false
        → write_all U s.file (asked s false buf).1 kernel ≡ (k, true)
        → Answered false buf k
    native_delivers buf {k} dev native all =
        subst (λ c. Answered c buf k) native
          (write_delivers U policy fh buf s last_error kernel dev
            (subst (λ c. write_all U s.file (asked s c buf).1 kernel ≡ (k, true)) (sym native) all))

    emit_one :
        (e : InputEvent) {d : VuInputDevice} {k : U.Kernel}
        → s.input_device ≡ some d
        → s.requesting_process.is_compat ≡ false
        → write_all U s.file (permitted policy normal s.keytracker (bytes_of e ∷ [])).1 kernel
          ≡ (k, true)
        → vuinput_write U policy fh 0 (bytes_of e) s last_error kernel
          ≡ returned (record {
            state = record s {
              keytracker = (permitted policy normal s.keytracker (bytes_of e ∷ [])).0;
            };
            last_error = last_error;
            kernel = k;
            calls = reply_write 24 ∷ [];
          })
    unfolding layout_of bytes_of normal
    emit_one e dev native all = native_delivers (bytes_of e) dev native all

  -- What is left by events whose records the kernel takes.
  abbrev left : List InputEvent → VuInputState → Option ℕ → U.Kernel → List FuseCall → Written U
  left es s last_error k calls = record {
    state = record s { keytracker = (permitted policy normal s.keytracker (map bytes_of es)).0 };
    last_error = last_error;
    kernel = k;
    calls = calls;
  }

  one_by_one :
      (es : List InputEvent) (s : VuInputState) (last_error : Option ℕ) (kernel : U.Kernel)
      {d : VuInputDevice} {k : U.Kernel}
      → s.input_device ≡ some d
      → s.requesting_process.is_compat ≡ false
      → write_all U s.file (permitted policy normal s.keytracker (map bytes_of es)).1 kernel
        ≡ (k, true)
      → emit_each es s last_error kernel
        ≡ returned (left es s last_error k (replicate (length es) (reply_write 24)))
  one_by_one [] s last_error kernel dev native all =
      ap (λ (p : U.Kernel × Bool). returned (left [] s last_error p.0 [])) all
  one_by_one (e ∷ es) s last_error kernel {d} {k} dev native all =
      let t : KeyTracker = (permitted policy normal s.keytracker (bytes_of e ∷ [])).0 in
      let split = permitted-cons policy normal s.keytracker (bytes_of e) (map bytes_of es) in
      let (k₁, now, later) = write_all-append U s.file _ _ kernel (
        subst (λ (p : KeyTracker × List (List ℕ)). write_all U s.file p.1 kernel ≡ (k, true)) split
          all) in
      rw
        (
          emit_one s last_error kernel e dev native now,
          one_by_one es (record s { keytracker = t }) last_error k₁ dev native later,
        )
        (ap
          (λ (p : KeyTracker × List (List ℕ)). returned (record {
            state = record s { keytracker = p.0 };
            last_error = last_error;
            kernel = k;
            calls = replicate (length (e ∷ es)) (reply_write 24);
          }))
          (sym split))

  whole-flat : (es : List InputEvent) → whole false (flat es) ≡ length es
  unfolding layout_of normal
  whole-flat es = omega (arith, length-flat es)

  asked-flat :
      (es : List InputEvent) (s : VuInputState)
      → asked s false (flat es) ≡ permitted policy normal s.keytracker (map bytes_of es)
  unfolding layout_of normal
  asked-flat es s =
      ap (λ n. permitted policy normal s.keytracker (entries n 24 (flat es))) (whole-flat es)
      ∙ ap (permitted policy normal s.keytracker) (entries-flat es)

  at_once :
      (es : List InputEvent) (s : VuInputState) (last_error : Option ℕ) (kernel : U.Kernel)
      {d : VuInputDevice} {k : U.Kernel}
      → s.input_device ≡ some d
      → s.requesting_process.is_compat ≡ false
      → write_all U s.file (permitted policy normal s.keytracker (map bytes_of es)).1 kernel
        ≡ (k, true)
      → vuinput_write U policy fh 0 (flat es) s last_error kernel
        ≡ returned (left es s last_error k (reply_write (length es * 24) ∷ []))
  unfolding layout_of normal
  at_once es s last_error kernel {d} {k} dev native all =
      let a = asked-flat es s in
      native_delivers s last_error kernel (flat es) dev native (
        subst (λ (p : KeyTracker × List (List ℕ)). write_all U s.file p.1 kernel ≡ (k, true))
          (sym a) all)
      ∙ λ i. returned (record {
        state = record s { keytracker = (a i).0 };
        last_error = last_error;
        kernel = k;
        calls = reply_write (whole-flat es i * 24) ∷ [];
      })

  -- Where the kernel takes the records, a client of 64 bits that emits events one at a time to a created
  -- device leaves what one write of all their bytes would leave: the kernel has got the records of those
  -- events that the policy permits, in their order and no others, and the key tracker has seen all
  -- events. Each emit is answered with the 24 bytes of an event, also where the event is blocked, so that
  -- a client cannot tell.
  pub emit_each_delivered :
      (es : List InputEvent) (s : VuInputState) (last_error : Option ℕ) (kernel : U.Kernel)
      {d : VuInputDevice} {k : U.Kernel}
      → s.input_device ≡ some d
      → s.requesting_process.is_compat ≡ false
      → write_all U s.file (permitted policy normal s.keytracker (map bytes_of es)).1 kernel
        ≡ (k, true)
      → let s' = record s {
        keytracker = (permitted policy normal s.keytracker (map bytes_of es)).0;
      } in
        (emit_each es s last_error kernel
          ≡ returned (record {
            state = s';
            last_error = last_error;
            kernel = k;
            calls = replicate (length es) (reply_write 24);
          }))
        × (vuinput_write U policy fh 0 (flat es) s last_error kernel
            ≡ returned (record {
              state = s';
              last_error = last_error;
              kernel = k;
              calls = reply_write (length es * 24) ∷ [];
            }))
  emit_each_delivered es s last_error kernel dev native all = (
    one_by_one es s last_error kernel dev native all,
    at_once es s last_error kernel dev native all,
  )
