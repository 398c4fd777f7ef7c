-- ===== src/Write/Handler/Delivery.antt =====
-- What a write request delivers to the kernel and answers (vuinputd/src/cuse_device/vuinput_write.rs).
use vuinputd.Prelude.{
  ℕ, suc, ◌+◌, ◌*◌, ◌/◌, ◌<◌, ◌≤◌, ◌≡◌, refl, ◌∙◌, ap, Option, some, Bool, true, false, List, [],
  ◌∷◌, length, arith,
}
use vuinputd.Fuse.{Errno, reply_write, reply_err, returned}
use vuinputd.Input.{KeyTracker}
use vuinputd.Policy.{DevicePolicy}
use vuinputd.Device.{Uinput, VuInputDevice, VuInputState, wrote}
use vuinputd.Write.Loop.{LoopState, write_loop, is_ok}
use vuinputd.Write.Stream.{entries, permitted, write_all, Relayed, write_loop-Relayed}
use vuinputd.Write.Handler.{layout_of, finish, reply, vuinput_write, write_to}

-- How many whole entries the request holds.
abbrev pub whole : Bool → List ℕ → ℕ
whole is_compat buf = length buf / (layout_of is_compat).size

whole-lo : (c : Bool) (buf : List ℕ) → 0 + whole c buf * (layout_of c).size ≤ length buf
unfolding layout_of
whole-lo true buf = omega arith
whole-lo false buf = omega arith

whole-hi :
    (c : Bool) (buf : List ℕ)
    → length buf < 0 + whole c buf * (layout_of c).size + (layout_of c).size
unfolding layout_of
whole-hi true buf = omega arith
whole-hi false buf = omega arith

whole-fuel : (c : Bool) (buf : List ℕ) → whole c buf < suc (length buf)
unfolding layout_of
whole-fuel true buf = omega arith
whole-fuel false buf = omega arith

module _ (U : Uinput) (policy : DevicePolicy) (fh : ℕ) (buf : List ℕ) where
  module _ (s : VuInputState) (last_error : Option ℕ) (kernel : U.Kernel) where
    -- The records that the policy permits of the whole entries of the request, and the tracker.
    abbrev pub request : KeyTracker × List (List ℕ)
    request =
        let c = s.requesting_process.is_compat in
        permitted policy (layout_of c) s.keytracker (entries (whole c buf) (layout_of c).size buf)

    abbrev start : LoopState U
    start = record { bytes = 0; result = wrote 0; keytracker = s.keytracker; kernel = kernel }

    loop_ends :
        let c = s.requesting_process.is_compat in
        (t : LoopState U) × (write_loop U s.file policy (layout_of c) buf (suc (length buf)) start
          ≡ some t)
        × Relayed U s.file policy (layout_of c) buf (whole c buf) start t
    loop_ends =
        let c = s.requesting_process.is_compat in
        write_loop-Relayed U s.file policy (layout_of c) buf (whole c buf) (suc (length buf)) start
          (whole-fuel c buf) refl (whole-lo c buf) (whole-hi c buf)

    vuinput_write-reply :
        {d : VuInputDevice} {t : LoopState U}
        → s.input_device ≡ some d
        → write_loop U s.file policy
            (layout_of s.requesting_process.is_compat)
            buf
            (suc (length buf))
            start
          ≡ some t
        → vuinput_write U policy fh 0 buf s last_error kernel
          ≡ returned (reply U fh s last_error t t.result)
    unfolding vuinput_write
    vuinput_write-reply dev e = rw (dev, write_to) (rw (e, finish))

    reply_delivered :
        (t : LoopState U) (keytracker : KeyTracker) (k : U.Kernel) (bytes : ℕ)
        → is_ok t.result ≡ true
        → t.kernel ≡ k
        → t.keytracker ≡ keytracker
        → t.bytes ≡ bytes
        → reply U fh s last_error t t.result ≡ record {
          state = record s { keytracker = keytracker };
          last_error = last_error;
          kernel = k;
          calls = reply_write bytes ∷ [];
        }
    unfolding reply
    reply_delivered t keytracker k bytes ok a b c = ground arith

    reply_stopped :
        (t : LoopState U) (k : U.Kernel)
        → is_ok t.result ≡ false
        → t.kernel ≡ k
        → reply U fh s last_error t t.result ≡ record {
          state = record s { keytracker = t.keytracker };
          last_error = some fh;
          kernel = k;
          calls = reply_err Errno.eio ∷ [];
        }
    unfolding reply
    reply_stopped t k bad a = ground arith

    -- A request at offset 0 to a created device whose permitted records the kernel takes is answered
    -- with the bytes of its whole entries. Exactly those records, in their order, have been written.
    -- The key tracker is the one that the policy leaves after all entries, allowed or not, and
    -- nothing else of the state has changed.
    pub write_delivers :
        {d : VuInputDevice} {k : U.Kernel}
        → s.input_device ≡ some d
        → write_all U s.file request.1 kernel ≡ (k, true)
        → let c = s.requesting_process.is_compat in
          vuinput_write U policy fh 0 buf s last_error kernel
          ≡ returned (record {
            state = record s { keytracker = request.0 };
            last_error = last_error;
            kernel = k;
            calls = reply_write (whole c buf * (layout_of c).size) ∷ [];
          })
    write_delivers dev all =
        let (t, e, r) = loop_ends in
        let ok = r.result ∙ ap (λ (p : U.Kernel × Bool). p.1) all in
        vuinput_write-reply dev e
        ∙ ap returned (
            reply_delivered t _ _ _ ok (r.kernel ∙ ap (λ (p : U.Kernel × Bool). p.0) all)
              (r.keytracker ok) (omega (arith, r.bytes ok)))

    -- Where the kernel refuses a permitted record of a request at offset 0 to a created device, the
    -- answer is EIO, no record behind the refused one has been written, the handle is noted as that
    -- of the last error, and nothing of the state but the key tracker can have changed.
    pub write_stops :
        {d : VuInputDevice} {k : U.Kernel}
        → s.input_device ≡ some d
        → write_all U s.file request.1 kernel ≡ (k, false)
        → (keytracker : KeyTracker) × (vuinput_write U policy fh 0 buf s last_error kernel
            ≡ returned (record {
              state = record s { keytracker = keytracker };
              last_error = some fh;
              kernel = k;
              calls = reply_err Errno.eio ∷ [];
            }))
    write_stops dev all =
        let (t, e, r) = loop_ends in
        (
          t.keytracker,
          vuinput_write-reply dev e
              ∙ ap returned (
                  reply_stopped t _ (r.result ∙ ap (λ (p : U.Kernel × Bool). p.1) all)
                    (r.kernel ∙ ap (λ (p : U.Kernel × Bool). p.0) all)),
        )
