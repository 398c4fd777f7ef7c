-- ===== src/Ioctl/Handler/Retried.antt =====
-- A request for which libfuse is told to map buffers, and the same request made anew with them
-- (both `match`es of `vuinput_ioctl` in vuinputd/src/cuse_device/vuinput_ioctl.rs).
use vuinputd.Prelude.{
  ℕ, ◌≤◌, ◌≡◌, ◌≢◌, refl, ap, ap₂, ==_iff, sym, ◌∙◌, true, false, not, none, some, List, [], ◌∷◌,
  ◌==◌, length, length-take, take, arith,
}
use vuinputd.Fuse.{Outcome, returned, reply_ioctl_retry, ◌>>=◌}
use vuinputd.Device.{Uinput, VuInputState, Request, done, ui_get_sysname, ui_get_version}
use vuinputd.Write.Bytes.{to_le}
use vuinputd.Ioctl.Codes
use vuinputd.Ioctl.Codes.{Command, command, cmd_normalized}
use vuinputd.Ioctl.Mapping.{Retry, retry}
use vuinputd.Ioctl.Handler.{
  IoctlCall, Host, Handled, request, plain, forward, forward_back, handle, guarded, written_over,
  vuinput_ioctl,
}

-- The commands with a buffer to read from.
abbrev NeedsIn : Command → Type 0
NeedsIn Codes.get_sysname = ⊥
NeedsIn Codes.get_version = ⊥
NeedsIn _ = Unit {0}

-- The lengths that a retry asks for are what the second `match` needs.
in_asked : (c : Command) (i o : ℕ) {r : Retry} → retry c i o ≡ some r → NeedsIn c → r.in_len ≢ 0
unfolding retry
in_asked _ i o h n = ground arith

sysname_asked : (i o : ℕ) {r : Retry} → retry Codes.get_sysname i o ≡ some r → r.out_len ≡ 64
unfolding retry
sysname_asked i o h = ground arith

version_asked : (i o : ℕ) {r : Retry} → retry Codes.get_version i o ≡ some r → r.out_len ≡ 4
unfolding retry
version_asked i o h = ground arith

-- Buffers of these lengths are not asked for again.
not_again :
    (c : Command) (i o : ℕ) {r : Retry} → retry c i o ≡ some r → retry c r.in_len r.out_len ≡ none
unfolding retry
not_again (Codes.set_bit kind) i o h = cc
not_again _ i o h = ground arith

module _ (U : Uinput) where
  -- A kernel that refuses no ioctl.
  abbrev pub Accepts : Type 0
  Accepts =
      (fd : ℕ) (r : Request) (k : U.Kernel) → (bytes : List ℕ) × ((U.ioctl fd r k).1 ≡ done bytes)

  -- An answer with at most `size` bytes, and only the kernel changed.
  abbrev pub IsAnswered : VuInputState → Outcome (Handled U) → ℕ → Type 0
  IsAnswered s o size =
      (k' : U.Kernel) × (bytes : List ℕ) × (o ≡ returned (plain U s k' bytes))
      × (length bytes ≤ size)

  request-accepted :
      Accepts
      → (fd : ℕ) (r : Request) (k : U.Kernel)
      → (k' : U.Kernel) × (bytes : List ℕ) × (request U fd r k ≡ returned (k', bytes))
  request-accepted accepts fd r k =
      let (bytes, e) = accepts fd r k in ((U.ioctl fd r k).0, bytes, rw (e, request) refl)

  module _ (accepts : Accepts) (s : VuInputState) (size : ℕ) where
    -- What becomes of a request depends on the kernel's bytes, and is no longer than `size`.
    request-IsAnswered :
        (r : Request) (k : U.Kernel) (out : List ℕ → List ℕ)
        → ((bytes : List ℕ) → length (out bytes) ≤ size)
        → IsAnswered s
            (request U s.file r k >>= λ (k', bytes). returned (plain U s k' (out bytes)))
            size
    request-IsAnswered r k out h =
        let (k', bytes, e) = request-accepted accepts s.file r k in
        (k', out bytes, rw e refl, h bytes)

    forward-IsAnswered : (r : Request) (k : U.Kernel) → IsAnswered s (forward U s r k) size
    forward-IsAnswered r k = request-IsAnswered r k (λ bytes. []) (λ bytes. omega arith)

    forward_back-IsAnswered :
        (r : Request) (k : U.Kernel) → IsAnswered s (forward_back U s r size k) size
    forward_back-IsAnswered r k =
        request-IsAnswered r k (take size) (λ bytes. omega (arith, length-take size bytes))

    guarded-IsAnswered :
        (n : ℕ) (o : Outcome (Handled U))
        → n ≢ 0
        → IsAnswered s o size
        → IsAnswered s (guarded U (not (n == 0)) o) size
    guarded-IsAnswered n o h a = let e : (n == 0) ≡ false = ground arith in rw e a

  module _ (accepts : Accepts) (host : Host) (call : IoctlCall) (s : VuInputState) (k : U.Kernel)
      {r : Retry} (in_len : length call.in_buf ≡ r.in_len)
      (out_len : call.out_bufsz ≡ r.out_len) where
    -- A command with a buffer to read from that is forwarded.
    forwarded :
        (c : Command) (i o : ℕ) (q : Request)
        → retry c i o ≡ some r
        → NeedsIn c
        → IsAnswered s (guarded U (not (length call.in_buf == 0)) (forward U s q k)) call.out_bufsz
    forwarded c i o q h n =
        guarded-IsAnswered accepts s call.out_bufsz (length call.in_buf) (forward U s q k)
          (λ z. in_asked c i o h n (sym in_len ∙ z))
          (forward-IsAnswered accepts s call.out_bufsz q k)

    forwarded_back :
        (c : Command) (i o : ℕ) (q : Request)
        → retry c i o ≡ some r
        → NeedsIn c
        → IsAnswered s
            (guarded U (not (length call.in_buf == 0)) (forward_back U s q call.out_bufsz k))
            call.out_bufsz
    forwarded_back c i o q h n =
        guarded-IsAnswered accepts s call.out_bufsz (length call.in_buf)
          (forward_back U s q call.out_bufsz k) (λ z. in_asked c i o h n (sym in_len ∙ z))
          (forward_back-IsAnswered accepts s call.out_bufsz q k)

    handle-IsAnswered :
        (c : Command) (i o : ℕ)
        → retry c i o ≡ some r
        → IsAnswered s (handle U c host call s k) call.out_bufsz
    unfolding handle retry
    handle-IsAnswered Codes.dev_setup i o h = forwarded Codes.dev_setup i o _ h tt
    handle-IsAnswered Codes.abs_setup i o h = forwarded Codes.abs_setup i o _ h tt
    handle-IsAnswered Codes.set_phys i o h = forwarded Codes.set_phys i o _ h tt
    handle-IsAnswered Codes.end_ff_upload i o h = forwarded Codes.end_ff_upload i o _ h tt
    handle-IsAnswered Codes.end_ff_erase i o h = forwarded Codes.end_ff_erase i o _ h tt
    handle-IsAnswered Codes.begin_ff_upload i o h = forwarded_back Codes.begin_ff_upload i o _ h tt
    handle-IsAnswered Codes.begin_ff_erase i o h = forwarded_back Codes.begin_ff_erase i o _ h tt
    handle-IsAnswered Codes.get_sysname i o h =
        let e : (call.out_bufsz == 64) ≡ true = (==_iff _ _).1 (out_len ∙ sysname_asked i o h) in
        rw e (
          request-IsAnswered accepts s call.out_bufsz ui_get_sysname k
            (λ bytes. take call.out_bufsz (written_over U bytes))
            (λ bytes. omega (arith, length-take call.out_bufsz (written_over U bytes))))
    handle-IsAnswered Codes.get_version i o h =
        request-IsAnswered accepts s call.out_bufsz ui_get_version k (λ bytes. to_le 4 5)
          (λ bytes. omega (arith, out_len ∙ version_asked i o h))
    handle-IsAnswered Codes.dev_create i o h = cc
    handle-IsAnswered Codes.dev_destroy i o h = cc
    handle-IsAnswered (Codes.set_bit kind) i o h = cc
    handle-IsAnswered Codes.unknown i o h = cc

  -- Where the kernel refuses no ioctl, a request for which buffers are missing is answered, with
  -- nothing changed, with a retry that names their lengths; made anew with buffers of these lengths,
  -- whatever is in them and whatever happened to the device and the kernel in between, it is
  -- answered: it is not sent back again, none of the assertions on the sizes fails, and what is
  -- written fits into the buffer of the client.
  pub retried-IsAnswered :
      Accepts
      → (host : Host) (call again : IoctlCall) (s s' : VuInputState) (k k' : U.Kernel) {r : Retry}
      → retry (command (cmd_normalized call.cmd)) (length call.in_buf) call.out_bufsz ≡ some r
      → again.cmd ≡ call.cmd
      → length again.in_buf ≡ r.in_len
      → again.out_bufsz ≡ r.out_len
      → (vuinput_ioctl U host call s k
          ≡ returned (record {
            state = s;
            kernel = k;
            jobs = [];
            calls = reply_ioctl_retry r.in_len r.out_len ∷ [];
          }))
        × IsAnswered s' (vuinput_ioctl U host again s' k') again.out_bufsz
  unfolding vuinput_ioctl
  retried-IsAnswered accepts host call again s s' k k' {r} h same in_len out_len =
      let c = command (cmd_normalized again.cmd) in
      let h' : retry c (length call.in_buf) call.out_bufsz ≡ some r =
        ap (λ x. retry (command (cmd_normalized x)) (length call.in_buf) call.out_bufsz) same ∙ h in
      let mapped : retry c (length again.in_buf) again.out_bufsz ≡ none =
        ap₂ (retry c) in_len out_len ∙ not_again c _ _ h' in
      (
        rw h refl,
        rw mapped (
            handle-IsAnswered accepts host again s' k' in_len out_len c (length call.in_buf)
              call.out_bufsz h'),
      )
