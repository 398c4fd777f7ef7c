-- ===== src/Server/Handles.antt =====
-- Handles: the next one is never in use, and what happens at one does not touch the others
-- (vuinputd/src/cuse_device/state.rs, vuinput_open.rs).
use vuinputd.Prelude.{
  ℕ, ◌+◌, ◌<◌, ◌≤◌, ◌≡◌, ◌≢◌, refl, ◌∙◌, Bool, false, none, List, [], ◌∷◌, arith, inl, inr,
  Bool-cases, ◌==◌, ==_iff, length, All,
}
use vuinputd.Fuse.{Outcome, returned, ◌>>=◌, >>=-eq-returned, returned-inj}
use vuinputd.Device.{Uinput}
use vuinputd.Registry.Laws.{state_of}
use vuinputd.Server.{Daemon, u64_mod, handle_watch}
use vuinputd.Server.Opening.{open-states}
use vuinputd.Server.Runs.{
  Config, Op, open_device, release, write, read, poll, ioctl, watch, step, Local, write-Local,
  read-Local, poll-Local, ioctl-Local, release-Local, watch-elsewhere, watch-absent,
}

-- Whether an operation names the handle.
abbrev pub names : ℕ → Op → Bool
names j (open_device pid) = false
names j (release fh) = j == fh
names j (write fh off buf) = j == fh
names j (read fh off) = j == fh
names j (poll fh ph) = j == fh
names j (ioctl fh call) = j == fh
names j (watch fh) = j == fh

module _ (U : Uinput) (c : Config) where
  abbrev pub run : List Op → Daemon U → Outcome (Daemon U)
  run [] d = returned d
  run (op ∷ ops) d = step U c op d >>= run ops

  -- No handle from the counter on is open.
  abbrev pub IsFresh : Daemon U → Type 0
  IsFresh d = (j : ℕ) → d.counter ≤ j → state_of j d.states ≡ none

  -- What one operation does to the counter, and that the next handle stays fresh.
  abbrev pub Bounded : Daemon U → Daemon U → Type 0
  Bounded d d' = (d.counter ≤ d'.counter) × (d'.counter ≤ d.counter + 1) × IsFresh d'

  Local-Bounded : (fh : ℕ) (d d' : Daemon U) → Local U c fh d d' → IsFresh d → Bounded d d'
  Local-Bounded fh d d' l f =
      let open_below : (j : ℕ) → d.counter ≤ j → j ≢ fh =
        λ j h q. (let (s, o) = l.was_open in let k = f j h in cc) in
      (
        omega (arith, l.same_counter),
        omega (arith, l.same_counter),
        λ j h.
            (let h' : d.counter ≤ j = omega (arith, l.same_counter) in
              l.elsewhere j (open_below j h') ∙ f j h'),
      )

  watch-Bounded : (fh : ℕ) (d : Daemon U) → IsFresh d → Bounded d (handle_watch U fh d)
  watch-Bounded fh d f =
      let h = (watch-elsewhere U c fh fh d).0 in
      (
        omega arith,
        omega arith,
        λ j k.
            (let k' : d.counter ≤ j = omega arith in
              elim (Bool-cases (j == fh)) [
                | inl q ↦
                    rw ((==_iff j fh).0 q)
                      (watch-absent U c fh d (f fh (rw (← (==_iff j fh).0 q) k')))
                | inr q ↦ (watch-elsewhere U c fh j d).1 (ground arith) ∙ f j k'
              ]),
      )

  pub step-Bounded :
      (op : Op) (d : Daemon U) {d' : Daemon U}
      → step U c op d ≡ returned d'
      → d.counter + 1 < u64_mod
      → IsFresh d
      → Bounded d d'
  step-Bounded (open_device pid) d {d'} e h f =
      let (k, elsewhere) = open-states U c pid d e in
      (omega arith, omega arith, λ j m. elsewhere j (omega arith) ∙ f j (omega arith))
  step-Bounded (release fh) d e h f = Local-Bounded fh d _ (release-Local U c fh d e) f
  step-Bounded (write fh off buf) d e h f = Local-Bounded fh d _ (write-Local U c fh off buf d e) f
  step-Bounded (read fh off) d e h f = Local-Bounded fh d _ (read-Local U c fh off d e) f
  step-Bounded (poll fh ph) d e h f = Local-Bounded fh d _ (poll-Local U c fh ph d e) f
  step-Bounded (ioctl fh call) d e h f = Local-Bounded fh d _ (ioctl-Local U c fh call d e) f
  step-Bounded (watch fh) d {d'} e h f = rw (← returned-inj e) (watch-Bounded fh d f)

  step-keeps :
      (op : Op) (d : Daemon U) {d' : Daemon U}
      → step U c op d ≡ returned d'
      → (j : ℕ) → j < d.counter
      → names j op ≡ false
      → state_of j d'.states ≡ state_of j d.states
  step-keeps (open_device pid) d e j h n = (open-states U c pid d e).1 j (omega arith)
  step-keeps (release fh) d e j h n = (release-Local U c fh d e).elsewhere j (ground arith)
  step-keeps (write fh off buf) d e j h n =
      (write-Local U c fh off buf d e).elsewhere j (ground arith)
  step-keeps (read fh off) d e j h n = (read-Local U c fh off d e).elsewhere j (ground arith)
  step-keeps (poll fh ph) d e j h n = (poll-Local U c fh ph d e).elsewhere j (ground arith)
  step-keeps (ioctl fh call) d e j h n = (ioctl-Local U c fh call d e).elsewhere j (ground arith)
  step-keeps (watch fh) d {d'} e j h n =
      rw (← returned-inj e) ((watch-elsewhere U c fh j d).1 (ground arith))

  -- In every run of the daemon that does not panic, from a state where no handle from the counter on
  -- is open, and with fewer requests than the counter has numbers left, no handle from the counter on
  -- is open at the end: no opening meets a handle that is in use.
  pub run-IsFresh :
      (ops : List Op) (d : Daemon U) {d' : Daemon U}
      → run ops d ≡ returned d'
      → d.counter + length ops < u64_mod
      → IsFresh d
      → IsFresh d'
  run-IsFresh [] d {d'} e h f = rw (← returned-inj e) f
  run-IsFresh (op ∷ ops) d e h f =
      let (d₁, e₁, e₂) = >>=-eq-returned (step U c op d) _ e in
      let (lo, hi, f₁) = step-Bounded op d e₁ (omega arith) f in
      run-IsFresh ops d₁ e₂ (omega arith) f₁

  -- In every run of the daemon that does not panic, from a state where no handle from the counter on
  -- is open, and with fewer requests than the counter has numbers left, the state of a handle below
  -- the counter that no request names is the same at the end as at the start, whatever happens at
  -- other handles.
  pub handles_isolated :
      (ops : List Op) (d : Daemon U) {d' : Daemon U} (j : ℕ)
      → run ops d ≡ returned d'
      → d.counter + length ops < u64_mod
      → IsFresh d
      → j < d.counter
      → All (λ op. names j op ≡ false) ops
      → state_of j d'.states ≡ state_of j d.states
  handles_isolated [] d {d'} j e h f below n = rw (← returned-inj e) refl
  handles_isolated (op ∷ ops) d j e h f below n =
      let (d₁, e₁, e₂) = >>=-eq-returned (step U c op d) _ e in
      let (lo, hi, f₁) = step-Bounded op d e₁ (omega arith) f in
      handles_isolated ops d₁ j e₂ (omega arith) f₁ (omega arith) n.1
      ∙ step-keeps op d e₁ j below n.0
