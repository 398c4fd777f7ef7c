-- ===== src/Server/Runs.antt =====
-- Sequences of requests, and what they leave of the handles that they are not about
-- (vuinputd/src/cuse_device/state.rs, vuinput_open.rs, vuinput_release.rs).
use vuinputd.Prelude.{ℕ, ◌≡◌, ◌≢◌, refl, sym, ap, ◌∙◌, Option, none, some, List, arith}
use vuinputd.Write.Handler as WriteHandler
use vuinputd.Poll
use vuinputd.Ioctl.Handler as IoctlHandler
use vuinputd.Fuse.{Outcome, returned, >>=-eq-returned, returned-inj}
use vuinputd.Policy.{DevicePolicy}
use vuinputd.Process.{RequestingProcess}
use vuinputd.Device.{Uinput, VuInputState}
use vuinputd.Registry.{Result, ok, err, unwrap, get_vuinput_state, remove_vuinput_state, store}
use vuinputd.Registry.Laws.{
  state_of, get-state_of, state_of-store, state_of-remove, remove-state_of,
}
use vuinputd.Ioctl.Handler.{Host, IoctlCall}
use vuinputd.Server
use vuinputd.Server.{
  Daemon, u64_mod, vuinput_open, vuinput_release, handle_write, handle_read, handle_poll,
  handle_ioctl, handle_watch,
}

-- What the daemon reads of its host and its configuration.
pub record Config : Type 0 where
  pub policy : DevicePolicy
  pub host : Host
  pub get_requesting_process : ℕ → Outcome RequestingProcess

-- A request of the kernel, or an event that the watcher sees.
pub data Op : Type 0 where
  open_device : ℕ → Op
  release : ℕ → Op
  write : ℕ → ℕ → List ℕ → Op
  read : ℕ → ℕ → Op
  poll : ℕ → Option ℕ → Op
  ioctl : ℕ → IoctlCall → Op
  watch : ℕ → Op

module _ (U : Uinput) (c : Config) where
  abbrev pub step : Op → Daemon U → Outcome (Daemon U)
  step (open_device pid) d = vuinput_open U c.get_requesting_process pid d
  step (release fh) d = vuinput_release U c.host.self_namespaces fh d
  step (write fh off buf) d = handle_write U c.policy fh off buf d
  step (read fh off) d = handle_read U fh off d
  step (poll fh ph) d = handle_poll U fh ph d
  step (ioctl fh call) d = handle_ioctl U c.host fh call d
  step (watch fh) d = returned (handle_watch U fh d)

  -- The handle that an operation is about; an opening takes the next one.
  abbrev pub handle_of : Op → Daemon U → ℕ
  handle_of (open_device pid) d = d.counter
  handle_of (release fh) d = fh
  handle_of (write fh off buf) d = fh
  handle_of (read fh off) d = fh
  handle_of (poll fh ph) d = fh
  handle_of (ioctl fh call) d = fh
  handle_of (watch fh) d = fh

  pub unwrap-eq : {A : Type 0} (r : Result A) {a : A} → unwrap r ≡ returned a → r ≡ ok a
  unwrap-eq (ok a) h = cc
  unwrap-eq (err e) h = cc

  -- What the operations on one handle do to the registry: nothing at another handle, and only if the
  -- handle is open.
  pub record Local (fh : ℕ) (d d' : Daemon U) : Type 0 where
    pub same_counter : d'.counter ≡ d.counter
    pub was_open : (s : VuInputState) × (state_of fh d.states ≡ some s)
    pub elsewhere : (j : ℕ) → j ≢ fh → state_of j d'.states ≡ state_of j d.states

  stored-Local :
      (fh : ℕ) (s s' : VuInputState) (d d' : Daemon U)
      → unwrap (get_vuinput_state fh d.states) ≡ returned s
      → d'.counter ≡ d.counter
      → d'.states ≡ store fh s' d.states
      → Local fh d d'
  stored-Local fh s s' d d' r h e = record {
    same_counter = h;
    was_open = (s, get-state_of fh d.states (unwrap-eq _ r));
    elsewhere = λ j n. ap (λ x. state_of j x) e ∙ state_of-store j fh s' d.states n;
  }

  pub write-Local :
      (fh off : ℕ) (buf : List ℕ) (d : Daemon U) {d' : Daemon U}
      → handle_write U c.policy fh off buf d ≡ returned d'
      → Local fh d d'
  unfolding handle_write
  write-Local fh off buf d e =
      let (s, r, e₁) = >>=-eq-returned (unwrap (get_vuinput_state fh d.states)) _ e in
      let (w, r₁, e₂) =
        >>=-eq-returned (WriteHandler.vuinput_write U c.policy fh off buf s d.last_error d.kernel) _
          e₁ in
      let e₃ = sym (returned-inj e₂) in
      stored-Local fh s w.state d _ r (ap (λ x. x.counter) e₃) (ap (λ x. x.states) e₃)

  pub read-Local :
      (fh off : ℕ) (d : Daemon U) {d' : Daemon U}
      → handle_read U fh off d ≡ returned d'
      → Local fh d d'
  unfolding handle_read
  read-Local fh off d e =
      let (s, r, e₁) = >>=-eq-returned (unwrap (get_vuinput_state fh d.states)) _ e in
      let ((p, calls), r₁, e₂) =
        >>=-eq-returned
          (Poll.vuinput_read off s.requesting_process.is_compat (U.read s.file d.kernel).1 s.poll) _
          e₁ in
      let e₃ = sym (returned-inj e₂) in
      stored-Local fh s (record s { poll = p }) d _ r (ap (λ x. x.counter) e₃)
        (ap (λ x. x.states) e₃)

  pub poll-Local :
      (fh : ℕ) (ph : Option ℕ) (d : Daemon U) {d' : Daemon U}
      → handle_poll U fh ph d ≡ returned d'
      → Local fh d d'
  unfolding handle_poll
  poll-Local fh ph d e =
      let (s, r, e₁) = >>=-eq-returned (unwrap (get_vuinput_state fh d.states)) _ e in
      let e₃ = sym (returned-inj e₁) in
      stored-Local fh s _ d _ r (ap (λ x. x.counter) e₃) (ap (λ x. x.states) e₃)

  pub ioctl-Local :
      (fh : ℕ) (call : IoctlCall) (d : Daemon U) {d' : Daemon U}
      → handle_ioctl U c.host fh call d ≡ returned d'
      → Local fh d d'
  unfolding handle_ioctl
  ioctl-Local fh call d e =
      let (s, r, e₁) = >>=-eq-returned (unwrap (get_vuinput_state fh d.states)) _ e in
      let (h, r₁, e₂) =
        >>=-eq-returned (IoctlHandler.vuinput_ioctl U c.host call s d.kernel) _ e₁ in
      let e₃ = sym (returned-inj e₂) in
      stored-Local fh s h.state d _ r (ap (λ x. x.counter) e₃) (ap (λ x. x.states) e₃)

  released-states :
      (s : VuInputState) (d : Daemon U) {d' : Daemon U}
      → Server.released U c.host.self_namespaces s d ≡ returned d'
      → (d'.counter ≡ d.counter) × (d'.states ≡ d.states)
  unfolding Server.released
  released-states s d e = ground arith

  pub release-Local :
      (fh : ℕ) (d : Daemon U) {d' : Daemon U}
      → vuinput_release U c.host.self_namespaces fh d ≡ returned d'
      → Local fh d d'
  unfolding vuinput_release
  release-Local fh d e =
      let ((s, states), r, e₁) = >>=-eq-returned (unwrap (remove_vuinput_state fh d.states)) _ e in
      let (h, k) = released-states s (record d { states = states }) e₁ in
      record {
        same_counter = h;
        was_open = (s, (remove-state_of fh d.states (unwrap-eq _ r)).0);
        elsewhere =
            λ j n. ap (λ x. state_of j x) k ∙ state_of-remove j fh d.states (unwrap-eq _ r) n;
      }

  watch_state-elsewhere :
      (fh j : ℕ) (r : Result VuInputState) (d : Daemon U)
      → ((Server.watch_state U fh r d).counter ≡ d.counter)
        × (j ≢ fh → state_of j (Server.watch_state U fh r d).states ≡ state_of j d.states)
  unfolding Server.watch_state
  watch_state-elsewhere fh j (err x) d = (refl, λ n. refl)
  watch_state-elsewhere fh j (ok s) d = (refl, state_of-store j fh _ d.states)

  watch_state-absent :
      (fh : ℕ) (r : Result VuInputState) (d : Daemon U)
      → get_vuinput_state fh d.states ≡ r
      → state_of fh d.states ≡ none
      → state_of fh (Server.watch_state U fh r d).states ≡ none
  unfolding Server.watch_state
  watch_state-absent fh (err x) d g h = h
  watch_state-absent fh (ok s) d g h = let k = get-state_of fh d.states g in cc

  -- A watcher's event passes over a handle that is not open.
  pub watch-absent :
      (fh : ℕ) (d : Daemon U)
      → state_of fh d.states ≡ none
      → state_of fh (handle_watch U fh d).states ≡ none
  unfolding handle_watch
  watch-absent fh d = watch_state-absent fh _ d refl

  pub watch-elsewhere :
      (fh j : ℕ) (d : Daemon U)
      → ((handle_watch U fh d).counter ≡ d.counter)
        × (j ≢ fh → state_of j (handle_watch U fh d).states ≡ state_of j d.states)
  unfolding handle_watch
  watch-elsewhere fh j d = watch_state-elsewhere fh j _ d
