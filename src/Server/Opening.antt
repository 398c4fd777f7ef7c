-- ===== src/Server/Opening.antt =====
-- What an opening does to the counter and to the registry
-- (vuinputd/src/cuse_device/vuinput_open.rs, evdev_write_watcher.rs).
use vuinputd.Prelude.{
  ℕ, ◌+◌, ◌%◌, ◌≡◌, ◌≢◌, sym, ap, ◌∙◌, Bool, true, false, Option, none, some, arith, ltb,
  if◌then◌else◌,
}
use vuinputd.Fuse.{Outcome, returned, panicked, >>=-eq-returned, returned-inj}
use vuinputd.Process.{RequestingProcess}
use vuinputd.Device.{Uinput}
use vuinputd.Registry.{unwrap, get_vuinput_state, insert_vuinput_state}
use vuinputd.Registry.Laws.{state_of, state_of-insert}
use vuinputd.Server
use vuinputd.Server.{Daemon, u64_mod, vuinput_open}
use vuinputd.Server.Runs.{Config, unwrap-eq}

module _ (U : Uinput) (c : Config) where
  add_device-states :
      (fh : ℕ) (d : Daemon U) {d' : Daemon U}
      → Server.add_device U fh d ≡ returned d'
      → (d'.counter ≡ d.counter) × (d'.states ≡ d.states)
  unfolding Server.add_device
  add_device-states fh d e =
      let (s, r, e₁) = >>=-eq-returned (unwrap (get_vuinput_state fh d.states)) _ e in ground arith

  opened-states :
      (fh : ℕ) (p : RequestingProcess) (file : Option ℕ) (d : Daemon U) {d' : Daemon U}
      → Server.opened U fh p file d ≡ returned d'
      → (d'.counter ≡ d.counter) × ((j : ℕ) → j ≢ fh → state_of j d'.states ≡ state_of j d.states)
  unfolding Server.opened
  opened-states fh p none d e =
      let e' = sym (returned-inj e) in
      (ap (λ x. x.counter) e', λ j n. ap (λ x. state_of j x.states) e')
  opened-states fh p (some file) d e =
      let (states, r, e₁) = >>=-eq-returned (unwrap (insert_vuinput_state fh _ d.states)) _ e in
      let (d₁, r₁, e₂) =
        >>=-eq-returned (Server.add_device U fh (record d { states = states })) _ e₁ in
      let (h, k) = add_device-states fh _ r₁ in
      let e₃ = sym (returned-inj e₂) in
      (
        ap (λ x. x.counter) e₃ ∙ h,
        λ j n.
            ap (λ x. state_of j x.states) e₃
            ∙ (ap (λ x. state_of j x) k ∙ state_of-insert j fh _ d.states (unwrap-eq U c _ r) n),
      )

  guard-passed :
      {A : Type 0} (b : Bool) (m : Outcome A) {a : A}
      → (if b then m else panicked) ≡ returned a
      → m ≡ returned a
  guard-passed true m h = h
  guard-passed false m h = cc

  pub open-states :
      (pid : ℕ) (d : Daemon U) {d' : Daemon U}
      → vuinput_open U c.get_requesting_process pid d ≡ returned d'
      → (d'.counter ≡ (d.counter + 1) % u64_mod)
        × ((j : ℕ) → j ≢ d.counter → state_of j d'.states ≡ state_of j d.states)
  unfolding vuinput_open Server.get_fresh_filehandle
  open-states pid d e =
      let (p, r, e₁) =
        >>=-eq-returned (c.get_requesting_process pid) _ (guard-passed (ltb pid 2147483648) _ e) in
      let (k, file) = U.open_uinput d.kernel in
      opened-states d.counter p file (record d { counter = (d.counter + 1) % u64_mod; kernel = k })
        e₁
