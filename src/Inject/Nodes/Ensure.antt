-- ===== src/Inject/Nodes/Ensure.antt =====
-- What `ensure_input_device` leaves at the path (vuinputd/src/input_realizer/input_device.rs).
use mathlib.Core.Path.{subst}
use vuinputd.Prelude.{
  ap, sym, ◌∙◌, ℕ, ◌≡◌, refl, Bool, true, false, Option, none, some, ◌==◌, ==_iff, if◌then◌else◌,
  arith,
}
use vuinputd.Prelude.Text.{Text}
use vuinputd.Ioctl.Lookup.{makedev}
use vuinputd.Inject.{System, Stat, Step, Ended, fine, failed, panicked, ◌then?◌, go_on, ended_of}
use vuinputd.Inject.Nodes.{
  expected_mode, is_device, needs_replacement, ensure_input_device, IsFileSystem, IsNode,
  create_input_dir, ensure_node, ensure_mode, fix_mode,
}

module _ (S : System) where
  is_device-eq :
      (dev : ℕ) (o : Option Stat)
      → is_device dev o ≡ true
      → (st : Stat) × (o ≡ some st) × (st.is_char ≡ true) × (st.st_rdev ≡ dev)
  is_device-eq dev none h = cc
  is_device-eq dev (some st) h = (st, refl, ground arith, ground arith)

  go_on-fine :
      (m : S.World × Ended) (n : Step S.World) {w' : S.World}
      → go_on m n ≡ (w', fine)
      → (w : S.World) × (m ≡ (w, fine)) × (n w ≡ (w', fine))
  go_on-fine (w, fine) n h = (w, refl, h)
  go_on-fine (w, failed) n h = cc
  go_on-fine (w, panicked) n h = cc

  -- How a call ends whose failure is passed on.
  abbrev ends : S.World × Bool → S.World × Ended
  ends r = (r.0, ended_of r.1)

  ends-fine : (r : S.World × Bool) {w' : S.World} → ends r ≡ (w', fine) → (r.1 ≡ true) × (r.0 ≡ w')
  ends-fine (w, true) h = (refl, ap (λ x. x.0) h)
  ends-fine (w, false) h = cc

  kept-IsNode :
      (path : Text) (dev : ℕ) (w : S.World)
      → needs_replacement S path dev w ≡ false
      → IsNode S path dev w
  kept-IsNode path dev w h = is_device-eq dev (S.stat path w) (ground arith)

  ensure_node-IsNode :
      (path : Text) (dev : ℕ) (w : S.World) {w' : S.World}
      → IsFileSystem S path
      → ensure_node S path dev w ≡ (w', fine)
      → IsNode S path dev w'
  unfolding ensure_node
  ensure_node-IsNode path dev w {w'} fs e = by_test (needs_replacement S path dev w) refl e
    where
      made : S.World × Bool
      made = S.mknod path expected_mode dev (S.remove_file path w).0

      unchanged : S.World × Ended
      unchanged = (w, fine)

      by_test :
          (b : Bool)
          → needs_replacement S path dev w ≡ b
          → (if b then ends made else unchanged) ≡ (w', fine)
          → IsNode S path dev w'
      by_test true h e =
          let (ok, q) = ends-fine made e in
          subst (IsNode S path dev) q (fs.mknod_makes expected_mode dev _ ok)
      by_test false h e = subst (IsNode S path dev) (ap (λ x. x.0) e) (kept-IsNode path dev w h)

  abbrev ready : ℕ → Stat
  ready dev = record { is_char = true; st_rdev = dev; perms = expected_mode }

  with_mode :
      (st : Stat) {dev : ℕ}
      → st.is_char ≡ true
      → st.st_rdev ≡ dev
      → (record st { perms = expected_mode }) ≡ ready dev
  with_mode st c r = λ i. record { is_char = c i; st_rdev = r i; perms = expected_mode }

  fix_mode-ready :
      (path : Text) (dev : ℕ) (w : S.World) (st : Stat) {w' : S.World}
      → IsFileSystem S path
      → S.stat path w ≡ some st
      → st.is_char ≡ true
      → st.st_rdev ≡ dev
      → fix_mode S path (some st) w ≡ (w', fine)
      → S.stat path w' ≡ some (ready dev)
  unfolding fix_mode
  fix_mode-ready path dev w st {w'} fs s c r e = by_test (st.perms == expected_mode) refl e
    where
      unchanged : S.World × Ended
      unchanged = (w, fine)

      by_test :
          (b : Bool)
          → (st.perms == expected_mode) ≡ b
          → (if b then unchanged else ends (S.set_permissions path expected_mode w)) ≡ (w', fine)
          → S.stat path w' ≡ some (ready dev)
      by_test true h e =
          let m = (==_iff st.perms expected_mode).0 h in
          ap (λ x. S.stat path x.0) (sym e)
          ∙ (s ∙ ap some (λ i. record { is_char = c i; st_rdev = r i; perms = m i }))
      by_test false h e =
          let (ok, q) = ends-fine (S.set_permissions path expected_mode w) e in
          ap (S.stat path) (sym q)
          ∙ (fs.chmod_sets expected_mode w s ok ∙ ap some (with_mode st c r))

  ensure_mode-ready :
      (path : Text) (dev : ℕ) (w : S.World) {w' : S.World}
      → IsFileSystem S path
      → IsNode S path dev w
      → ensure_mode S path w ≡ (w', fine)
      → S.stat path w' ≡ some (ready dev)
  unfolding ensure_mode
  ensure_mode-ready path dev w fs (st, s, c, r) e =
      fix_mode-ready path dev w st fs s c r (sym (ap (λ o. fix_mode S path o w) s) ∙ e)

  -- Where the file system keeps its promises at the path, `ensure_input_device` that succeeds leaves
  -- the character device with the numbers asked for at the path, with mode 0666, whatever was there
  -- before.
  pub ensure_input_device-node :
      (path : Text) (major minor : ℕ) (w : S.World) {w' : S.World}
      → IsFileSystem S path
      → ensure_input_device S path major minor w ≡ (w', fine)
      → S.stat path w'
        ≡ some (record { is_char = true; st_rdev = makedev major minor; perms = expected_mode })
  unfolding ensure_input_device
  ensure_input_device-node path major minor w fs e =
      let (w₂, e₂, e₃) =
        go_on-fine ((create_input_dir S then? ensure_node S path (makedev major minor)) w)
          (ensure_mode S path) e in
      let (w₁, e₁, e₄) =
        go_on-fine (create_input_dir S w) (ensure_node S path (makedev major minor)) e₂ in
      ensure_mode-ready path _ w₂ fs (ensure_node-IsNode path _ w₁ fs e₄) e₃
