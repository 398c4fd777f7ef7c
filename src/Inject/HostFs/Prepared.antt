-- ===== src/Inject/HostFs/Prepared.antt =====
-- What the preparation of the folders of the placement on the host guarantees
-- (vuinputd/src/input_realizer/host_fs.rs, vuinputd/src/container_runtime/mod.rs).
use mathlib.Core.Path.{subst}
use vuinputd.Prelude.{◌≡◌, refl, ap, sym, ◌∙◌, ◌⊎◌, ◌≢◌, inl, inr, Bool, true, arith, Bool-cases}
use vuinputd.Prelude.Text.{Text}
use vuinputd.Fuse.{Outcome}
use vuinputd.Inject.{System, Ended, fine, failed, panicked, Step, ◌then?◌, go_on}
use vuinputd.Inject.Strategy.{
  ContainerRuntime, placement_on_host, uses_run_folder, uses_run_folder_iff, injection_strategy,
  path_prefix,
}
use vuinputd.Inject.HostFs.{
  dev_input_dir, data_dir, control_file, make_missing, ensure_host_fs_structure, initialize,
}

module _ (S : System) where
  -- What the calls do to the files: one that succeeds makes its file, and no call removes another.
  pub record MakesFiles : Type 0 where
    pub dir_made :
        (path : Text) (w : S.World)
        → (S.create_dir_all path w).1 ≡ true
        → S.exists path (S.create_dir_all path w).0 ≡ true
    pub dir_keeps :
        (path other : Text) (w : S.World)
        → S.exists other w ≡ true
        → S.exists other (S.create_dir_all path w).0 ≡ true
    pub file_made :
        (path : Text) (w : S.World)
        → (S.create path w).1 ≡ true
        → S.exists path (S.create path w).0 ≡ true
    pub file_keeps :
        (path other : Text) (w : S.World)
        → S.exists other w ≡ true
        → S.exists other (S.create path w).0 ≡ true

  -- A call that makes a file.
  record Makes (make : Text → S.World → S.World × Bool) : Type 0 where
    made :
        (path : Text) (w : S.World) → (make path w).1 ≡ true → S.exists path (make path w).0 ≡ true
    keeps :
        (path other : Text) (w : S.World)
        → S.exists other w ≡ true
        → S.exists other (make path w).0 ≡ true

  abbrev pub IsPrepared : Text → S.World → Type 0
  IsPrepared path_prefix w =
      (S.exists (dev_input_dir path_prefix) w ≡ true)
      × (S.exists (data_dir path_prefix) w ≡ true)
      × (S.exists (control_file path_prefix) w ≡ true)

  module _ (make : Text → S.World → S.World × Bool) (M : Makes make) (path : Text) where
    make_missing-exists :
        (w : S.World)
        → (make_missing S make path w).1 ≡ fine
        → S.exists path (make_missing S make path w).0 ≡ true
    make_missing-exists w h = elim (Bool-cases (S.exists path w)) [
      | inl e ↦ rw e e
      | inr e ↦ rw e (M.made path w (ground arith))
    ]

    make_missing-keeps :
        (other : Text) (w : S.World)
        → S.exists other w ≡ true
        → S.exists other (make_missing S make path w).0 ≡ true
    make_missing-keeps other w h = elim (Bool-cases (S.exists path w)) [
      | inl e ↦ rw e h
      | inr e ↦ rw e (M.keeps path other w h)
    ]

    make_missing-present :
        (w : S.World) → S.exists path w ≡ true → make_missing S make path w ≡ (w, fine)
    make_missing-present w e = rw e refl

  -- A sequence that ends well, taken apart.
  fine-then? :
      (m n : Step S.World) (w : S.World)
      → ((m then? n) w).1 ≡ fine
      → ((m w).1 ≡ fine) × ((n (m w).0).1 ≡ fine) × ((m then? n) w ≡ n (m w).0)
  fine-then? m n w h = by_end (m w) h
    where
      by_end :
          (r : S.World × Ended)
          → (go_on r n).1 ≡ fine
          → (r.1 ≡ fine) × ((n r.0).1 ≡ fine) × (go_on r n ≡ n r.0)
      by_end (w', fine) q = (refl, q, refl)
      by_end (w', failed) q = cc
      by_end (w', panicked) q = cc

  module _ (F : MakesFiles) (prefix : Text) where
    dirs : Makes S.create_dir_all
    dirs = record { made = F.dir_made; keeps = F.dir_keeps }

    files : Makes S.create
    files = record { made = F.file_made; keeps = F.file_keeps }

    ensure_host_fs_structure-IsPrepared :
        (w : S.World)
        → (ensure_host_fs_structure S prefix w).1 ≡ fine
        → IsPrepared prefix (ensure_host_fs_structure S prefix w).0
    unfolding ensure_host_fs_structure
    ensure_host_fs_structure-IsPrepared w h =
        let input = make_missing S S.create_dir_all (dev_input_dir prefix) in
        let udev = make_missing S S.create_dir_all (data_dir prefix) in
        let control = make_missing S S.create (control_file prefix) in
        let last = fine-then? (input then? udev) control w h in
        let first = fine-then? input udev w last.0 in
        let w₁ = (input w).0 in
        let w₂ = (udev w₁).0 in
        let w₃ = (control w₂).0 in
        let e : (ensure_host_fs_structure S prefix w).0 ≡ w₃ =
          ap (λ r. r.0) last.2 ∙ ap (λ r. (control r.0).0) first.2 in
        let has_input =
          make_missing-exists S.create_dir_all dirs (dev_input_dir prefix) w first.0 in
        let has_data = make_missing-exists S.create_dir_all dirs (data_dir prefix) w₁ first.1 in
        let ends : (control w₂).1 ≡ fine = sym (ap (λ r. (control r.0).1) first.2) ∙ last.1 in
        let has_control = make_missing-exists S.create files (control_file prefix) w₂ ends in
        let keep_udev = make_missing-keeps S.create_dir_all dirs (data_dir prefix) in
        let keep = make_missing-keeps S.create files (control_file prefix) in
        subst (IsPrepared prefix) (sym e) (
          keep (dev_input_dir prefix) w₂ (keep_udev (dev_input_dir prefix) w₁ has_input),
          keep (data_dir prefix) w₂ has_data,
          has_control,
        )

    ensure_host_fs_structure-again :
        (w : S.World) → IsPrepared prefix w → ensure_host_fs_structure S prefix w ≡ (w, fine)
    unfolding ensure_host_fs_structure
    ensure_host_fs_structure-again w h = rw (h.0, h.1, h.2) refl

    again-IsPrepared :
        (w : S.World) → IsPrepared prefix w → (ensure_host_fs_structure S prefix w).0 ≡ w
    again-IsPrepared w h = ap (λ r. r.0) (ensure_host_fs_structure-again w h)

  -- Where the calls make the files that they say and keep the others, and the preparation succeeds: a
  -- runtime that places on the host has the folders of its prefix and the control file after
  -- `initialize`, any other runtime changes nothing, and to initialize again changes nothing.
  pub initialize-IsPrepared :
      (F : MakesFiles) (runtime : ContainerRuntime) (vudevname : Text) (w : S.World)
      → (ensure_host_fs_structure S (path_prefix vudevname) w).1 ≡ fine
      → (((injection_strategy runtime ≡ Outcome.returned placement_on_host)
            × IsPrepared (path_prefix vudevname) (initialize S runtime vudevname w))
          ⊎ ((injection_strategy runtime ≢ Outcome.returned placement_on_host)
              × (initialize S runtime vudevname w ≡ w)))
        × (initialize S runtime vudevname (initialize S runtime vudevname w)
            ≡ initialize S runtime vudevname w)
  unfolding initialize
  initialize-IsPrepared F runtime vudevname w h = elim (Bool-cases (uses_run_folder runtime)) [
    | inl e ↦
        let prepared = ensure_host_fs_structure-IsPrepared F (path_prefix vudevname) w h in
        rw e (
          inl ((uses_run_folder_iff runtime).0 e, prepared),
          again-IsPrepared F (path_prefix vudevname) _ prepared,
        )
    | inr e ↦ rw e (inr (λ q. (let t = (uses_run_folder_iff runtime).1 q in cc), refl), refl)
  ]
