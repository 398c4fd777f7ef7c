-- ===== src/Ioctl/Handler/Lifecycle.antt =====
-- The life of a device through UI_DEV_CREATE and UI_DEV_DESTROY
-- (vuinputd/src/cuse_device/vuinput_ioctl.rs, vuinput_release.rs).
use vuinputd.Prelude.{
  ℕ, ◌≡◌, refl, sym, ap, ap₂, ◌∙◌, Option, none, some, List, [], ◌∷◌, ◌++◌, if◌then◌else◌, arith,
}
use vuinputd.Prelude.Text.{codes}
use vuinputd.Fuse.{returned, >>=-eq-returned, returned-inj}
use vuinputd.Process.{equal_mnt_and_net}
use vuinputd.Device.{
  Uinput, VuInputDevice, VuInputState, JobRequest, mknod_device, emit_udev_event, remove_device,
  ui_dev_create, ui_get_sysname, ui_dev_destroy,
}
use vuinputd.Ioctl.Codes
use vuinputd.Ioctl.Codes.{code_of}
use vuinputd.Ioctl.Mapping.{retry}
use vuinputd.Ioctl.Lookup.{fetch_device_node, fetch_major_minor}
use vuinputd.Ioctl.Handler
use vuinputd.Ioctl.Handler.{
  IoctlCall, Host, Handled, expect, c_str, create_jobs, remove_jobs, request, vuinput_ioctl,
}

-- The call of a command without a buffer.
abbrev pub bare_call : Codes.Command → IoctlCall
bare_call c = record { cmd = code_of c; arg = 0; in_buf = []; out_bufsz = 0 }

-- The jobs of the whole life of a device.
abbrev pub life_jobs : Host → VuInputState → VuInputDevice → List JobRequest
life_jobs host s d =
    if equal_mnt_and_net host.self_namespaces s.requesting_process.namespaces
    then []
    else (mknod_device s.requesting_process d.devname d.syspath d.major d.minor
        ∷ emit_udev_event s.requesting_process d.devnode d.syspath d.major d.minor
        ∷ remove_device s.requesting_process d.devname d.syspath d.major d.minor
        ∷ [])

module _ (U : Uinput) where
  -- A device as the host describes it, after the kernel `k` answered the create request.
  abbrev pub IsNewDevice : Host → VuInputState → U.Kernel → VuInputDevice → Type 0
  IsNewDevice host s k d =
      (k₁ k₂ : U.Kernel) × (b bytes : List ℕ) × (request U s.file ui_dev_create k
        ≡ returned (k₁, b))
      × (request U s.file ui_get_sysname k₁ ≡ returned (k₂, bytes))
      × (d.syspath ≡ codes "/sys/devices/virtual/input/" ++ c_str bytes)
      × (fetch_device_node host.read_dir d.syspath ≡ some (d.devname, d.devnode))
      × (fetch_major_minor host.metadata d.devnode ≡ some (d.major, d.minor))

  expect-eq : {A : Type 0} (o : Option A) {a : A} → expect o ≡ returned a → o ≡ some a
  expect-eq none h = cc
  expect-eq (some a) h = cc

  dev_create-made :
      (host : Host) (s : VuInputState) (k : U.Kernel) {h : Handled U}
      → Handler.dev_create U host s k ≡ returned h
      → (d : VuInputDevice) × IsNewDevice host s k d
        × (h.state ≡ (record s { input_device = some d }))
        × (h.jobs ≡ create_jobs host.self_namespaces s d)
  unfolding Handler.dev_create
  dev_create-made host s k e =
      let ((k₁, b), r₁, e₁) = >>=-eq-returned _ _ e in
      let ((k₂, bytes), r₂, e₂) = >>=-eq-returned _ _ e₁ in
      let ((devname, devnode), r₃, e₃) = >>=-eq-returned _ _ e₂ in
      let ((major, minor), r₄, e₄) = >>=-eq-returned _ _ e₃ in
      (
        record {
          major = major;
          minor = minor;
          syspath = codes "/sys/devices/virtual/input/" ++ c_str bytes;
          devname = devname;
          devnode = devnode;
        },
        (k₁, k₂, b, bytes, r₁, r₂, refl, expect-eq _ r₃, expect-eq _ r₄),
        ap (λ h'. h'.state) (sym (returned-inj e₄)),
        ap (λ h'. h'.jobs) (sym (returned-inj e₄)),
      )

  dev_destroy-made :
      (host : Host) (s : VuInputState) (k : U.Kernel) {h : Handled U}
      → Handler.dev_destroy U host s k ≡ returned h
      → (h.state ≡ (record s { input_device = none }))
        × (h.jobs ≡ remove_jobs host.self_namespaces s s.input_device)
  unfolding Handler.dev_destroy
  dev_destroy-made host s k e =
      let (k', r, e') = >>=-eq-returned (request U s.file ui_dev_destroy k) _ e in
      (ap (λ h'. h'.state) (sym (returned-inj e')), ap (λ h'. h'.jobs) (sym (returned-inj e')))

  jobs-life :
      (host : Host) (s : VuInputState) (d : VuInputDevice)
      → create_jobs host.self_namespaces s d
          ++ remove_jobs host.self_namespaces (record s { input_device = some d }) (some d)
        ≡ life_jobs host s d
  unfolding create_jobs remove_jobs
  jobs-life host s d = ground arith

  -- A UI_DEV_CREATE that is answered without a panic registers the device that the host's file
  -- system shows for the name the kernel gave. Together with the UI_DEV_DESTROY after it, and with
  -- the release of the handle after that, it dispatches the jobs of the device's life and no more:
  -- to make the node, to announce the device and, once, to remove it; none where the client shares
  -- the daemon's network and mount namespaces.
  pub device_life :
      (host : Host) (s : VuInputState) (k k' : U.Kernel) {h₁ h₂ : Handled U}
      → vuinput_ioctl U host (bare_call Codes.dev_create) s k ≡ returned h₁
      → vuinput_ioctl U host (bare_call Codes.dev_destroy) h₁.state k' ≡ returned h₂
      → (d : VuInputDevice) × IsNewDevice host s k d
        × (h₁.state ≡ (record s { input_device = some d }))
        × (h₁.jobs ++ h₂.jobs ≡ life_jobs host s d)
        × (remove_jobs host.self_namespaces h₂.state h₂.state.input_device ≡ [])
  unfolding remove_jobs vuinput_ioctl Handler.handle retry Codes.command Codes.cmd_normalized
  device_life host s k k' e₁ e₂ =
      let (d, new, s₁, j₁) = dev_create-made host s k e₁ in
      let (s₂, j₂) = dev_destroy-made host _ k' e₂ in
      (
        d,
        new,
        s₁,
        ap₂ (λ xs ys. xs ++ ys) j₁
              (j₂ ∙ ap (λ s'. remove_jobs host.self_namespaces s' s'.input_device) s₁)
            ∙ jobs-life host s d,
        ap (λ s'. remove_jobs host.self_namespaces s' s'.input_device) s₂,
      )
