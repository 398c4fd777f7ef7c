-- ===== src/Jobs/Awaiter/Placed.antt =====
-- UI_DEV_CREATE with the placement on the host: the handler
-- (vuinputd/src/cuse_device/vuinput_ioctl.rs) and its job (vuinputd/src/jobs/mknod_device_job.rs).
use vuinputd.Prelude.{ℕ, ◌≡◌, ◌≢◌, refl, ap, true, some}
use vuinputd.Prelude.Text.{Text}
use vuinputd.Process.{RequestingProcess}
use vuinputd.Ioctl.Lookup.{makedev}
use vuinputd.Inject.{System, Stat, Ended, fine, failed, panicked, panic_on}
use vuinputd.Inject.Nodes.{IsFileSystem, expected_mode}
use vuinputd.Inject.Nodes.Ensure.{ensure_input_device-node}
use vuinputd.Inject.Strategy.{on_host, host_path}
use vuinputd.Jobs.Remove.{mknod_device}
use vuinputd.Jobs.Awaiter.Threads.{
  Threads, waiting, replied, ended, begin, Reach, Reach-IsSound, Reach-panicked, panicked-replied,
  CanEnd, replies,
}

abbrev pub node : ℕ → ℕ → Stat
node major minor = record { is_char = true; st_rdev = makedev major minor; perms = expected_mode }

panic_on_fine : (e : Ended) → panic_on e ≡ fine → e ≡ fine
panic_on_fine fine h = refl
panic_on_fine failed h = cc
panic_on_fine panicked h = cc

module _ (S : System) (vudevname name : Text) (p : RequestingProcess) (major minor : ℕ) where
  abbrev pub body : S.World → S.World × Ended
  body = mknod_device S (on_host S vudevname) p name major minor

  body-placed :
      IsFileSystem S (host_path vudevname name)
      → (w w' : S.World) → body w ≡ (w', fine)
      → S.stat (host_path vudevname name) w' ≡ some (node major minor)
  unfolding mknod_device on_host
  body-placed fs w w' h =
      ensure_input_device-node S (host_path vudevname name) major minor w fs
        (λ i. ((h i).0, panic_on_fine _ (panic_on_fine _ (ap (λ (x : S.World × Ended). x.1) h)) i))

  -- For any order of the steps of the handler and the job, with whatever other programs do that leave
  -- the node alone, and where the file system keeps its promises at the path: once the client has the
  -- reply to its UI_DEV_CREATE, the character device with the numbers of the device is at its path in the
  -- folder of the host, with mode 0666. A handler whose job panicked never replies. A handler that waits
  -- can come to its reply if the job has ended well or would, run now.
  pub create_placed :
      (Other : S.World → S.World → Type 0) (w : S.World) {t : Threads S.World}
      → IsFileSystem S (host_path vudevname name)
      → ((w w' : S.World)
          → Other w w'
          → S.stat (host_path vudevname name) w ≡ some (node major minor)
          → S.stat (host_path vudevname name) w' ≡ some (node major minor))
      → Reach body Other (begin w) t
      → (t.handler ≡ replied → S.stat (host_path vudevname name) t.world ≡ some (node major minor))
        × (t.job ≡ ended panicked
            → (u : Threads S.World) → Reach body Other t u
            → u.handler ≢ replied)
        × (t.handler ≡ waiting
            → CanEnd body Other t
            → (u : Threads S.World) × Reach body Other t u × (u.handler ≡ replied))
  create_placed Other w {t} fs keeps r =
      let Placed : S.World → Type 0 =
        λ w. S.stat (host_path vudevname name) w ≡ some (node major minor) in
      let places = body-placed fs in
      let s = Reach-IsSound body Other Placed places keeps r in
      (
        λ h. s.placed (s.set (s.after h)),
        λ q u later.
            (let (s', q') = Reach-panicked body Other Placed places keeps later s q in
              panicked-replied body Other Placed s' q'),
        λ h can. replies body Other t h can,
      )
