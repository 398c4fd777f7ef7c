-- ===== src/Harness/Podman.antt =====
-- The invocation of podman (vuinputd-tests/src/podman.rs).
use vuinputd.Prelude.{ℕ, Option, none, some, List, [], ◌∷◌, ◌++◌}
use vuinputd.Prelude.Text.{Text, codes, to_text}
use vuinputd.Harness.{Builder, Spawn, push}

unfoldable pub run_cmd : Builder → Builder
run_cmd = push (codes "run" ∷ [])

unfoldable pub rm : Builder → Builder
rm = push (codes "--rm" ∷ [])

unfoldable pub detach : Builder → Builder
detach = push (codes "--detach" ∷ [])

unfoldable pub name : Text → Builder → Builder
name n = push (codes "--name" ∷ n ∷ [])

unfoldable pub tty : Builder → Builder
tty = push (codes "--tty" ∷ [])

unfoldable pub interactive : Builder → Builder
interactive = push (codes "--interactive" ∷ [])

unfoldable pub device : Text → Builder → Builder
device spec = push (codes "--device" ∷ spec ∷ [])

-- The word holds the quotation marks, which no shell removes.
unfoldable pub allow_input_devices : Builder → Builder
allow_input_devices =
    push ((codes "--device-cgroup-rule=" ++ (34 ∷ (codes "c 13:* rwm" ++ (34 ∷ [])))) ∷ [])

unfoldable pub volume : Text → Builder → Builder
volume spec = push (codes "-v" ∷ spec ∷ [])

unfoldable pub publish : Text → Builder → Builder
publish spec = push (codes "--publish" ∷ spec ∷ [])

unfoldable pub env : Text → Text → Builder → Builder
env key value = push (codes "-e" ∷ (key ++ (codes "=" ++ value)) ∷ [])

unfoldable pub group_add : ℕ → Builder → Builder
group_add group = push (codes "--group-add" ∷ to_text group ∷ [])

unfoldable pub security_opt : Text → Builder → Builder
security_opt opt = push (codes "--security-opt" ∷ opt ∷ [])

unfoldable pub userns : Text → Builder → Builder
userns mode = push (codes "--userns" ∷ mode ∷ [])

unfoldable pub uidmap : Text → Builder → Builder
uidmap map = push (codes "--uidmap" ∷ map ∷ [])

-- The two ends of the socket pair, or an error; the value has the parent's end.
unfoldable pub with_ipc : Option (ℕ × ℕ) → Builder → Option (Builder × ℕ)
with_ipc none b = none
with_ipc (some (parent, child)) b =
    some (push (codes "--preserve-fds=1" ∷ []) (record b { ipc_child_fd = some child }), parent)

unfoldable pub image : Text → Builder → Builder
image reference = push (reference ∷ [])

unfoldable pub command : List Text → Builder → Builder
command cmd = push cmd

unfoldable pub run : Builder → Spawn
run b = record { program = codes "podman"; words = b.args; moved = b.ipc_child_fd }
