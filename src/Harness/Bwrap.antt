-- ===== src/Harness/Bwrap.antt =====
-- The invocation of bubblewrap (vuinputd-tests/src/bwrap.rs).
use vuinputd.Prelude.{ℕ, Option, none, some, List, [], ◌∷◌}
use vuinputd.Prelude.Text.{Text, codes}
use vuinputd.Harness.{Builder, Spawn, push}

unfoldable pub unshare_all : Builder → Builder
unshare_all = push (codes "--unshare-all" ∷ [])

unfoldable pub unshare_net : Builder → Builder
unshare_net = push (codes "--unshare-net" ∷ [])

unfoldable pub proc : Builder → Builder
proc = push (codes "--proc" ∷ codes "/proc" ∷ [])

unfoldable pub dev : Builder → Builder
dev = push (
    codes "--dev-bind"
    ∷ codes "/run/vuinputd/vuinput-test/dev"
    ∷ codes "/dev"
    ∷ codes "--dev-bind"
    ∷ codes "/run/vuinputd/vuinput-test/dev-input"
    ∷ codes "/dev/input"
    ∷ [])

unfoldable pub tmpfs : Text → Builder → Builder
tmpfs path = push (codes "--tmpfs" ∷ path ∷ [])

unfoldable pub ro_bind : Text → Text → Builder → Builder
ro_bind src dst = push (codes "--ro-bind" ∷ src ∷ dst ∷ [])

unfoldable pub bind : Text → Text → Builder → Builder
bind src dst = push (codes "--bind" ∷ src ∷ dst ∷ [])

unfoldable pub dev_bind : Text → Text → Builder → Builder
dev_bind src dst = push (codes "--dev-bind" ∷ src ∷ dst ∷ [])

unfoldable pub die_with_parent : Builder → Builder
die_with_parent = push (codes "--die-with-parent" ∷ [])

-- The two ends of the socket pair, or an error; the value has the parent's end.
unfoldable pub with_ipc : Option (ℕ × ℕ) → Builder → Option (Builder × ℕ)
with_ipc none b = none
with_ipc (some (parent, child)) b = some (record b { ipc_child_fd = some child }, parent)

unfoldable pub command : Text → List Text → Builder → Builder
command cmd args = push (codes "--" ∷ cmd ∷ args)

unfoldable pub run : Builder → Spawn
run b = record { program = codes "bwrap"; words = b.args; moved = b.ipc_child_fd }
