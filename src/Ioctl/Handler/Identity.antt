-- ===== src/Ioctl/Handler/Identity.antt =====
-- The identity of a device, which UI_DEV_SETUP does not take from the client
-- (vuinputd/src/cuse_device/vuinput_ioctl.rs).
use vuinputd.Prelude.{arith, ℕ, ◌≡◌, List, ◌++◌, [], take, drop}
use vuinputd.Fuse.{returned, ◌>>=◌}
use vuinputd.Device.{Uinput, UinputSetup, VuInputState, ui_dev_setup}
use vuinputd.Write.Bytes.{field, to_le}
use vuinputd.Ioctl.Codes
use vuinputd.Ioctl.Codes.{code_of}
use vuinputd.Ioctl.Mapping.{retry}
use vuinputd.Ioctl.Handler
use vuinputd.Ioctl.Handler.{
  IoctlCall, Host, Handled, request, plain, vuinput_ioctl, sanitized_setup,
}

-- A `uinput_setup` of the client: three numbers of its identity, and the bytes behind them.
abbrev pub setup_call : ℕ → ℕ → ℕ → List ℕ → IoctlCall
setup_call bustype vendor product rest = record {
  cmd = code_of Codes.dev_setup;
  arg = 0;
  in_buf = to_le 2 bustype ++ (to_le 2 vendor ++ (to_le 2 product ++ rest));
  out_bufsz = 0;
}

-- The setup that reaches the kernel, from the bytes behind the identity.
abbrev pub pinned_setup : List ℕ → UinputSetup
pinned_setup rest = record {
  bustype = 3;
  vendor = 0x1209;
  product = 0x5020;
  version = field 0 2 rest;
  name = take 80 (drop 2 rest);
  ff_effects_max = field 82 4 rest;
}

-- Whatever bus, vendor and product the client asks for, the kernel is asked for bus 3, vendor 0x1209
-- and product 0x5020, with the version, name and effects of the client, and a refusal panics.
pub identity_pinned :
    (U : Uinput) (host : Host) (s : VuInputState) (k : U.Kernel) (bustype vendor product : ℕ)
    (rest : List ℕ)
    → vuinput_ioctl U host (setup_call bustype vendor product rest) s k ≡ (
        request U s.file (ui_dev_setup (pinned_setup rest)) k >>= λ (k', _).
        returned (plain U s k' []))
unfolding vuinput_ioctl Handler.handle sanitized_setup retry Codes.command Codes.cmd_normalized
identity_pinned U host s k bustype vendor product rest = ground arith
