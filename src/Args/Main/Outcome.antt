-- ===== src/Args/Main/Outcome.antt =====
-- What becomes of an invocation (`validate_args` and `main` of vuinputd/src/main.rs).
use mathlib.Core.Path.{subst, ap₂}
use vuinputd.Prelude.{
  ◌≡◌, refl, sym, ◌⊎◌, inl, inr, Bool, true, false, Option, none, some, is_some, List, ℕ,
  if◌then◌else◌,
}
use vuinputd.Prelude.Text.{Text}
use vuinputd.Config.{initialize_global_config}
use vuinputd.Args.{
  Args, Refused, validate_args, IsAction, json, base64, IsDaemon, IsChosenOnce, get_scope,
  resolve_runtime,
}
use vuinputd.Args.Checks.{validate_args_sound}
use vuinputd.Args.Main
use vuinputd.Args.Main.{
  Decoders, Target, Run, target_of, daemon_of, decoded_action, run_args, run_checked, main,
}

-- What a run says of the arguments.
abbrev pub IsOutcome : Args → Run → Type 0
IsOutcome args (Main.refused r) = validate_args args ≡ some r
IsOutcome args Main.undecodable = IsAction args × IsChosenOnce args
IsOutcome args (Main.action target action_json) =
    IsAction args × IsChosenOnce args × (target ≡ target_of args.target_pid args)
IsOutcome args Main.mute_keyboard = IsDaemon args × IsChosenOnce args × (args.vt_guard ≡ true)
IsOutcome args (Main.daemon d) = IsDaemon args × IsChosenOnce args × (args.vt_guard ≡ false)
IsOutcome args Main.config_failed = ⊥

module _ (D : Decoders) (args : Args) (once : IsChosenOnce args) where
  action-IsOutcome :
      (a b : Option Text)
      → (is_some a ≡ true) ⊎ ((a ≡ none) × (is_some b ≡ true))
      → IsAction args
      → IsOutcome args (run_args (decoded_action D a b) args)
  unfolding main
  action-IsOutcome (some j) b h act = (act, once, refl)
  action-IsOutcome none none (inl e) act = cc
  action-IsOutcome none none (inr h) act = let e = h.1 in cc
  action-IsOutcome none (some b) h act = by_bytes (D.decode b)
    where
      by_text : (t : Option Text) → IsOutcome args (run_args (Main.when_decoded t) args)
      by_text none = (act, once)
      by_text (some t) = (act, once, refl)

      by_bytes :
          (o : Option (List ℕ))
          → IsOutcome args (run_args (Main.when_decoded (Main.decoded_text D o)) args)
      by_bytes none = (act, once)
      by_bytes (some bytes) = by_text (if D.is_utf8 bytes then some bytes else none)

  daemon-IsOutcome : IsDaemon args → IsOutcome args (run_args (some none) args)
  unfolding main initialize_global_config
  daemon-IsOutcome d = by_guard args.vt_guard refl
    where
      by_guard :
          (guard : Bool)
          → args.vt_guard ≡ guard
          → IsOutcome args (
              if guard
              then Main.mute_keyboard
              else daemon_of args (
                  initialize_global_config args.device_policy
                    (resolve_runtime args)
                    args.devname
                    args.device_owner
                    (get_scope args)
                    none))
      by_guard true e = (d, once, e)
      by_guard false e = (d, once, e)

module _ (D : Decoders) (args : Args) where
  has_action :
      IsAction args
      → (is_some args.action ≡ true) ⊎ ((args.action ≡ none) × (is_some args.action_base64 ≡ true))
  has_action (json a b m n d) = inl a
  has_action (base64 a b m n d) = inr (a, b)

  accepted-IsOutcome :
      IsChosenOnce args
      → IsAction args ⊎ IsDaemon args
      → IsOutcome args (run_args (decoded_action D args.action args.action_base64) args)
  unfolding main
  accepted-IsOutcome once (inl act) =
      action-IsOutcome D args once args.action args.action_base64 (has_action act) act
  accepted-IsOutcome once (inr d) =
      subst (λ o. IsOutcome args (run_args o args))
        (ap₂ (decoded_action D) (sym d.no_action) (sym d.no_action_base64))
        (daemon-IsOutcome D args once d)

  -- Whatever the arguments and whatever decodes the action: the run is refused exactly as the checks
  -- say. It runs an action, in the target that is asked for, or fails to decode it, only for arguments
  -- with one action and no option for a device. It mutes the keyboard or serves as the daemon only for
  -- arguments with no action and no target, with both numbers of the device or none, and with a name
  -- that fits with its prefix into the 128 bytes of the device's path; and it mutes the keyboard
  -- exactly if that is asked for. In all these cases the runtime was chosen at most once, and the
  -- configuration never fails to be set.
  pub main-IsOutcome : IsOutcome args (main D args)
  unfolding main
  main-IsOutcome = by_checks (validate_args args) refl
    where
      by_checks :
          (o : Option Refused) → validate_args args ≡ o → IsOutcome args (run_checked D o args)
      by_checks (some r) e = e
      by_checks none e =
          let (once, kind) = validate_args_sound args e in accepted-IsOutcome once kind
