-- ===== src/Args/Checks.antt =====
-- What `validate_args` of vuinputd/src/main.rs lets through.
use vuinputd.Prelude.{
  ℕ, ◌+◌, ◌<◌, ◌≡◌, ◌⊎◌, inl, inr, refl, ap, ap₂, sym, ◌∙◌, true, false, not, ◌&&◌, Option, none,
  some, is_some, length, arith, Option-cases,
}
use vuinputd.Prelude.Text.{Text}
use vuinputd.Inject.Strategy.{ContainerRuntime, auto}
use vuinputd.Args.{
  Args, Placement, is_auto, action_of, action_fits, together, devname_fits, validate_args, IsAction,
  json, base64, IsDaemon, IsChosenOnce,
}

chosen_once :
    (p : Option Placement) (r : ContainerRuntime)
    → (is_some p && not (is_auto r)) ≡ false
    → (p ≡ none) ⊎ (r ≡ auto)
chosen_once none r h = inl refl
chosen_once (some p) auto h = inr refl
chosen_once (some p) _ h = cc

-- An invocation of the daemon, from the checks that it passed.
numbers_together :
    (major minor : Option ℕ) → together major minor ≡ true → is_some major ≡ is_some minor
numbers_together none none h = refl
numbers_together none (some n) h = cc
numbers_together (some m) none h = cc
numbers_together (some m) (some n) h = refl

name_short :
    (devname : Option Text)
    → devname_fits devname ≡ true
    → (name : Text) → devname ≡ some name
    → 5 + length name < 128
name_short none h name e = cc
name_short (some n) h name e = ground arith

target_absent :
    (major minor : Option ℕ) (devname target_pid : Option Text)
    → action_fits major minor devname none target_pid ≡ true
    → target_pid ≡ none
target_absent major minor devname none h = refl
target_absent none none none (some t) h = cc
target_absent none none (some d) (some t) h = cc
target_absent none (some n) devname (some t) h = cc
target_absent (some m) minor devname (some t) h = cc

device_absent :
    (major minor : Option ℕ) (devname : Option Text) (action : Text) (target_pid : Option Text)
    → action_fits major minor devname (some action) target_pid ≡ true
    → (major ≡ none) × (minor ≡ none) × (devname ≡ none)
device_absent none none none action t h = (refl, refl, refl)
device_absent none none (some d) action t h = cc
device_absent none (some n) devname action t h = cc
device_absent (some m) minor devname action t h = cc

-- The checks, all passed.
record Passed (args : Args) (action : Option Text) : Type 0 where
  once : (is_some args.placement && not (is_auto args.container_runtime)) ≡ false
  one_action : action_of args.action args.action_base64 ≡ some action
  fits : action_fits args.major args.minor args.devname action args.target_pid ≡ true
  numbers : together args.major args.minor ≡ true
  name : devname_fits args.devname ≡ true

validate_args-Passed :
    (args : Args) → validate_args args ≡ none → (action : Option Text) × Passed args action
unfolding validate_args
validate_args-Passed args h = elim (Option-cases (action_of args.action args.action_base64)) [
  | inl e ↦ absurd (ground arith)
  | inr (action, e) ↦ (
    action,
    record {
      once = ground arith;
      one_action = e;
      fits = ground arith;
      numbers = ground arith;
      name = ground arith;
    },
  )
]

some-inj {ℓ} : {A : Type ℓ} {a b : A} → some a ≡ some b → a ≡ b
some-inj h = cc

-- Which action the checks were made with.
action-eq :
    (args : Args) (a b : Option Text) {action : Option Text}
    → args.action ≡ a
    → args.action_base64 ≡ b
    → Passed args action
    → action_of a b ≡ some action
action-eq args a b p q c = sym (ap₂ action_of p q) ∙ c.one_action

fits-eq :
    (args : Args) (a b : Option Text) {action action' : Option Text}
    → args.action ≡ a
    → args.action_base64 ≡ b
    → Passed args action
    → action_of a b ≡ some action'
    → action_fits args.major args.minor args.devname action' args.target_pid ≡ true
fits-eq args a b {action} {action'} p q c e =
    let e' : some action' ≡ some action = sym e ∙ action-eq args a b p q c in
    ap (λ x. action_fits args.major args.minor args.devname x args.target_pid) (some-inj e')
    ∙ c.fits

kind :
    (args : Args) (a b : Option Text) {action : Option Text}
    → args.action ≡ a
    → args.action_base64 ≡ b
    → Passed args action
    → IsAction args ⊎ IsDaemon args
kind args none none p q c = inr (record {
  no_action = p;
  no_action_base64 = q;
  no_target =
      target_absent args.major args.minor args.devname args.target_pid
        (fits-eq args none none p q c refl);
  both_numbers = numbers_together args.major args.minor c.numbers;
  name_fits = name_short args.devname c.name;
})
kind args none (some t) p q c =
    let (m, n, d) =
      device_absent args.major args.minor args.devname t args.target_pid
        (fits-eq args none (some t) p q c refl) in
    inl (base64 p (ap is_some q) m n d)
kind args (some t) none p q c =
    let (m, n, d) =
      device_absent args.major args.minor args.devname t args.target_pid
        (fits-eq args (some t) none p q c refl) in
    inl (json (ap is_some p) q m n d)
kind args (some t) (some u) p q c = let e = action-eq args (some t) (some u) p q c in cc

-- The arguments that pass the checks have an action, and no option for a device, or have none, and a
-- name that fits with its prefix into the 128 bytes of the device's path, and they choose the
-- runtime at most once.
pub validate_args_sound :
    (args : Args) → validate_args args ≡ none → IsChosenOnce args × (IsAction args ⊎ IsDaemon args)
validate_args_sound args h =
    let (action, c) = validate_args-Passed args h in
    (
      chosen_once args.placement args.container_runtime c.once,
      kind args args.action args.action_base64 refl refl c,
    )
