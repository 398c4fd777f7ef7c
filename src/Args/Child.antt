-- ===== src/Args/Child.antt =====
-- The child process that runs an action in a container: the command line that `start_action` gives it,
-- and the one that `print_debug_string` writes to the log (vuinputd/src/process_tools/mod.rs), against
-- what `main` makes of them (vuinputd/src/main.rs).
pub mod Accepted
use vuinputd.Prelude.{
  ℕ, ◌≡◌, refl, ap, ◌∙◌, Bool, true, false, ◌||◌, Option, none, some, List, [], ◌∷◌, arith,
}
use vuinputd.Prelude.Text.{Text, codes, text_beq, to_text, starts_dash, to_text-starts_dash}
use vuinputd.Policy
use vuinputd.Inject.Strategy
use vuinputd.Config.{DeviceOwner, auto, by_vuinputd, container_dev_folder, to_string_rep}
use vuinputd.Args.{Args, validate_args}
use vuinputd.Args.Main.{Decoders, Target, action, main}

abbrev pub user_flag : Bool → List Text
user_flag true = codes "--enter-user-namespace" ∷ []
user_flag false = []

-- `cmd.args([…])` and `cmd.arg(…)`
unfoldable pub start_action : Text → ℕ → DeviceOwner → Bool → List Text
start_action action_json pid device_owner enter_user_ns =
    codes "--action"
    ∷ action_json
    ∷ codes "--target-pid"
    ∷ to_text pid
    ∷ codes "--device-owner"
    ∷ to_string_rep device_owner
    ∷ user_flag enter_user_ns

-- The words behind `strace vuinputd`.
unfoldable pub print_debug_string : (Text → Text) → Text → ℕ → DeviceOwner → List Text
print_debug_string encode action_json pid device_owner =
    codes "--target-pid"
    ∷ to_text pid
    ∷ codes "--action-base64"
    ∷ encode action_json
    ∷ codes "--device-owner"
    ∷ to_string_rep device_owner
    ∷ []

-- The names that the parser has for the owners, made from the names of the variants.
abbrev pub value_name : DeviceOwner → Text
value_name auto = codes "auto"
value_name by_vuinputd = codes "vuinputd"
value_name container_dev_folder = codes "container-dev-folder"

abbrev pub defaults : Args
defaults = record {
  major = none;
  minor = none;
  devname = none;
  action = none;
  action_base64 = none;
  target_pid = none;
  enter_user_namespace = false;
  vt_guard = false;
  device_policy = Policy.mute_sys_rq;
  placement = none;
  device_owner = auto;
  container_runtime = Strategy.auto;
  target_container = none;
}

abbrev pub is_given : Text → List Text → Bool
is_given name [] = false
is_given name (word ∷ words) = text_beq word name || is_given name words

-- The parser of the command line, which a library makes from the declaration of the arguments: without
-- words it gives the defaults, and an option in front that is not repeated sets its field.
pub record IsParser (parse : List Text → Option Args) : Type 0 where
  pub nothing_given : parse [] ≡ some defaults
  pub user_namespace :
      (rest : List Text) {args : Args}
      → parse rest ≡ some args
      → is_given (codes "--enter-user-namespace") rest ≡ false
      → parse (codes "--enter-user-namespace" ∷ rest)
        ≡ some (record args { enter_user_namespace = true })
  pub action_given :
      (value : Text) (rest : List Text) {args : Args}
      → parse rest ≡ some args
      → is_given (codes "--action") rest ≡ false
      → starts_dash value ≡ false
      → parse (codes "--action" ∷ value ∷ rest) ≡ some (record args { action = some value })
  pub base64_given :
      (value : Text) (rest : List Text) {args : Args}
      → parse rest ≡ some args
      → is_given (codes "--action-base64") rest ≡ false
      → starts_dash value ≡ false
      → parse (codes "--action-base64" ∷ value ∷ rest)
        ≡ some (record args { action_base64 = some value })
  pub target_given :
      (value : Text) (rest : List Text) {args : Args}
      → parse rest ≡ some args
      → is_given (codes "--target-pid") rest ≡ false
      → starts_dash value ≡ false
      → parse (codes "--target-pid" ∷ value ∷ rest) ≡ some (record args { target_pid = some value })
  pub owner_given :
      (owner : DeviceOwner) (rest : List Text) {args : Args}
      → parse rest ≡ some args
      → is_given (codes "--device-owner") rest ≡ false
      → parse (codes "--device-owner" ∷ value_name owner ∷ rest)
        ≡ some (record args { device_owner = owner })
