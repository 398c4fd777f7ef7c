-- ===== src/Args/Child/Accepted.antt =====
-- What `main` (vuinputd/src/main.rs) makes of the command lines of a child process
-- (vuinputd/src/process_tools/mod.rs).
use vuinputd.Prelude.{ℕ, ◌≡◌, refl, ap, ◌∙◌, Bool, true, false, Option, some, List, [], ◌∷◌, arith}
use vuinputd.Prelude.Text.{Text, codes, text_beq, to_text, starts_dash, to_text-starts_dash}
use vuinputd.Config.{DeviceOwner, auto, by_vuinputd, container_dev_folder, to_string_rep}
use vuinputd.Args.{Args, validate_args}
use vuinputd.Args.Main.{Decoders, Target, action, main}
use vuinputd.Args.Child.{
  user_flag, start_action, print_debug_string, value_name, defaults, is_given, IsParser,
}

to_string_rep-value_name : (owner : DeviceOwner) → to_string_rep owner ≡ value_name owner
unfolding to_string_rep
to_string_rep-value_name auto = refl
to_string_rep-value_name by_vuinputd = refl
to_string_rep-value_name container_dev_folder = refl

-- A value is no option.
beq_value :
    (value name : Text)
    → starts_dash value ≡ false
    → starts_dash name ≡ true
    → text_beq value name ≡ false
unfolding text_beq
beq_value [] [] v n = cc
beq_value [] (d ∷ ds) v n = refl
beq_value (c ∷ cs) [] v n = cc
beq_value (c ∷ cs) (d ∷ ds) v n = ground arith

module _ (parse : List Text → Option Args) (P : IsParser parse) where
  abbrev with_flag : Bool → Args
  with_flag enter_user_ns = record defaults { enter_user_namespace = enter_user_ns }

  abbrev with_owner : DeviceOwner → Bool → Args
  with_owner owner enter_user_ns = record defaults {
    enter_user_namespace = enter_user_ns;
    device_owner = owner;
  }

  flag_words :
      (enter_user_ns : Bool) → parse (user_flag enter_user_ns) ≡ some (with_flag enter_user_ns)
  flag_words true = P.user_namespace [] P.nothing_given refl
  flag_words false = P.nothing_given

  owner_words :
      (owner : DeviceOwner) (enter_user_ns : Bool)
      → parse (codes "--device-owner" ∷ to_string_rep owner ∷ user_flag enter_user_ns)
        ≡ some (with_owner owner enter_user_ns)
  unfolding text_beq
  owner_words owner true =
      ap (λ v. parse (codes "--device-owner" ∷ v ∷ user_flag true)) (to_string_rep-value_name owner)
      ∙ P.owner_given owner (user_flag true) (flag_words true) refl
  owner_words owner false =
      ap (λ v. parse (codes "--device-owner" ∷ v ∷ user_flag false))
        (to_string_rep-value_name owner)
      ∙ P.owner_given owner (user_flag false) (flag_words false) refl

  abbrev owner_list : DeviceOwner → Bool → List Text
  owner_list owner enter_user_ns =
      codes "--device-owner" ∷ to_string_rep owner ∷ user_flag enter_user_ns

  -- The options that the words about the owner do not give.
  owner_list-absent :
      (owner : DeviceOwner) (enter_user_ns : Bool)
      → (is_given (codes "--target-pid") (owner_list owner enter_user_ns) ≡ false)
        × (is_given (codes "--action") (owner_list owner enter_user_ns) ≡ false)
        × (is_given (codes "--action-base64") (owner_list owner enter_user_ns) ≡ false)
  unfolding to_string_rep text_beq
  owner_list-absent auto true = (refl, refl, refl)
  owner_list-absent auto false = (refl, refl, refl)
  owner_list-absent by_vuinputd true = (refl, refl, refl)
  owner_list-absent by_vuinputd false = (refl, refl, refl)
  owner_list-absent container_dev_folder true = (refl, refl, refl)
  owner_list-absent container_dev_folder false = (refl, refl, refl)

  -- A value in front of words, under an option of another name.
  value-absent :
      (name value : Text) (rest : List Text)
      → starts_dash name ≡ true
      → starts_dash value ≡ false
      → is_given name rest ≡ false
      → is_given name (value ∷ rest) ≡ false
  value-absent name value rest n v h = rw (beq_value value name v n) h

  module _ (D : Decoders) (json : Text) (pid : ℕ) (owner : DeviceOwner) where
    abbrev target : Bool → Target
    target enter_user_ns = record {
      target_pid = to_text pid;
      device_owner = owner;
      enter_user_namespace = enter_user_ns;
    }

    -- That the words are accepted, and make `main` run the action in the namespaces of the process.
    abbrev pub Runs : List Text → Bool → Type 0
    Runs words enter_user_ns =
        (args : Args) × (parse words ≡ some args)
        × (main D args ≡ action (some (target enter_user_ns)) json)

    start_action-Runs :
        (enter_user_ns : Bool)
        → starts_dash json ≡ false
        → Runs (start_action json pid owner enter_user_ns) enter_user_ns
    unfolding start_action main validate_args text_beq
    start_action-Runs enter_user_ns plain =
        let absent = owner_list-absent owner enter_user_ns in
        let dashless = to_text-starts_dash pid in
        let parsed =
          P.target_given (to_text pid) (owner_list owner enter_user_ns)
            (owner_words owner enter_user_ns) absent.0 dashless in
        (
          _,
          P.action_given json (codes "--target-pid" ∷ to_text pid ∷ owner_list owner enter_user_ns)
              parsed
              (value-absent (codes "--action") (to_text pid) (owner_list owner enter_user_ns) refl
                dashless absent.1)
              plain,
          refl,
        )

    print_debug_string-Runs :
        (encode : Text → Text)
        → D.decode (encode json) ≡ some json
        → D.is_utf8 json ≡ true
        → starts_dash (encode json) ≡ false
        → Runs (print_debug_string encode json pid owner) false
    unfolding print_debug_string main validate_args text_beq
    print_debug_string-Runs encode decoded utf8 plain =
        let absent = owner_list-absent owner false in
        let dashless = to_text-starts_dash pid in
        let parsed =
          P.base64_given (encode json) (owner_list owner false) (owner_words owner false) absent.2
            plain in
        (
          _,
          P.target_given (to_text pid)
              (codes "--action-base64" ∷ encode json ∷ owner_list owner false) parsed
              (value-absent (codes "--target-pid") (encode json) (owner_list owner false) refl plain
                absent.0)
              dashless,
          rw (decoded, utf8) refl,
        )

    -- For an action whose text, and whose code in base64, are no options and can be decoded: both the
    -- command line of the child process and the one in the log are accepted, and make `main` run the
    -- very action in the namespaces of the process, for the owner that is configured. The child enters
    -- the user namespace exactly if it is asked to; the line in the log never does.
    pub main-start_action :
        (encode : Text → Text) (enter_user_ns : Bool)
        → D.decode (encode json) ≡ some json
        → D.is_utf8 json ≡ true
        → starts_dash json ≡ false
        → starts_dash (encode json) ≡ false
        → Runs (start_action json pid owner enter_user_ns) enter_user_ns
          × Runs (print_debug_string encode json pid owner) false
    main-start_action encode enter_user_ns decoded utf8 plain encoded =
        (start_action-Runs enter_user_ns plain, print_debug_string-Runs encode decoded utf8 encoded)
