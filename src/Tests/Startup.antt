-- ===== src/Tests/Startup.antt =====
-- The start of the daemon and of its child processes.
use mathlib.Core.Path.{subst}
use vuinputd.Prelude.{
  ℕ, ◌≡◌, ◌≢◌, ◌⊎◌, refl, ap, Bool, true, false, ◌||◌, Option, none, some, List, [], ◌∷◌, ◌++◌,
  drop, if◌then◌else◌, arith, All,
}
use vuinputd.Prelude.Text.{
  Text, codes, text_beq, text_beq_iff, lines, split_whitespace, parse_uint, trim,
}
use vuinputd.Fuse.{returned}
use vuinputd.Config.{DeviceOwner, auto, by_vuinputd, container_dev_folder}
use vuinputd.Process.IdMap.{IdMapEntry, IsIdRange, parse_id_map, get_id_in_container}
use vuinputd.Process.Enter.{
  Proc, SysCall, setns, setresgid, setresuid, setfsgid, setfsuid, user, net, mnt,
  run_in_net_and_mnt_namespace,
}
use vuinputd.Process.Enter.Safe.{IsIdMap, Asks, run_in_net_and_mnt_namespace-Asks}
use vuinputd.Args.{Args}
use vuinputd.Args.Main.{Decoders}
use vuinputd.Args.Child.Accepted.{Runs, main-start_action}
use vuinputd.Args.Child.{defaults, IsParser, start_action, print_debug_string, value_name}
use vuinputd.Inject.{System, fine}
use vuinputd.Inject.Strategy
use vuinputd.Inject.Strategy.{injection_strategy, placement_on_host, path_prefix}
use vuinputd.Inject.HostFs.{initialize, ensure_host_fs_structure}
use vuinputd.Inject.HostFs.Prepared.{MakesFiles, IsPrepared, initialize-IsPrepared}
use vuinputd.Tests.Hosts.{one_file}

-- A process of a rootless container, and a kernel that logs its calls.
abbrev rootless : Proc
rootless = record {
  uid_map = λ pid. some (codes "0 100000 65536\n");
  gid_map = λ pid. some (codes "0 200000 65536\n");
  exists = λ path. some true;
  can_open = λ path. true;
  Kernel = List SysCall;
  call = λ c k. (k ++ (c ∷ []), true);
}

some-inj : {x y : List IdMapEntry} → some x ≡ some y → x ≡ y
some-inj h = cc

rootless-IsIdMap : (pid : ℕ) → IsIdMap (rootless.uid_map pid) × IsIdMap (rootless.gid_map pid)
unfolding parse_id_map lines split_whitespace parse_uint
rootless-IsIdMap pid = (
  λ entries h. subst (All IsIdRange) (some-inj h) (omega arith),
  λ entries h. subst (All IsIdRange) (some-inj h) (omega arith),
)

entered : run_in_net_and_mnt_namespace rootless (codes "400") container_dev_folder true [] ≡ (
  setns user
      ∷ setresgid 0
      ∷ setresuid 0
      ∷ setns net
      ∷ setns mnt
      ∷ setfsgid 200000
      ∷ setfsuid 100000
      ∷ [],
  fine,
)
unfolding run_in_net_and_mnt_namespace get_id_in_container lines split_whitespace parse_uint trim
entered = refl

run_in_net_and_mnt_namespace-Asks_example :
    Asks rootless
      (codes "400")
      container_dev_folder
      true
      []
      (run_in_net_and_mnt_namespace rootless (codes "400") container_dev_folder true [])
run_in_net_and_mnt_namespace-Asks_example =
    run_in_net_and_mnt_namespace-Asks rootless (codes "400") container_dev_folder true []
      rootless-IsIdMap

-- A parser of the options that the daemon gives its child processes.
abbrev owner_of : Text → Option DeviceOwner
owner_of v =
    if text_beq v (codes "auto")
    then some auto
    else if text_beq v (codes "vuinputd")
    then some by_vuinputd
    else if text_beq v (codes "container-dev-folder")
    then some container_dev_folder
    else none

abbrev with_owner : Option DeviceOwner → Args → Option Args
with_owner none args = none
with_owner (some owner) args = some (record args { device_owner = owner })

abbrev set_value : Text → Text → Option Args → Option Args
set_value name v none = none
set_value name v (some args) =
    if text_beq name (codes "--action")
    then some (record args { action = some v })
    else if text_beq name (codes "--action-base64")
    then some (record args { action_base64 = some v })
    else if text_beq name (codes "--target-pid")
    then some (record args { target_pid = some v })
    else if text_beq name (codes "--device-owner")
    then with_owner (owner_of v) args
    else none

abbrev set_flag : Option Args → Option Args
set_flag none = none
set_flag (some args) = some (record args { enter_user_namespace = true })

abbrev is_flag : Text → Bool
is_flag word = text_beq word (codes "--enter-user-namespace")

abbrev parse : List Text → Option Args
parse [] = some defaults
parse (word ∷ []) = if is_flag word then set_flag (some defaults) else none
parse (word ∷ v ∷ rest) =
    let after_flag = parse (v ∷ rest) in
    let after_value = parse rest in
    if is_flag word then set_flag after_flag else set_value word v after_value

flag_parsed :
    (rest : List Text) {args : Args}
    → parse rest ≡ some args
    → parse (codes "--enter-user-namespace" ∷ rest)
      ≡ some (record args { enter_user_namespace = true })
unfolding text_beq
flag_parsed [] h = ap set_flag h
flag_parsed (v ∷ rest) h = ap set_flag h

owner_parsed :
    (owner : DeviceOwner) (rest : List Text) {args : Args}
    → parse rest ≡ some args
    → parse (codes "--device-owner" ∷ value_name owner ∷ rest)
      ≡ some (record args { device_owner = owner })
unfolding text_beq
owner_parsed auto rest h = ap (set_value (codes "--device-owner") (codes "auto")) h
owner_parsed by_vuinputd rest h = ap (set_value (codes "--device-owner") (codes "vuinputd")) h
owner_parsed container_dev_folder rest h =
    ap (set_value (codes "--device-owner") (codes "container-dev-folder")) h

parse-IsParser : IsParser parse
unfolding text_beq
parse-IsParser = record {
  nothing_given = refl;
  user_namespace = λ rest h g. flag_parsed rest h;
  action_given = λ v rest h g p. ap (set_value (codes "--action") v) h;
  base64_given = λ v rest h g p. ap (set_value (codes "--action-base64") v) h;
  target_given = λ v rest h g p. ap (set_value (codes "--target-pid") v) h;
  owner_given = λ owner rest h g. owner_parsed owner rest h;
}

-- A code that puts a letter in front.
abbrev decoders : Decoders
decoders = record { decode = λ t. some (drop 1 t); is_utf8 = λ bytes. true }

abbrev encode : Text → Text
encode t = 65 ∷ t

main-start_action_example :
    Runs parse parse-IsParser decoders
      (codes "{}")
      400
      auto
      (start_action (codes "{}") 400 auto true)
      true
    × Runs parse parse-IsParser decoders
        (codes "{}")
        400
        auto
        (print_debug_string encode (codes "{}") 400 auto)
        false
main-start_action_example =
    main-start_action parse parse-IsParser decoders (codes "{}") 400 auto encode true refl refl refl
      refl

-- A file system that knows which paths exist.
abbrev has_path : Text → List Text → Bool
has_path path [] = false
has_path path (q ∷ w) = text_beq q path || has_path path w

abbrev paths : System
paths = record one_file {
  World = List Text;
  exists = has_path;
  stat = λ path w. none;
  create_dir_all = λ path w. (path ∷ w, true);
  create = λ path w. (path ∷ w, true);
  write_all = λ path text w. (w, true);
  remove_file = λ path w. (w, false);
  mknod = λ path mode dev w. (w, false);
  set_permissions = λ path mode w. (w, false);
  send_netlink = λ groups message w. (w, true);
  start_action = λ action pid user w. (w, none);
  await_process = λ pid w. (w, true);
  incus = λ args w. (w, true);
}

paths-MakesFiles : MakesFiles paths
paths-MakesFiles = record {
  dir_made = λ path w h. ground (arith, (text_beq_iff path path).1 refl);
  dir_keeps = λ path other w h. ground arith;
  file_made = λ path w h. ground (arith, (text_beq_iff path path).1 refl);
  file_keeps = λ path other w h. ground arith;
}

initialize-IsPrepared_example :
    (((injection_strategy Strategy.bubblewrap ≡ returned placement_on_host)
        × IsPrepared paths
            (path_prefix (codes "vuinput"))
            (initialize paths Strategy.bubblewrap (codes "vuinput") []))
      ⊎ ((injection_strategy Strategy.bubblewrap ≢ returned placement_on_host)
          × (initialize paths Strategy.bubblewrap (codes "vuinput") [] ≡ [])))
    × (initialize paths Strategy.bubblewrap
          (codes "vuinput")
          (initialize paths Strategy.bubblewrap (codes "vuinput") [])
        ≡ initialize paths Strategy.bubblewrap (codes "vuinput") [])
unfolding ensure_host_fs_structure text_beq
initialize-IsPrepared_example =
    initialize-IsPrepared paths paths-MakesFiles Strategy.bubblewrap (codes "vuinput") [] refl
