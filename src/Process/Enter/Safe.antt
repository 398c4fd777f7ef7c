-- ===== src/Process/Enter/Safe.antt =====
-- What `run_in_net_and_mnt_namespace` of vuinputd/src/process_tools/mod.rs guarantees.
use mathlib.Core.Path.{subst}
use vuinputd.Prelude.{
  ℕ, ◌%◌, ◌<◌, ◌≡◌, refl, Bool, true, false, Option, none, some, List, [], ◌∷◌, ◌++◌, arith, All,
}
use vuinputd.Prelude.Text.{Text, trim, parse_uint, u32_max}
use vuinputd.Config.{DeviceOwner}
use vuinputd.Inject.{Ended, fine, failed, panicked}
use vuinputd.Process.IdMap.{
  IdMapEntry, IsIdRange, Placed, nowhere, here, later, parse_id_map, to_host_id, to_host_id-Placed,
  get_id_in_container,
}
use vuinputd.Process.Enter
use vuinputd.Process.Enter.{
  Proc, Namespace, user, net, mnt, SysCall, setns, setresgid, setresuid, setfsgid, setfsuid,
  fs_uid_gid, run_in_net_and_mnt_namespace, ns_path,
}

-- A map that can be read, and whose ranges are of 32-bit numbers, places a number.
abbrev pub PlacedBy : Option Text → ℕ → ℕ → Type 0
PlacedBy content id host_id =
    (entries : List IdMapEntry) × (parse_id_map content ≡ some entries)
    × Placed id entries (some host_id)

-- The ranges of the map of a process, where it can be read.
abbrev pub IsIdMap : Option Text → Type 0
IsIdMap content =
    (entries : List IdMapEntry) → parse_id_map content ≡ some entries → All IsIdRange entries

Placed-lt :
    (id : ℕ) (entries : List IdMapEntry) (o : Option ℕ) (host_id : ℕ)
    → All IsIdRange entries
    → Placed id entries o
    → o ≡ some host_id
    → host_id < 4294967296
Placed-lt id _ _ host_id h nowhere e = cc
Placed-lt id _ _ host_id h (here x es c) e = ground arith
Placed-lt id _ _ host_id h (later x es _ p) e = Placed-lt id es _ host_id h.1 p e

get_id_in_container-Placed :
    (content : Option Text) (id host_id : ℕ)
    → IsIdMap content
    → get_id_in_container content id ≡ some host_id
    → PlacedBy content id host_id
unfolding get_id_in_container
get_id_in_container-Placed content id host_id h e = by_map (parse_id_map content) refl e
  where
    by_id :
        (entries : List IdMapEntry)
        → parse_id_map content ≡ some entries
        → (placed : Option ℕ) → to_host_id entries id ≡ placed
        → (elim placed [ none ↦ none | some i ↦ some (i % 4294967296) ]) ≡ some host_id
        → PlacedBy content id host_id
    by_id entries p none q e = cc
    by_id entries p (some i) q e =
        let placed : Placed id entries (some i) =
          subst (Placed id entries) q (to_host_id-Placed entries id (h entries p)) in
        let small = Placed-lt id entries (some i) i (h entries p) placed refl in
        let same : i ≡ host_id = ground arith in
        (entries, p, subst (λ j. Placed id entries (some j)) same placed)

    by_map :
        (m : Option (List IdMapEntry))
        → parse_id_map content ≡ m
        → (elim m [
          | none ↦ none
          | some entries ↦ elim (to_host_id entries id) [
            | none ↦ none
            | some i ↦ some (i % 4294967296)
          ]
        ])
          ≡ some host_id
        → PlacedBy content id host_id
    by_map none p e = cc
    by_map (some entries) p e = by_id entries p (to_host_id entries id) refl e

module _ (P : Proc) where
  -- Calls, one after the other.
  abbrev pub perform : List SysCall → P.Kernel → P.Kernel
  perform [] k = k
  perform (c ∷ cs) k = perform cs (P.call c k).0

  abbrev pub entering : Bool → List SysCall
  entering true = setns user ∷ setresgid 0 ∷ setresuid 0 ∷ []
  entering false = []

  abbrev pub acquiring : Option (ℕ × ℕ) → List SysCall
  acquiring none = []
  acquiring (some (uid, gid)) = setfsgid gid ∷ setfsuid uid ∷ []

  -- For the owner of the container's /dev, the host's numbers of the user and the group 0 of the
  -- process; for another owner, none.
  abbrev pub IsIds : Text → DeviceOwner → Option (ℕ × ℕ) → Type 0
  IsIds target_pid DeviceOwner.container_dev_folder none = ⊥
  IsIds target_pid DeviceOwner.container_dev_folder (some (uid, gid)) =
      (pid : ℕ) × (parse_uint u32_max (trim target_pid) ≡ some pid)
      × PlacedBy (P.uid_map pid) 0 uid
      × PlacedBy (P.gid_map pid) 0 gid
  IsIds target_pid _ ids = ids ≡ none

  -- What the run does to the kernel, by how it ends.
  abbrev pub Asks : Text → DeviceOwner → Bool → P.Kernel → P.Kernel × Ended → Type 0
  Asks target_pid device_owner enter_user_ns k (k', fine) =
      (ids : Option (ℕ × ℕ)) × IsIds target_pid device_owner ids
      × (k' ≡ perform (entering enter_user_ns ++ (setns net ∷ (setns mnt ∷ acquiring ids))) k)
  Asks target_pid device_owner enter_user_ns k (k', failed) = k' ≡ k
  Asks target_pid device_owner enter_user_ns k (k', panicked) = k' ≡ k

  fs_uid_gid-IsIds :
      (target_pid : Text) (device_owner : DeviceOwner) (ids : Option (ℕ × ℕ))
      → ((pid : ℕ) → IsIdMap (P.uid_map pid) × IsIdMap (P.gid_map pid))
      → fs_uid_gid P target_pid device_owner ≡ some ids
      → IsIds target_pid device_owner ids
  unfolding fs_uid_gid
  fs_uid_gid-IsIds target_pid DeviceOwner.auto ids maps e = cc
  fs_uid_gid-IsIds target_pid DeviceOwner.by_vuinputd ids maps e = cc
  fs_uid_gid-IsIds target_pid DeviceOwner.container_dev_folder ids maps e =
      by_pid (parse_uint u32_max (trim target_pid)) refl e
    where
      by_maps :
          (pid : ℕ) (uid gid : Option ℕ)
          → parse_uint u32_max (trim target_pid) ≡ some pid
          → get_id_in_container (P.uid_map pid) 0 ≡ uid
          → get_id_in_container (P.gid_map pid) 0 ≡ gid
          → Enter.pair P uid gid ≡ some ids
          → IsIds target_pid DeviceOwner.container_dev_folder ids
      by_maps pid none gid p u g h = cc
      by_maps pid (some uid) none p u g h = cc
      by_maps pid (some uid) (some gid) p u g h =
          let same : some (uid, gid) ≡ ids = cc in
          subst (IsIds target_pid DeviceOwner.container_dev_folder) same (
            pid,
            p,
            get_id_in_container-Placed (P.uid_map pid) 0 uid (maps pid).0 u,
            get_id_in_container-Placed (P.gid_map pid) 0 gid (maps pid).1 g,
          )

      by_pid :
          (pid : Option ℕ)
          → parse_uint u32_max (trim target_pid) ≡ pid
          → Enter.ids_of P pid ≡ some ids
          → IsIds target_pid DeviceOwner.container_dev_folder ids
      by_pid none p h = cc
      by_pid (some pid) p h = by_maps pid _ _ p refl refl h

  opened-Asks :
      (opened enter_user_ns : Bool) (ids : Option (ℕ × ℕ)) (target_pid : Text)
      (device_owner : DeviceOwner) (k : P.Kernel)
      → IsIds target_pid device_owner ids
      → Asks target_pid device_owner enter_user_ns k
          (Enter.enter_opened P opened enter_user_ns ids k)
  unfolding run_in_net_and_mnt_namespace
  opened-Asks false enter_user_ns ids target_pid device_owner k h = refl
  opened-Asks true true none target_pid device_owner k h = (none, h, refl)
  opened-Asks true true (some (u, g)) target_pid device_owner k h = (some (u, g), h, refl)
  opened-Asks true false none target_pid device_owner k h = (none, h, refl)
  opened-Asks true false (some (u, g)) target_pid device_owner k h = (some (u, g), h, refl)

  -- Where the maps of users and groups are of 32-bit ranges: a run that fails or panics has made no
  -- call that changes the process. One that succeeds has made these calls and no other, in this order:
  -- to enter the user namespace, if asked to, then the network and the mounts, and last, for the owner
  -- of the container's /dev, to take the group and then the user that the maps of the process give for
  -- 0, read before the calls. It does not look at what the calls return: that it succeeds does not say
  -- that the process is in the namespaces or has the ids.
  pub run_in_net_and_mnt_namespace-Asks :
      (target_pid : Text) (device_owner : DeviceOwner) (enter_user_ns : Bool) (k : P.Kernel)
      → ((pid : ℕ) → IsIdMap (P.uid_map pid) × IsIdMap (P.gid_map pid))
      → Asks target_pid device_owner enter_user_ns k
          (run_in_net_and_mnt_namespace P target_pid device_owner enter_user_ns k)
  unfolding run_in_net_and_mnt_namespace
  run_in_net_and_mnt_namespace-Asks target_pid device_owner enter_user_ns k maps =
      by_ids (fs_uid_gid P target_pid device_owner) refl
    where
      by_existing :
          (ids : Option (ℕ × ℕ)) (exists : Option Bool)
          → IsIds target_pid device_owner ids
          → Asks target_pid device_owner enter_user_ns k
              (Enter.enter_existing P exists (ns_path target_pid) enter_user_ns ids k)
      by_existing ids none h = refl
      by_existing ids (some false) h = refl
      by_existing ids (some true) h =
          opened-Asks (Enter.opens P (ns_path target_pid)) enter_user_ns ids target_pid device_owner
            k h

      by_ids :
          (ids : Option (Option (ℕ × ℕ)))
          → fs_uid_gid P target_pid device_owner ≡ ids
          → Asks target_pid device_owner enter_user_ns k
              (Enter.enter_with P ids (ns_path target_pid) enter_user_ns k)
      by_ids none e = refl
      by_ids (some ids) e =
          by_existing ids (P.exists (ns_path target_pid))
            (fs_uid_gid-IsIds target_pid device_owner ids maps e)
