-- ===== src/Process/Equal.antt =====
-- The derived `==` of `Namespaces` and `RequestingProcess` (vuinputd/src/process_tools/mod.rs).
use vuinputd.Prelude.{
  ℕ, ◌≡◌, ◌↔◌, refl, ap, Bool, true, false, ◌&&◌, Option, none, some, ◌==◌, ==_iff, arith,
}
use vuinputd.Prelude.Dict.{Eq}
use vuinputd.Process.{Namespaces, RequestingProcess, inode_eq}

abbrev pub namespaces_beq : Namespaces → Namespaces → Bool
namespaces_beq a b =
    inode_eq a.net b.net
    && (inode_eq a.uts b.uts
        && (inode_eq a.ipc b.ipc
            && (inode_eq a.pid b.pid
                && (inode_eq a.pid_for_children b.pid_for_children
                    && (inode_eq a.user b.user
                        && (inode_eq a.mnt b.mnt
                            && (inode_eq a.cgroup b.cgroup
                                && (inode_eq a.time b.time
                                    && inode_eq a.time_for_children b.time_for_children))))))))

abbrev pub bool_beq : Bool → Bool → Bool
bool_beq true b = b
bool_beq false true = false
bool_beq false false = true

abbrev pub process_beq : RequestingProcess → RequestingProcess → Bool
process_beq a b =
    a.pid_requestor == b.pid_requestor
    && (a.pid_requestor_root == b.pid_requestor_root
        && (namespaces_beq a.namespaces b.namespaces && bool_beq a.is_compat b.is_compat))

inode_eq_iff : (a b : Option ℕ) → (inode_eq a b ≡ true) ↔ (a ≡ b)
inode_eq_iff none none = (λ h. refl, λ h. refl)
inode_eq_iff none (some b) = (λ h. cc, λ h. cc)
inode_eq_iff (some a) none = (λ h. cc, λ h. cc)
inode_eq_iff (some a) (some b) = (λ h. ap some ((==_iff a b).0 h), λ h. ground (arith, h))

bool_beq_iff : (a b : Bool) → (bool_beq a b ≡ true) ↔ (a ≡ b)
bool_beq_iff true true = (λ h. refl, λ h. refl)
bool_beq_iff true false = (λ h. cc, λ h. cc)
bool_beq_iff false true = (λ h. cc, λ h. cc)
bool_beq_iff false false = (λ h. refl, λ h. refl)

first : (a b : Bool) → (a && b) ≡ true → a ≡ true
first a b h = ground arith

rest : (a b : Bool) → (a && b) ≡ true → b ≡ true
rest a b h = ground arith

inode_eq_refl : (a : Option ℕ) → inode_eq a a ≡ true
inode_eq_refl a = (inode_eq_iff a a).1 refl

namespaces_beq_refl : (a : Namespaces) → namespaces_beq a a ≡ true
namespaces_beq_refl a =
    rw
      (
        inode_eq_refl a.net,
        inode_eq_refl a.uts,
        inode_eq_refl a.ipc,
        inode_eq_refl a.pid,
        inode_eq_refl a.pid_for_children,
        inode_eq_refl a.user,
        inode_eq_refl a.mnt,
        inode_eq_refl a.cgroup,
        inode_eq_refl a.time,
        inode_eq_refl a.time_for_children,
      )
      refl

namespaces_beq-same : (a b : Namespaces) → namespaces_beq a b ≡ true → a ≡ b
namespaces_beq-same a b h =
    let net = first (inode_eq a.net b.net) _ h in
    let h1 = rest (inode_eq a.net b.net) _ h in
    let uts = first (inode_eq a.uts b.uts) _ h1 in
    let h2 = rest (inode_eq a.uts b.uts) _ h1 in
    let ipc = first (inode_eq a.ipc b.ipc) _ h2 in
    let h3 = rest (inode_eq a.ipc b.ipc) _ h2 in
    let pid = first (inode_eq a.pid b.pid) _ h3 in
    let h4 = rest (inode_eq a.pid b.pid) _ h3 in
    let children = first (inode_eq a.pid_for_children b.pid_for_children) _ h4 in
    let h5 = rest (inode_eq a.pid_for_children b.pid_for_children) _ h4 in
    let user = first (inode_eq a.user b.user) _ h5 in
    let h6 = rest (inode_eq a.user b.user) _ h5 in
    let mnt = first (inode_eq a.mnt b.mnt) _ h6 in
    let h7 = rest (inode_eq a.mnt b.mnt) _ h6 in
    let cgroup = first (inode_eq a.cgroup b.cgroup) _ h7 in
    let h8 = rest (inode_eq a.cgroup b.cgroup) _ h7 in
    let time = first (inode_eq a.time b.time) _ h8 in
    let time_children = rest (inode_eq a.time b.time) _ h8 in
    λ i. record {
      net = (inode_eq_iff a.net b.net).0 net i;
      uts = (inode_eq_iff a.uts b.uts).0 uts i;
      ipc = (inode_eq_iff a.ipc b.ipc).0 ipc i;
      pid = (inode_eq_iff a.pid b.pid).0 pid i;
      pid_for_children = (inode_eq_iff a.pid_for_children b.pid_for_children).0 children i;
      user = (inode_eq_iff a.user b.user).0 user i;
      mnt = (inode_eq_iff a.mnt b.mnt).0 mnt i;
      cgroup = (inode_eq_iff a.cgroup b.cgroup).0 cgroup i;
      time = (inode_eq_iff a.time b.time).0 time i;
      time_for_children = (inode_eq_iff a.time_for_children b.time_for_children).0 time_children i;
    }

pub process_beq-same : (a b : RequestingProcess) → process_beq a b ≡ true → a ≡ b
process_beq-same a b h =
    let requestor = first (a.pid_requestor == b.pid_requestor) _ h in
    let h1 = rest (a.pid_requestor == b.pid_requestor) _ h in
    let root = first (a.pid_requestor_root == b.pid_requestor_root) _ h1 in
    let h2 = rest (a.pid_requestor_root == b.pid_requestor_root) _ h1 in
    let namespaces = first (namespaces_beq a.namespaces b.namespaces) _ h2 in
    let is_compat = rest (namespaces_beq a.namespaces b.namespaces) _ h2 in
    λ i. record {
      pid_requestor = (==_iff a.pid_requestor b.pid_requestor).0 requestor i;
      pid_requestor_root = (==_iff a.pid_requestor_root b.pid_requestor_root).0 root i;
      namespaces = namespaces_beq-same a.namespaces b.namespaces namespaces i;
      is_compat = (bool_beq_iff a.is_compat b.is_compat).0 is_compat i;
    }

pub process_beq_refl : (a : RequestingProcess) → process_beq a a ≡ true
process_beq_refl a =
    rw
      (
        (==_iff a.pid_requestor a.pid_requestor).1 refl,
        (==_iff a.pid_requestor_root a.pid_requestor_root).1 refl,
        namespaces_beq_refl a.namespaces,
        (bool_beq_iff a.is_compat a.is_compat).1 refl,
      )
      refl

instance abbrev pub process_eq : Eq RequestingProcess
process_eq = record {
  beq = process_beq;
  beq_iff = λ a b. (process_beq-same a b, λ h. rw (← h) (process_beq_refl a));
}
