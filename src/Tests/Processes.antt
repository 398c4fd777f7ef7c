-- ===== src/Tests/Processes.antt =====
-- Clients in a container and on the host, and the map of a rootless container.
use vuinputd.Prelude.{
  ℕ, ◌<◌, ◌≡◌, refl, Bool, true, false, Option, none, some, List, [], ◌∷◌, ◌==◌, if◌then◌else◌,
  arith, ==_iff,
}
use vuinputd.Prelude.Text.{Text, codes, lines, split_whitespace, starts_with, parse_uint}
use vuinputd.Fuse.{Outcome, returned}
use vuinputd.Process.Ancestry.{
  Proc, get_ppid, get_requesting_process, process_of, Root, IsTree, get_requesting_process-Root,
}
use vuinputd.Process.IdMap.{IdMapEntry, to_host_id, Placed, to_host_id-Placed}
use vuinputd.Tests.Fixtures.{host_namespaces, container_namespaces}

-- Process 500 in a container, whose root 400 is a child of the host's process 1.
abbrev status : ℕ → Option Text
status pid =
    if pid == 500
    then some (codes "Name:\tgame\nPPid:\t400\n")
    else if pid == 400
    then some (codes "Name:\tsh\nPPid:\t1\n")
    else none

abbrev proc : Proc
proc = record {
  status = status;
  namespace = λ pid. if pid == 1 then returned host_namespaces else returned container_namespaces;
  exe = λ pid. none;
}

abbrev status_game : Text
status_game = codes "Name:\tgame\nPPid:\t400\n"

abbrev status_sh : Text
status_sh = codes "Name:\tsh\nPPid:\t1\n"

some-inj : {a b : ℕ} → some a ≡ some b → a ≡ b
some-inj h = cc

proc-IsTree : IsTree proc (λ pid. pid)
unfolding get_ppid starts_with lines split_whitespace parse_uint
proc-IsTree p q h = by_test (p == 500) (p == 400) refl refl h
  where
    by_test :
        (a b : Bool)
        → (p == 500) ≡ a
        → (p == 400) ≡ b
        → get_ppid (if a then some status_game else if b then some status_sh else none) ≡ some q
        → q < p
    by_test true b e f h =
        let e' = (==_iff p 500).0 e in let h' : 400 ≡ q = some-inj h in omega arith
    by_test false true e f h =
        let f' = (==_iff p 400).0 f in let h' : 1 ≡ q = some-inj h in omega arith
    by_test false false e f h = cc

get_requesting_process_example :
    (o : Outcome ℕ) × Root proc container_namespaces 500 o
    × (get_requesting_process proc 501 500 ≡ process_of proc 500 container_namespaces (some o))
get_requesting_process_example =
    get_requesting_process-Root proc (λ pid. pid) proc-IsTree 501 500 refl (omega arith)

abbrev rootless : List IdMapEntry
rootless = record { inside_start = 0; outside_start = 100000; length = 65536 } ∷ []

to_host_id_example : Placed 7 rootless (to_host_id rootless 7)
to_host_id_example = to_host_id-Placed rootless 7 ((omega arith, omega arith), tt)
