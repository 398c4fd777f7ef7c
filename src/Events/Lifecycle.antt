-- ===== src/Events/Lifecycle.antt =====
-- The life of an entry: announced, removed, taken (vuinputd/src/jobs/monitor_udev_job.rs).
use vuinputd.Prelude.{
  ℕ, ◌≡◌, refl, ◌∙◌, ap, true, false, Option, none, some, List, [], ◌∷◌, All, arith,
}
use vuinputd.Prelude.Dict
use vuinputd.Prelude.Dict.{kept}
use vuinputd.Prelude.Text.{Text, text_eq, text_beq, codes}
use vuinputd.Fuse.{returned, >>=-eq-returned}
use vuinputd.Events.{
  EventKind, Properties, UdevEvent, Entry, new_event_store, updated_entry, taken_entry, keeps, take,
  cleanup,
}
use vuinputd.Events.Laws.{
  StoreOp, event, taking, cleaning, run, perform_at, run_at, get-run_at, run-NodupKeys, take-some,
  get-take, get-cleanup-take,
}
use vuinputd.Events.Monitor.{kind_of, event_of, event_of_match, event_of_group, expect}

-- No removal has been recorded.
abbrev pub Unremoved : Option Entry → Type 0
Unremoved none = Unit {0}
Unremoved (some e) = (e.remove_data ≡ none) × (e.tombstone ≡ false)

abbrev IsAdd : StoreOp → Type 0
IsAdd (event now e) = e.kind ≡ EventKind.add
IsAdd (taking p) = Unit {0}
IsAdd (cleaning now) = Unit {0}

perform_at-Unremoved :
    (p : Text) (ttl : ℕ) (o : Option Entry) (op : StoreOp)
    → IsAdd op
    → Unremoved o
    → Unremoved (perform_at p ttl o op)
unfolding updated_entry taken_entry keeps
perform_at-Unremoved p ttl o (event now e) a u = ground arith
perform_at-Unremoved p ttl o (taking q) a u = ground arith
perform_at-Unremoved p ttl o (cleaning now) a u = ground arith

run_at-Unremoved :
    (p : Text) (ttl : ℕ) (o : Option Entry) (ops : List StoreOp)
    → All IsAdd ops
    → Unremoved o
    → Unremoved (run_at p ttl o ops)
run_at-Unremoved p ttl o [] a u = u
run_at-Unremoved p ttl o (op ∷ ops) a u =
    run_at-Unremoved p ttl (perform_at p ttl o op) ops a.1 (perform_at-Unremoved p ttl o op a.0 u)

module _ (captures : Text → Option Text) where
  -- An operation that the monitor makes of a udev event whose action is not `REMOVE`, or that takes
  -- or cleans up.
  abbrev pub FromUdev : StoreOp → Type 0
  FromUdev (event now e) =
      (properties : Properties) × (action : Text) × (event_of captures properties
        ≡ returned (some e))
      × (Dict.get (codes "ACTION") properties ≡ some action)
      × (text_beq action (codes "REMOVE") ≡ false)
  FromUdev (taking p) = Unit {0}
  FromUdev (cleaning now) = Unit {0}

  kind_of-add :
      (action : Text) → text_beq action (codes "REMOVE") ≡ false → kind_of action ≡ EventKind.add
  unfolding kind_of
  kind_of-add action r = ground arith

  event_of_match-kind :
      (properties : Properties) (group action : Text) {e : UdevEvent}
      → event_of_match captures properties group ≡ returned e
      → Dict.get (codes "ACTION") properties ≡ some action
      → e.kind ≡ kind_of action
  unfolding event_of_match
  event_of_match-kind properties group action h a = ground arith

  event_of_group-kind :
      (properties : Properties) (group : Option Text) (action : Text) {e : UdevEvent}
      → event_of_group captures properties group ≡ returned (some e)
      → Dict.get (codes "ACTION") properties ≡ some action
      → text_beq action (codes "REMOVE") ≡ false
      → e.kind ≡ EventKind.add
  unfolding event_of
  event_of_group-kind properties none action h a r = cc
  event_of_group-kind properties (some group) action h a r =
      let (e', x, y) = >>=-eq-returned (event_of_match captures properties group) _ h in
      ground (arith, event_of_match-kind properties group action x a, kind_of-add action r)

  FromUdev-IsAdd : (op : StoreOp) → FromUdev op → IsAdd op
  unfolding event_of
  FromUdev-IsAdd (event now e) (properties, action, made, a, r) =
      let (devpath, _, h) =
        >>=-eq-returned (expect (Dict.get (codes "DEVPATH") properties)) _ made in
      event_of_group-kind properties (captures devpath) action h a r
  FromUdev-IsAdd (taking p) f = tt
  FromUdev-IsAdd (cleaning now) f = tt

  All-FromUdev : (ops : List StoreOp) → All FromUdev ops → All IsAdd ops
  All-FromUdev [] f = tt
  All-FromUdev (op ∷ ops) f = (FromUdev-IsAdd op f.0, All-FromUdev ops f.1)

  -- Only the action REMOVE in capitals is recorded as a removal. As long as no udev event carries it,
  -- and the events that udev sends carry remove, in small letters, an entry never holds remove data
  -- and never becomes a tombstone, whatever events, takes and cleanups the store has seen.
  pub lowercase_never_removes :
      (p : Text) (ttl : ℕ) (ops : List StoreOp) {e : Entry}
      → All FromUdev ops
      → Dict.get p (run (new_event_store ttl) ops).entries ≡ some e
      → (e.remove_data ≡ none) × (e.tombstone ≡ false)
  lowercase_never_removes p ttl ops f h =
      ground (arith, get-run_at p ttl ops, run_at-Unremoved p ttl none ops (All-FromUdev ops f) tt)

taken_entry-removed :
    (e : Entry) {d : Properties}
    → e.tombstone ≡ false
    → e.remove_data ≡ some d
    → taken_entry e ≡ record e { add_processed = true; tombstone = true }
unfolding taken_entry
taken_entry-removed e t r = ground arith

keeps-tombstone :
    (now ttl : ℕ) (e : Entry)
    → kept (keeps now ttl) (some (record e { add_processed = true; tombstone = true })) ≡ none
unfolding keeps
keeps-tombstone now ttl e = refl

-- A recorded removal is handed out once: the first take of the path returns the entry with its remove
-- data and not yet as a tombstone; a take behind it, with no event of the path between, returns the
-- entry as a tombstone; and a cleanup behind the first take drops the entry, however new it is.
pub removal_taken_once :
    (p : Text) (ttl now : ℕ) (ops : List StoreOp) {e : Entry} {data_of : Properties}
    → let s = run (new_event_store ttl) ops in
      Dict.get p s.entries ≡ some e
      → e.tombstone ≡ false
      → e.remove_data ≡ some data_of
      → ((take p s).0 ≡ some e)
        × ((take p (take p s).1).0 ≡ some (record e { add_processed = true; tombstone = true }))
        × (Dict.get p (cleanup now (take p s).1).entries ≡ none)
removal_taken_once p ttl now ops {e} h t r =
    let s = run (new_event_store ttl) ops in
    let u = run-NodupKeys ttl ops in
    let again = get-take p s e u h in
    (
      take-some p s e h,
      take-some p (take p s).1 (taken_entry e) again ∙ ap some (taken_entry-removed e t r),
      get-cleanup-take p now s e u h
          ∙ ap (kept (keeps now s.ttl)) (ap some (taken_entry-removed e t r))
          ∙ keeps-tombstone now s.ttl e,
    )
