-- ===== src/Events/Laws.antt =====
-- The store seen from one device path (vuinputd/src/jobs/monitor_udev_job.rs).
use vuinputd.Prelude.{ℕ, ◌≡◌, refl, ◌∙◌, Option, none, some, List, [], ◌∷◌, arith, if◌then◌else◌}
use mathlib.Core.Path.{ap₂}
use vuinputd.Prelude.Dict
use vuinputd.Prelude.Dict.{Dict, NodupKeys, kept}
use vuinputd.Prelude.Text.{Text, text_eq, text_beq, text_beq_iff}
use vuinputd.Events.{
  UdevEvent, Entry, EventStore, new_event_store, updated_entry, on_event, taken_entry, take,
  take_entry, keeps, cleanup,
}

-- What the threads of the program do with the store.
pub data StoreOp : Type 0 where
  event : ℕ → UdevEvent → StoreOp
  taking : Text → StoreOp
  cleaning : ℕ → StoreOp

unfoldable pub perform : EventStore → StoreOp → EventStore
perform s (event now e) = on_event now e s
perform s (taking syspath) = (take syspath s).1
perform s (cleaning now) = cleanup now s

abbrev pub run : EventStore → List StoreOp → EventStore
run s [] = s
run s (op ∷ ops) = run (perform s op) ops

-- The same for one path and its entry alone.
abbrev pub taken : Option Entry → Option Entry
taken none = none
taken (some e) = some (taken_entry e)

abbrev pub perform_at : Text → ℕ → Option Entry → StoreOp → Option Entry
perform_at p ttl o (event now e) = if text_beq e.syspath p then some (updated_entry now e o) else o
perform_at p ttl o (taking syspath) = if text_beq syspath p then taken o else o
perform_at p ttl o (cleaning now) = kept (keeps now ttl) o

abbrev pub run_at : Text → ℕ → Option Entry → List StoreOp → Option Entry
run_at p ttl o [] = o
run_at p ttl o (op ∷ ops) = run_at p ttl (perform_at p ttl o op) ops

take_entry-NodupKeys :
    (q : Text) (o : Option Entry) (s : EventStore)
    → NodupKeys s.entries
    → NodupKeys (take_entry q o s).1.entries
unfolding take
take_entry-NodupKeys q none s u = u
take_entry-NodupKeys q (some e) s u = Dict.insert-NodupKeys q _ s.entries u

get-take_entry :
    (p q : Text) (o : Option Entry) (s : EventStore)
    → Dict.get q s.entries ≡ o
    → Dict.get p (take_entry q o s).1.entries
      ≡ (if text_beq q p then taken (Dict.get p s.entries) else Dict.get p s.entries)
unfolding take
get-take_entry p q none s h = ground (arith, text_beq_iff q p)
get-take_entry p q (some e) s h =
    ground (arith, text_beq_iff q p, Dict.get-insert p q (taken_entry e) s.entries)

perform-NodupKeys :
    (s : EventStore) (op : StoreOp) → NodupKeys s.entries → NodupKeys (perform s op).entries
unfolding perform on_event take cleanup
perform-NodupKeys s (event now e) u = Dict.insert-NodupKeys e.syspath _ s.entries u
perform-NodupKeys s (taking p) u = take_entry-NodupKeys p (Dict.get p s.entries) s u
perform-NodupKeys s (cleaning now) u = Dict.retain-NodupKeys (keeps now s.ttl) s.entries u

perform-ttl : (s : EventStore) (op : StoreOp) → (perform s op).ttl ≡ s.ttl
unfolding perform on_event take cleanup
perform-ttl s (event now e) = refl
perform-ttl s (taking p) = ground arith
perform-ttl s (cleaning now) = refl

get-perform :
    (p : Text) (s : EventStore) (op : StoreOp)
    → NodupKeys s.entries
    → Dict.get p (perform s op).entries ≡ perform_at p s.ttl (Dict.get p s.entries) op
unfolding perform on_event take cleanup
get-perform p s (event now e) u = ground (
  arith,
  text_beq_iff e.syspath p,
  Dict.get-insert p e.syspath (updated_entry now e (Dict.get e.syspath s.entries)) s.entries,
)
get-perform p s (taking q) u = get-take_entry p q (Dict.get q s.entries) s refl
get-perform p s (cleaning now) u = Dict.get-retain p (keeps now s.ttl) s.entries u

get-run_from :
    (p : Text) (s : EventStore) (ops : List StoreOp)
    → NodupKeys s.entries
    → Dict.get p (run s ops).entries ≡ run_at p s.ttl (Dict.get p s.entries) ops
get-run_from p s [] u = refl
get-run_from p s (op ∷ ops) u =
    get-run_from p (perform s op) ops (perform-NodupKeys s op u)
    ∙ ap₂ (λ ttl o. run_at p ttl o ops) (perform-ttl s op) (get-perform p s op u)

-- From an empty store on, what it holds for a path is what the operations make of its entry alone.
pub get-run_at :
    (p : Text) (ttl : ℕ) (ops : List StoreOp)
    → Dict.get p (run (new_event_store ttl) ops).entries ≡ run_at p ttl none ops
unfolding new_event_store Dict.get
get-run_at p ttl ops = get-run_from p (new_event_store ttl) ops tt

run_from-NodupKeys :
    (s : EventStore) (ops : List StoreOp) → NodupKeys s.entries → NodupKeys (run s ops).entries
run_from-NodupKeys s [] u = u
run_from-NodupKeys s (op ∷ ops) u = run_from-NodupKeys (perform s op) ops (perform-NodupKeys s op u)

pub run-NodupKeys :
    (ttl : ℕ) (ops : List StoreOp) → NodupKeys (run (new_event_store ttl) ops).entries
unfolding new_event_store
run-NodupKeys ttl ops = run_from-NodupKeys (new_event_store ttl) ops tt

pub take-some :
    (p : Text) (s : EventStore) (e : Entry) → Dict.get p s.entries ≡ some e → (take p s).0 ≡ some e
unfolding take
take-some p s e h = ground arith

-- Taking leaves the entry as `taken_entry` makes it.
pub get-take :
    (p : Text) (s : EventStore) (e : Entry)
    → NodupKeys s.entries
    → Dict.get p s.entries ≡ some e
    → Dict.get p (take p s).1.entries ≡ some (taken_entry e)
unfolding perform
get-take p s e u h = ground (arith, get-perform p s (taking p) u, text_beq_iff p p)

pub get-cleanup-take :
    (p : Text) (now : ℕ) (s : EventStore) (e : Entry)
    → NodupKeys s.entries
    → Dict.get p s.entries ≡ some e
    → Dict.get p (cleanup now (take p s).1).entries ≡ kept (keeps now s.ttl) (some (taken_entry e))
unfolding cleanup perform
get-cleanup-take p now s e u h =
    Dict.get-retain p _ (take p s).1.entries (perform-NodupKeys s (taking p) u)
    ∙ ap₂ (λ ttl o. kept (keeps now ttl) o) (perform-ttl s (taking p)) (get-take p s e u h)
