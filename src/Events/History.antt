-- ===== src/Events/History.antt =====
-- What the store knows of a device, told by what has happened to it
-- (vuinputd/src/jobs/monitor_udev_job.rs).
use vuinputd.Prelude.{
  ℕ, ◌-◌, ◌≡◌, refl, ap, ◌∙◌, Bool, true, false, ◌&&◌, ◌||◌, Option, none, some, is_some, List, [],
  ◌∷◌, leb, inl, inr, Bool-cases, arith, if◌then◌else◌,
}
use vuinputd.Prelude.Dict
use vuinputd.Prelude.Dict.{kept}
use vuinputd.Prelude.Text.{Text, text_eq, text_beq, text_beq_iff}
use vuinputd.Events.{
  EventKind, Properties, UdevEvent, Entry, new_event_store, updated_entry, taken_entry, keeps,
}
use vuinputd.Events.Laws.{
  StoreOp, event, taking, cleaning, run, taken, perform_at, run_at, get-run_at,
}

-- Whether a device has been taken since its last announcement: not, before its last event, or after.
pub data Handed : Type 0 where
  never earlier since_event : Handed

-- What has happened to a device since it was last forgotten: the number and the time of its last
-- event, the data of its last announcement, and of a removal after that.
pub record History : Type 0 where
  pub number : ℕ
  pub time : ℕ
  pub announced : Option Properties
  pub removed : Option Properties
  pub handed : Handed

abbrev is_handed : Handed → Bool
is_handed never = false
is_handed earlier = true
is_handed since_event = true

abbrev is_handed_since_event : Handed → Bool
is_handed_since_event never = false
is_handed_since_event earlier = false
is_handed_since_event since_event = true

-- After an event that is no announcement.
abbrev before_event : Handed → Handed
before_event never = never
before_event earlier = earlier
before_event since_event = earlier

-- The removal of the device has been given to someone.
abbrev is_over : History → Bool
is_over h = is_handed_since_event h.handed && is_some h.removed

abbrev announcement : ℕ → UdevEvent → History
announcement now e = record {
  number = e.seqnum;
  time = now;
  announced = some e.payload;
  removed = none;
  handed = never;
}

abbrev removal : ℕ → UdevEvent → Option History → History
removal now e none = record {
  number = e.seqnum;
  time = now;
  announced = none;
  removed = some e.payload;
  handed = never;
}
removal now e (some h) = record {
  number = e.seqnum;
  time = now;
  announced = h.announced;
  removed = some e.payload;
  handed = before_event h.handed;
}

abbrev recorded : EventKind → ℕ → UdevEvent → Option History → History
recorded EventKind.add now e o = announcement now e
recorded EventKind.remove now e o = removal now e o

abbrev given : Option History → Option History
given none = none
given (some h) = some (record h { handed = since_event })

-- A device is forgotten when its removal has been given away, and when nothing was heard of it for the
-- time to live.
abbrev remembered : ℕ → ℕ → Option History → Option History
remembered now ttl none = none
remembered now ttl (some h) = if is_over h || leb ttl (now - h.time) then none else some h

abbrev pub history_step : Text → ℕ → Option History → StoreOp → Option History
history_step p ttl o (event now e) =
    if text_beq e.syspath p then some (recorded e.kind now e o) else o
history_step p ttl o (taking q) = if text_beq q p then given o else o
history_step p ttl o (cleaning now) = remembered now ttl o

-- The history of the device at `p`.
abbrev pub history : Text → ℕ → Option History → List StoreOp → Option History
history p ttl o [] = o
history p ttl o (op ∷ ops) = history p ttl (history_step p ttl o op) ops

-- The entry for a device with a history: it is a tombstone if its removal has been given away.
abbrev pub entry_of : Text → Option History → Option Entry
entry_of p none = none
entry_of p (some h) = some (record {
  syspath = p;
  seqnum = h.number;
  add_data = h.announced;
  remove_data = h.removed;
  add_processed = is_handed h.handed;
  tombstone = is_over h;
  last_update = h.time;
})

updated-entry_of :
    (p : Text) (now : ℕ) (kind : EventKind) (e : UdevEvent) (o : Option History)
    → e.kind ≡ kind
    → e.syspath ≡ p
    → some (updated_entry now e (entry_of p o)) ≡ entry_of p (some (recorded kind now e o))
unfolding updated_entry
updated-entry_of p now EventKind.add e none k q = rw k (rw q refl)
updated-entry_of p now EventKind.remove e none k q = rw k (rw q refl)
updated-entry_of p now EventKind.add e (some h) k q = rw k refl
updated-entry_of p now EventKind.remove e (some h) k q = by_handed h.handed
  where
    by_handed :
        (handed : Handed)
        → some (updated_entry now e (entry_of p (some (record h { handed = handed }))))
          ≡ entry_of p (some (removal now e (some (record h { handed = handed }))))
    by_handed never = rw k refl
    by_handed earlier = rw k refl
    by_handed since_event = rw k refl

taken-entry_of : (p : Text) (o : Option History) → taken (entry_of p o) ≡ entry_of p (given o)
unfolding taken_entry
taken-entry_of p none = refl
taken-entry_of p (some h) = by_handed h.handed h.removed
  where
    by_handed :
        (handed : Handed) (removed : Option Properties)
        → let h' : History = record h { handed = handed; removed = removed } in
          taken (entry_of p (some h')) ≡ entry_of p (given (some h'))
    by_handed never none = refl
    by_handed never (some d) = refl
    by_handed earlier none = refl
    by_handed earlier (some d) = refl
    by_handed since_event none = refl
    by_handed since_event (some d) = refl

kept-entry_of :
    (p : Text) (now ttl : ℕ) (o : Option History)
    → kept (keeps now ttl) (entry_of p o) ≡ entry_of p (remembered now ttl o)
unfolding keeps
kept-entry_of p now ttl none = refl
kept-entry_of p now ttl (some h) = ground arith

perform_at-entry_of :
    (p : Text) (ttl : ℕ) (o : Option History) (op : StoreOp)
    → perform_at p ttl (entry_of p o) op ≡ entry_of p (history_step p ttl o op)
perform_at-entry_of p ttl o (event now e) = elim (Bool-cases (text_beq e.syspath p)) [
  | inl h ↦ rw h (updated-entry_of p now e.kind e o refl ((text_beq_iff e.syspath p).0 h))
  | inr h ↦ rw h refl
]
perform_at-entry_of p ttl o (taking q) = elim (Bool-cases (text_beq q p)) [
  | inl h ↦ rw h (taken-entry_of p o)
  | inr h ↦ rw h refl
]
perform_at-entry_of p ttl o (cleaning now) = kept-entry_of p now ttl o

run_at-entry_of :
    (p : Text) (ttl : ℕ) (o : Option History) (ops : List StoreOp)
    → run_at p ttl (entry_of p o) ops ≡ entry_of p (history p ttl o ops)
run_at-entry_of p ttl o [] = refl
run_at-entry_of p ttl o (op ∷ ops) =
    ap (λ x. run_at p ttl x ops) (perform_at-entry_of p ttl o op)
    ∙ run_at-entry_of p ttl (history_step p ttl o op) ops

-- From an empty store on, whatever events, takes and cleanups there are, what the store holds for a
-- device is told by what happened to the device at that path since it was last forgotten: the number
-- and time of its last event, the data of its last announcement and of a removal since then, whether
-- it was taken since the announcement, and as a tombstone exactly whether there is such a removal and
-- the device was taken after its last event. A cleanup forgets it exactly if it is a tombstone or the
-- time to live has passed since its last event.
pub get-history :
    (p : Text) (ttl : ℕ) (ops : List StoreOp)
    → Dict.get p (run (new_event_store ttl) ops).entries ≡ entry_of p (history p ttl none ops)
get-history p ttl ops = get-run_at p ttl ops ∙ run_at-entry_of p ttl none ops
