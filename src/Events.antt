-- ===== src/Events.antt =====
-- The store of udev events: `EventStore` of vuinputd/src/jobs/monitor_udev_job.rs. A reading of the
-- clock (`Instant::now()`) is an argument, in nanoseconds; `duration_since` stops at 0.
pub mod Laws
pub mod History
pub mod Monitor
pub mod Lifecycle
use vuinputd.Prelude.{
  ℕ, ◌-◌, Bool, true, false, Option, none, some, is_some, ltb, [], if◌then◌else◌,
}
use vuinputd.Prelude.Dict
use vuinputd.Prelude.Dict.{Dict}
use vuinputd.Prelude.Text.{Text, text_eq}

pub data EventKind : Type 0 where
  add remove : EventKind

abbrev pub Properties : Type 0
Properties = Dict Text Text

pub record UdevEvent : Type 0 where
  pub syspath : Text
  pub seqnum : ℕ
  pub kind : EventKind
  pub payload : Properties

pub record Entry : Type 0 where
  pub syspath : Text
  pub seqnum : ℕ
  pub add_data : Option Properties
  pub remove_data : Option Properties
  pub add_processed : Bool
  pub tombstone : Bool
  pub last_update : ℕ

pub record EventStore : Type 0 where
  pub entries : Dict Text Entry
  pub ttl : ℕ

unfoldable pub new_event_store : ℕ → EventStore
new_event_store ttl = record { entries = []; ttl = ttl }

-- The entry that `or_insert_with` makes.
fresh_entry : ℕ → UdevEvent → Entry
fresh_entry now event = record {
  syspath = event.syspath;
  seqnum = event.seqnum;
  add_data = none;
  remove_data = none;
  add_processed = false;
  tombstone = false;
  last_update = now;
}

-- The `match event.kind`.
store_payload : EventKind → Properties → Entry → Entry
store_payload add payload e = record e {
  add_data = some payload;
  add_processed = false;
  remove_data = none;
}
store_payload remove payload e = record e { remove_data = some payload }

-- The entry after an event, from the entry before it.
unfoldable pub updated_entry : ℕ → UdevEvent → Option Entry → Entry
unfolding fresh_entry store_payload
updated_entry now event none =
    store_payload event.kind event.payload (record (fresh_entry now event) {
      seqnum = event.seqnum;
      last_update = now;
      tombstone = false;
    })
updated_entry now event (some e) =
    store_payload event.kind event.payload
      (record e { seqnum = event.seqnum; last_update = now; tombstone = false })

unfoldable pub on_event : ℕ → UdevEvent → EventStore → EventStore
unfolding updated_entry
on_event now event self = record self {
  entries =
      Dict.insert event.syspath (updated_entry now event (Dict.get event.syspath self.entries))
        self.entries;
}

-- What `take` leaves of an entry.
unfoldable pub taken_entry : Entry → Entry
taken_entry e = if e.tombstone then e else record e {
  add_processed = true;
  tombstone = if is_some e.remove_data then true else e.tombstone;
}

take_entry : Text → Option Entry → EventStore → Option Entry × EventStore
unfolding taken_entry
take_entry syspath none self = (none, self)
take_entry syspath (some e) self =
    (some e, record self { entries = Dict.insert syspath (taken_entry e) self.entries })

unfoldable pub take : Text → EventStore → Option Entry × EventStore
unfolding take_entry
take syspath self = take_entry syspath (Dict.get syspath self.entries) self

-- The test of `retain` in `cleanup`.
unfoldable pub keeps : ℕ → ℕ → Entry → Bool
keeps now ttl e = if e.tombstone then false else ltb (now - e.last_update) ttl

unfoldable pub cleanup : ℕ → EventStore → EventStore
unfolding keeps
cleanup now self = record self { entries = Dict.retain (keeps now self.ttl) self.entries }
