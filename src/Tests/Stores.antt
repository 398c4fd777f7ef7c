-- ===== src/Tests/Stores.antt =====
-- The event store at concrete events.
use vuinputd.Prelude.{◌≡◌, refl, true, false, Option, none, some, List, [], ◌∷◌}
use vuinputd.Prelude.Dict
use vuinputd.Prelude.Text.{Text, text_eq, text_beq, codes, to_text, parse_uint}
use vuinputd.Fuse.{returned}
use vuinputd.Events.{
  EventKind, Properties, UdevEvent, Entry, new_event_store, take, cleanup, updated_entry, on_event,
}
use vuinputd.Events.Laws.{StoreOp, event, taking, cleaning, perform, run}
use vuinputd.Events.History.{entry_of, history, get-history}
use vuinputd.Events.Monitor.{event_of, kind_of}
use vuinputd.Events.Lifecycle.{lowercase_never_removes, removal_taken_once}

abbrev p97 : Text
p97 = codes "/p97"

abbrev p98 : Text
p98 = codes "/p98"

abbrev some_event : Text → EventKind → UdevEvent
some_event p kind = record {
  syspath = p;
  seqnum = 4;
  kind = kind;
  payload = (codes "ACTION", codes "add") ∷ [];
}

abbrev ops : List StoreOp
ops =
    event 1 (some_event p97 EventKind.add)
    ∷ event 2 (some_event p98 EventKind.add)
    ∷ taking p97
    ∷ event 3 (some_event p97 EventKind.remove)
    ∷ cleaning 4
    ∷ []

get-history_example :
    Dict.get p97 (run (new_event_store 60) ops).entries ≡ entry_of p97 (history p97 60 none ops)
get-history_example = get-history p97 60 ops

entry97 : Entry
entry97 = record {
  syspath = p97;
  seqnum = 4;
  add_data = some ((codes "ACTION", codes "add") ∷ []);
  remove_data = some ((codes "ACTION", codes "add") ∷ []);
  add_processed = true;
  tombstone = false;
  last_update = 3;
}

holds97 : Dict.get p97 (run (new_event_store 60) ops).entries ≡ some entry97
unfolding entry97 new_event_store perform on_event take cleanup Dict.get Dict.insert Dict.retain
    text_beq
holds97 = refl

removal_taken_once_example :
    let s = run (new_event_store 60) ops in
    ((take p97 s).0 ≡ some entry97)
    × ((take p97 (take p97 s).1).0
        ≡ some (record entry97 { add_processed = true; tombstone = true }))
    × (Dict.get p97 (cleanup 5 (take p97 s).1).entries ≡ none)
unfolding entry97
removal_taken_once_example = removal_taken_once p97 60 5 ops {e = entry97} holds97 refl refl

-- The expression for the device path, which here always matches the input number 97.
abbrev captures : Text → Option Text
captures devpath = some (codes "97")

abbrev removal : Properties
removal =
    (codes "ACTION", codes "remove")
    ∷ (codes "DEVPATH", codes "/devices/virtual/input/input97/event9")
    ∷ (codes "SEQNUM", codes "14499")
    ∷ []

abbrev removal_event : UdevEvent
removal_event = record {
  syspath = codes "/sys/devices/virtual/input/input97";
  seqnum = 14499;
  kind = EventKind.add;
  payload = removal;
}

abbrev removal_path : Text
removal_path = codes "/sys/devices/virtual/input/input97"

recorded : Entry
unfolding updated_entry
recorded = updated_entry 9 removal_event none

recorded_holds :
    Dict.get removal_path (run (new_event_store 60) (event 9 removal_event ∷ [])).entries
    ≡ some recorded
unfolding recorded new_event_store perform on_event Dict.get Dict.insert text_beq
recorded_holds = refl

removal_read : event_of captures removal ≡ returned (some removal_event)
unfolding event_of kind_of Dict.get text_beq to_text parse_uint
removal_read = refl

-- The event that udev sends when a device goes.
lowercase_never_removes_example : (recorded.remove_data ≡ none) × (recorded.tombstone ≡ false)
unfolding text_beq Dict.get
lowercase_never_removes_example =
    lowercase_never_removes captures removal_path 60 (event 9 removal_event ∷ []) {e = recorded}
      ((removal, codes "remove", removal_read, refl, refl), tt) recorded_holds
