-- ===== src/Events/Monitor.antt =====
-- From a udev event to the store: one round of `udev_monitor_loop`
-- (vuinputd/src/jobs/monitor_udev_job.rs). The regular expression for the device path is matched by
-- a library; its first group, where it matches, is the parameter `captures`.
use vuinputd.Prelude.{ℕ, ◌+◌, not, Option, none, some, List, [], ◌∷◌, ◌++◌, ltb, if◌then◌else◌}
use vuinputd.Prelude.Dict
use vuinputd.Prelude.Text.{Text, text_eq, text_beq, codes, to_text, parse_uint, u32_max, u64_max}
use vuinputd.Fuse.{Outcome, panicked, returned, ◌>>=◌}
use vuinputd.Events.{EventKind, Properties, UdevEvent, EventStore, on_event, cleanup}

rename_key : Text → Text
rename_key key =
    if text_beq key (codes "ID_VUINPUT_KEYBOARD")
    then codes "ID_INPUT_KEYBOARD"
    else if text_beq key (codes "ID_VUINPUT_MOUSE")
    then codes "ID_INPUT_MOUSE"
    else key

-- The loop over `event.properties()`.
unfoldable pub collect : List (Text × Text) → Properties → Properties
unfolding rename_key
collect [] properties = properties
collect ((name, value) ∷ rest) properties =
    let key = rename_key name in
    collect rest (
      if not (text_beq key (codes "ID_SEAT")) then Dict.insert key value properties else properties)

unfoldable pub kind_of : Text → EventKind
kind_of action =
    if text_beq action (codes "ADD")
    then EventKind.add
    else if text_beq action (codes "REMOVE")
    then EventKind.remove
    else EventKind.add

-- `Duration::from_secs(60)`, in nanoseconds.
abbrev pub minute : ℕ
minute = 60_000_000_000

-- `….unwrap()` of an option.
abbrev pub expect {ℓ} : {A : Type ℓ} → Option A → Outcome A
expect none = panicked
expect (some a) = returned a

module _ (captures : Text → Option Text) where
  -- The event behind a match of the device path, from the first group.
  unfoldable pub event_of_match : Properties → Text → Outcome UdevEvent
  unfolding kind_of
  event_of_match properties group = do
    input_number ← expect (parse_uint u32_max group)
    seqnum_text ← expect (Dict.get (codes "SEQNUM") properties)
    seqnum ← expect (parse_uint u64_max seqnum_text)
    action ← expect (Dict.get (codes "ACTION") properties)
    returned (record {
      syspath = codes "/sys/devices/virtual/input/input" ++ to_text input_number;
      seqnum = seqnum;
      kind = kind_of action;
      payload = properties;
    })

  -- `none`: the device path is none of an event device, and the event is passed over.
  abbrev pub event_of_group : Properties → Option Text → Outcome (Option UdevEvent)
  event_of_group properties none = returned none
  event_of_group properties (some group) =
      event_of_match properties group >>= λ event. returned (some event)

  unfoldable pub event_of : Properties → Outcome (Option UdevEvent)
  unfolding event_of_match
  event_of properties = expect (Dict.get (codes "DEVPATH") properties) >>= λ devpath.
      event_of_group properties (captures devpath)

  abbrev store_event : ℕ → EventStore → Option UdevEvent → EventStore
  store_event now store none = store
  store_event now store (some event) = on_event now event store

  -- `none`: no event was received.
  receive : ℕ → Option (List (Text × Text)) → EventStore → Outcome EventStore
  unfolding event_of
  receive now none store = returned store
  receive now (some received) store =
      event_of (collect received []) >>= λ event. returned (store_event now store event)

  -- What the loop keeps between two rounds.
  pub record MonitorState : Type 0 where
    pub store : EventStore
    pub next_cleanup : ℕ

  -- The cleanup at the end of a round: the clock is read up to three times.
  clean_up : ℕ → ℕ → ℕ → MonitorState → MonitorState
  clean_up checked set cleaned m =
      if ltb m.next_cleanup checked
      then record { store = cleanup cleaned m.store; next_cleanup = set + minute }
      else m

  unfoldable pub monitor_round :
      ℕ → ℕ → ℕ → ℕ → Option (List (Text × Text)) → MonitorState → Outcome MonitorState
  unfolding receive clean_up
  monitor_round now checked set cleaned received m = receive now received m.store >>= λ store.
      returned (clean_up checked set cleaned (record m { store = store }))
