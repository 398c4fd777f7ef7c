-- ===== src/Policy/History.antt =====
-- What the sanitized policy blocks, told from the events that came before and not from the tracker.
use vuinputd.Prelude.{
  ℕ, ◌≤◌, ◌≡◌, ◌↔◌, ◌⊎◌, inl, inr, refl, sym, ◌∙◌, Bool, true, false, ◌&&◌, ◌==◌, List, [], ◌∷◌,
  arith, if◌then◌else◌,
}
use vuinputd.Input
use vuinputd.Input.{InputEvent, KeyTracker, new_key_tracker, is_positive}
use vuinputd.Policy.{DevicePolicy, is_allowed, sanitize_key}

-- The tracker after a history of events, the newest first, from a newly opened device.
pub tracker_after : List InputEvent → KeyTracker
tracker_after [] = new_key_tracker
tracker_after (e ∷ es) = (is_allowed (tracker_after es) DevicePolicy.sanitized e).0

-- A key is held when the newest event of that key has a positive value.
abbrev pub is_held : ℕ → List InputEvent → Bool
is_held code [] = false
is_held code (e ∷ es) =
    if e.type_ == Input.ev_key && e.code == code then is_positive e.value else is_held code es

abbrev pub AltHeld : List InputEvent → Type 0
AltHeld es = (is_held Input.key_leftalt es ≡ true) ⊎ (is_held Input.key_rightalt es ≡ true)

abbrev pub CtrlHeld : List InputEvent → Type 0
CtrlHeld es = (is_held Input.key_leftctrl es ≡ true) ⊎ (is_held Input.key_rightctrl es ≡ true)

abbrev pub IsFunctionKey : ℕ → Type 0
IsFunctionKey code =
    ((Input.key_f1 ≤ code) × (code ≤ Input.key_f10))
    ⊎ ((Input.key_f11 ≤ code) × (code ≤ Input.key_f12))

abbrev pub IsPowerKey : ℕ → Type 0
IsPowerKey code =
    (code ≡ Input.key_power)
    ⊎ (code ≡ Input.key_sleep)
    ⊎ (code ≡ Input.key_wakeup)
    ⊎ (code ≡ Input.key_fn)
    ⊎ (code ≡ Input.key_break)
    ⊎ (code ≡ Input.key_pause)
    ⊎ (code ≡ Input.key_restart)

-- The reasons to block a key: SysRq, a switch of the virtual terminal, a reboot, a power key.
pub data Forbidden (es : List InputEvent) (code : ℕ) : Type 0 where
  sys_rq : code ≡ Input.key_sysrq → Forbidden es code
  vt_switch : AltHeld es → IsFunctionKey code → Forbidden es code
  reboot :
      AltHeld es
      → CtrlHeld es
      → (code ≡ Input.key_delete) ⊎ (code ≡ Input.key_kpdot)
      → Forbidden es code
  power : IsPowerKey code → Forbidden es code

pub record Tracks (k : KeyTracker) (es : List InputEvent) : Type 0 where
  pub left_alt : k.left_alt_down ≡ is_held Input.key_leftalt es
  pub right_alt : k.right_alt_down ≡ is_held Input.key_rightalt es
  pub left_ctrl : k.left_ctrl_down ≡ is_held Input.key_leftctrl es
  pub right_ctrl : k.right_ctrl_down ≡ is_held Input.key_rightctrl es

is_allowed-Tracks :
    (k : KeyTracker) (es : List InputEvent) (e : InputEvent)
    → Tracks k es
    → Tracks (is_allowed k DevicePolicy.sanitized e).0 (e ∷ es)
unfolding is_allowed
is_allowed-Tracks k es e t = ground arith

tracker_after-Tracks : (es : List InputEvent) → Tracks (tracker_after es) es
unfolding tracker_after new_key_tracker
tracker_after-Tracks [] = record {
  left_alt = refl;
  right_alt = refl;
  left_ctrl = refl;
  right_ctrl = refl;
}
tracker_after-Tracks (e ∷ es) = is_allowed-Tracks (tracker_after es) es e (tracker_after-Tracks es)

abbrev AltDown : KeyTracker → Type 0
AltDown k = (k.left_alt_down ≡ true) ⊎ (k.right_alt_down ≡ true)

abbrev CtrlDown : KeyTracker → Type 0
CtrlDown k = (k.left_ctrl_down ≡ true) ⊎ (k.right_ctrl_down ≡ true)

-- The same reasons over the tracker.
abbrev Blocked : KeyTracker → ℕ → Type 0
Blocked k code =
    (code ≡ Input.key_sysrq)
    ⊎ (AltDown k × IsFunctionKey code)
    ⊎ (AltDown k × CtrlDown k × ((code ≡ Input.key_delete) ⊎ (code ≡ Input.key_kpdot)))
    ⊎ IsPowerKey code

sanitize_key-Blocked : (k : KeyTracker) (code : ℕ) → sanitize_key k code ≡ false → Blocked k code
unfolding sanitize_key
sanitize_key-Blocked k code h = ground arith

Blocked-sanitize_key : (k : KeyTracker) (code : ℕ) → Blocked k code → sanitize_key k code ≡ false
unfolding sanitize_key
Blocked-sanitize_key k code b = ground arith

Blocked-Forbidden :
    (k : KeyTracker) (es : List InputEvent) (code : ℕ)
    → Tracks k es
    → Blocked k code
    → Forbidden es code
Blocked-Forbidden k es code t (inl a) = sys_rq a
Blocked-Forbidden k es code t (inr (inl b)) = vt_switch (ground arith) b.1
Blocked-Forbidden k es code t (inr (inr (inl b))) = reboot (ground arith) (ground arith) b.2
Blocked-Forbidden k es code t (inr (inr (inr b))) = power b

Forbidden-Blocked :
    (k : KeyTracker) (es : List InputEvent) (code : ℕ)
    → Tracks k es
    → Forbidden es code
    → Blocked k code
Forbidden-Blocked k es code t (sys_rq a) = inl a
Forbidden-Blocked k es code t (vt_switch a c) = inr (inl (ground arith, c))
Forbidden-Blocked k es code t (reboot a c d) = inr (inr (inl (ground arith, ground arith, d)))
Forbidden-Blocked k es code t (power a) = inr (inr (inr a))

-- `sanitize_key` reads the tracker that the event leaves.
is_allowed-sanitized :
    (k : KeyTracker) (e : InputEvent)
    → (e.type_ ≡ Input.ev_key)
    → (is_allowed k DevicePolicy.sanitized e).1
      ≡ sanitize_key (is_allowed k DevicePolicy.sanitized e).0 e.code
unfolding is_allowed
is_allowed-sanitized k e h = ground arith

is_allowed-sanitized_key :
    (k : KeyTracker) (e : InputEvent)
    → (is_allowed k DevicePolicy.sanitized e).1 ≡ false
    → e.type_ ≡ Input.ev_key
unfolding is_allowed
is_allowed-sanitized_key k e h = ground arith

-- On a device opened under the sanitized policy, after any history of events, an event is blocked
-- exactly when it is a key event and the key is forbidden: it is SysRq; a function key while an Alt
-- key is held; Delete or the keypad dot while an Alt and a Ctrl key are held; or a power key. A key
-- is held when the newest event of that key, this one included, has a positive value.
pub sanitized_exact :
    (es : List InputEvent) (e : InputEvent)
    → ((is_allowed (tracker_after es) DevicePolicy.sanitized e).1 ≡ false)
      ↔ ((e.type_ ≡ Input.ev_key) × Forbidden (e ∷ es) e.code)
sanitized_exact es e = (forth, back)
  where
    t : Tracks (is_allowed (tracker_after es) DevicePolicy.sanitized e).0 (e ∷ es)
    t = is_allowed-Tracks (tracker_after es) es e (tracker_after-Tracks es)

    forth :
        (is_allowed (tracker_after es) DevicePolicy.sanitized e).1 ≡ false
        → (e.type_ ≡ Input.ev_key) × Forbidden (e ∷ es) e.code
    forth h =
        let key = is_allowed-sanitized_key (tracker_after es) e h in
        (
          key,
          Blocked-Forbidden _ (e ∷ es) e.code t (
              sanitize_key-Blocked _ e.code
                (sym (is_allowed-sanitized (tracker_after es) e key) ∙ h)),
        )

    back :
        (e.type_ ≡ Input.ev_key) × Forbidden (e ∷ es) e.code
        → (is_allowed (tracker_after es) DevicePolicy.sanitized e).1 ≡ false
    back (key, f) =
        is_allowed-sanitized (tracker_after es) e key
        ∙ Blocked-sanitize_key _ e.code (Forbidden-Blocked _ (e ∷ es) e.code t f)
