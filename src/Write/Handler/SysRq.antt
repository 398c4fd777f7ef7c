-- ===== src/Write/Handler/SysRq.antt =====
-- SysRq never reaches the kernel through a write under a policy other than `none`
-- (vuinputd/src/cuse_device/device_policy.rs, vuinput_write.rs).
use vuinputd.Prelude.{
  ℕ, zero, suc, ◌≡◌, ◌≢◌, refl, Bool, true, false, List, [], ◌∷◌, take, drop, All, arith,
  Bool-cases, inl, inr,
}
use vuinputd.Input
use vuinputd.Input.{InputEvent, KeyTracker}
use vuinputd.Policy.{DevicePolicy, is_allowed}
use vuinputd.Write.Bytes.{event_at, IsByte, All-drop, compat_roundtrip}
use vuinputd.Write.Loop.{Layout}
use vuinputd.Write.Stream.{entries, permitted}
use vuinputd.Write.Handler.{layout_of}

abbrev pub IsSysRq : InputEvent → Type 0
IsSysRq e = (e.type_ ≡ Input.ev_key) × (e.code ≡ Input.key_sysrq)

is_allowed-not_sysrq :
    (p : DevicePolicy) (k : KeyTracker) (e : InputEvent)
    → p ≢ DevicePolicy.none
    → (is_allowed k p e).1 ≡ true
    → ¬ IsSysRq e
unfolding is_allowed
is_allowed-not_sysrq DevicePolicy.none k e h a s = absurd (h refl)
is_allowed-not_sysrq DevicePolicy.mute_sys_rq k e h a s = ground arith
is_allowed-not_sysrq DevicePolicy.sanitized k e h a s = ground arith
is_allowed-not_sysrq DevicePolicy.strict_gamepad k e h a s = ground arith

-- The record that is written reads back as the event that the policy has judged.
abbrev Faithful : Layout → List ℕ → Type 0
Faithful l entry = event_at (l.written entry) ≡ l.event entry

All-take : (n : ℕ) (bs : List ℕ) → All IsByte bs → All IsByte (take n bs)
All-take zero bs h = tt
All-take (suc n) [] h = tt
All-take (suc n) (b ∷ bs) h = (h.0, All-take n bs h.1)

layout_of-Faithful : (c : Bool) (entry : List ℕ) → All IsByte entry → Faithful (layout_of c) entry
unfolding layout_of
layout_of-Faithful true entry h = (compat_roundtrip entry h).0
layout_of-Faithful false entry h = refl

entries-Faithful :
    (c : Bool) (n size : ℕ) (buf : List ℕ)
    → All IsByte buf
    → All (Faithful (layout_of c)) (entries n size buf)
entries-Faithful c zero size buf h = tt
entries-Faithful c (suc n) size buf h = (
  layout_of-Faithful c (take size buf) (All-take size buf h),
  entries-Faithful c n size (drop size buf) (All-drop size buf h),
)

permitted-not_sysrq :
    (p : DevicePolicy) (l : Layout) (k : KeyTracker) (es : List (List ℕ))
    → p ≢ DevicePolicy.none
    → All (Faithful l) es
    → All (λ r. ¬ IsSysRq (event_at r)) (permitted p l k es).1
permitted-not_sysrq p l k [] h f = tt
permitted-not_sysrq p l k (e ∷ es) h f =
    let rest = permitted-not_sysrq p l (is_allowed k p (l.event e)).0 es h f.1 in
    elim (Bool-cases (is_allowed k p (l.event e)).1) [
      | inl a ↦ rw a (rw f.0 (is_allowed-not_sysrq p k (l.event e) h a), rest)
      | inr b ↦ rw b rest
    ]

-- Of the whole entries of a request of bytes, of a 64-bit or a 32-bit process, none that the policy
-- permits is read by the kernel as a SysRq key event, unless the policy is `none`. This holds in
-- every state of the key tracker.
pub no_sysrq :
    (p : DevicePolicy) (is_compat : Bool) (k : KeyTracker) (n : ℕ) (buf : List ℕ)
    → p ≢ DevicePolicy.none
    → All IsByte buf
    → let l = layout_of is_compat in
      All (λ r. ¬ IsSysRq (event_at r)) (permitted p l k (entries n l.size buf)).1
no_sysrq p is_compat k n buf h bytes =
    permitted-not_sysrq p (layout_of is_compat) k _ h
      (entries-Faithful is_compat n (layout_of is_compat).size buf bytes)
