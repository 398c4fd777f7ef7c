-- ===== src/Write/Stream.antt =====
-- The loop against the list of entries (vuinputd/src/cuse_device/vuinput_write.rs).
use vuinputd.Prelude.{
  ℕ, zero, suc, refl, ◌++◌, ◌+◌, ◌*◌, ◌<◌, ◌≤◌, ◌≡◌, ◌∙◌, Bool, true, false, some, List, [], ◌∷◌,
  length, take, drop, if◌then◌else◌, arith, lt→leb, le→leb, Bool-cases, inl, inr,
}
use Prim.Native.Nat.add
use vuinputd.Input.{KeyTracker}
use vuinputd.Policy.{DevicePolicy, is_allowed}
use vuinputd.Device.{Uinput, WriteResult, wrote, write_failed}
use vuinputd.Write.Loop.{Layout, is_ok, LoopState, body, write_loop}

-- The first `n` entries of `size` bytes.
abbrev pub entries : ℕ → ℕ → List ℕ → List (List ℕ)
entries zero size buf = []
entries (suc n) size buf = take size buf ∷ entries n size (drop size buf)

-- What the policy lets through of a list of entries, and the tracker that they leave.
abbrev pub permitted :
    DevicePolicy → Layout → KeyTracker → List (List ℕ) → KeyTracker × List (List ℕ)
permitted policy l k [] = (k, [])
permitted policy l k (e ∷ es) =
    let (k', allowed) = is_allowed k policy (l.event e) in
    let (k'', rest) = permitted policy l k' es in
    (k'', if allowed then l.written e ∷ rest else rest)

drop-drop {ℓ} : {A : Type ℓ} (m n : ℕ) (xs : List A) → drop n (drop m xs) ≡ drop (m + n) xs
drop-drop zero n xs = rw add.zero
drop-drop (suc m) zero [] = rw add.suc
drop-drop (suc m) (suc n) [] = rw add.suc
drop-drop (suc m) n (x ∷ xs) = rw add.suc (drop-drop m n xs)

module _ (U : Uinput) (fd : ℕ) where
  -- Records written one after another, up to the first that fails.
  abbrev pub write_all : List (List ℕ) → U.Kernel → U.Kernel × Bool
  write_all [] k = (k, true)
  write_all (r ∷ rs) k =
      let (k', result) = U.write fd r k in
      elim result [ wrote n ↦ write_all rs k' | write_failed ↦ (k', false) ]

  module _ (policy : DevicePolicy) (l : Layout) (buf : List ℕ) where
    -- The loop has done what `permitted` and `write_all` say for the `n` entries behind `s.bytes`.
    pub record Relayed (n : ℕ) (s t : LoopState U) : Type 0 where
      pub kernel :
          t.kernel
          ≡ (write_all
              (permitted policy l s.keytracker (entries n l.size (drop s.bytes buf))).1
              s.kernel).0
      pub result :
          is_ok t.result
          ≡ (write_all
              (permitted policy l s.keytracker (entries n l.size (drop s.bytes buf))).1
              s.kernel).1
      pub bytes : is_ok t.result ≡ true → t.bytes ≡ s.bytes + n * l.size
      pub keytracker :
          is_ok t.result ≡ true
          → t.keytracker ≡ (permitted policy l s.keytracker (entries n l.size (drop s.bytes buf))).0

    write_loop-zero :
        (fuel : ℕ) (s : LoopState U)
        → length buf < s.bytes + l.size
        → write_loop U fd policy l buf (suc fuel) s ≡ some s
    unfolding write_loop
    write_loop-zero fuel s h = rw (lt→leb _ _ h)

    write_loop_failed :
        (fuel : ℕ) (s : LoopState U)
        → is_ok s.result ≡ false
        → write_loop U fd policy l buf (suc fuel) s ≡ some s
    unfolding write_loop
    write_loop_failed fuel s h = ground arith

    write_loop-suc :
        (fuel : ℕ) (s : LoopState U)
        → s.bytes + l.size ≤ length buf
        → is_ok s.result ≡ true
        → write_loop U fd policy l buf (suc fuel) s
          ≡ write_loop U fd policy l buf fuel (body U fd policy l buf s)
    unfolding write_loop
    write_loop-suc fuel s h ok = rw (le→leb _ _ h, ok)

    -- One round either writes or skips the entry and goes on, or fails and ends.
    body-Relayed :
        (n : ℕ) (s t : LoopState U)
        → is_ok s.result ≡ true
        → is_ok (body U fd policy l buf s).result ≡ true
        → Relayed n (body U fd policy l buf s) t
        → Relayed (suc n) s t
    unfolding body
    body-Relayed n s t ok ok' r = record {
      kernel = ground (arith, drop-drop s.bytes l.size buf);
      result = ground (arith, drop-drop s.bytes l.size buf);
      bytes = λ h. omega (arith, r.bytes h);
      keytracker = λ h. ground (arith, drop-drop s.bytes l.size buf, r.keytracker h);
    }

    body-failed :
        (n : ℕ) (s : LoopState U)
        → is_ok s.result ≡ true
        → is_ok (body U fd policy l buf s).result ≡ false
        → Relayed (suc n) s (body U fd policy l buf s)
    unfolding body
    body-failed n s ok bad = ground arith

    body_lo :
        (n : ℕ) (s : LoopState U)
        → s.bytes + suc n * l.size ≤ length buf
        → (body U fd policy l buf s).bytes + n * l.size ≤ length buf
    unfolding body
    body_lo n s h = omega arith

    body_hi :
        (n : ℕ) (s : LoopState U)
        → length buf < s.bytes + suc n * l.size + l.size
        → length buf < (body U fd policy l buf s).bytes + n * l.size + l.size
    unfolding body
    body_hi n s h = omega arith

    pub write_loop-Relayed :
        (n fuel : ℕ) (s : LoopState U)
        → n < fuel
        → is_ok s.result ≡ true
        → s.bytes + n * l.size ≤ length buf
        → length buf < s.bytes + n * l.size + l.size
        → (t : LoopState U) × (write_loop U fd policy l buf fuel s ≡ some t) × Relayed n s t
    write_loop-Relayed n zero s f ok lo hi = elim f [ ]
    write_loop-Relayed zero (suc fuel) s f ok lo hi =
        (s, write_loop-zero fuel s (omega arith), ground arith)
    write_loop-Relayed (suc n) (suc zero) s f ok lo hi = absurd (omega arith)
    write_loop-Relayed (suc n) (suc (suc fuel)) s f ok lo hi =
        elim (Bool-cases (is_ok (body U fd policy l buf s).result)) [
          | inl ok' ↦
              let (t, e, r) =
                write_loop-Relayed n (suc fuel) (body U fd policy l buf s) (omega arith) ok'
                  (body_lo n s lo) (body_hi n s hi) in
              (t, write_loop-suc (suc fuel) s (omega arith) ok ∙ e, body-Relayed n s t ok ok' r)
          | inr bad ↦ (
            body U fd policy l buf s,
            write_loop-suc (suc fuel) s (omega arith) ok
                ∙ write_loop_failed fuel (body U fd policy l buf s) bad,
            body-failed n s ok bad,
          )
        ]

-- The first of two lists of records, and the second behind it.
pub write_all-append :
    (U : Uinput) (fd : ℕ) (xs ys : List (List ℕ)) (k : U.Kernel) {k' : U.Kernel}
    → write_all U fd (xs ++ ys) k ≡ (k', true)
    → (k₁ : U.Kernel) × (write_all U fd xs k ≡ (k₁, true)) × (write_all U fd ys k₁ ≡ (k', true))
write_all-append U fd [] ys k h = (k, refl, h)
write_all-append U fd (x ∷ xs) ys k {k'} h =
    by_result (U.write fd x k).1 (U.write fd x k).0
      (λ k₁ later. write_all-append U fd xs ys k₁ later) h
  where
    rest : WriteResult → U.Kernel → List (List ℕ) → U.Kernel × Bool
    rest r k₁ zs = elim r [ wrote n ↦ write_all U fd zs k₁ | write_failed ↦ (k₁, false) ]

    by_result :
        (r : WriteResult) (k₁ : U.Kernel)
        → ((k : U.Kernel)
            → write_all U fd (xs ++ ys) k ≡ (k', true)
            → (k₂ : U.Kernel) × (write_all U fd xs k ≡ (k₂, true))
              × (write_all U fd ys k₂ ≡ (k', true)))
        → rest r k₁ (xs ++ ys) ≡ (k', true)
        → (k₂ : U.Kernel) × (rest r k₁ xs ≡ (k₂, true)) × (write_all U fd ys k₂ ≡ (k', true))
    by_result (wrote n) k₁ again h = again k₁ h
    by_result write_failed k₁ again h = cc

module _ (policy : DevicePolicy) (l : Layout) where
  -- The records that are permitted of a list, by its first entry and the others.
  pub permitted-cons :
      (t : KeyTracker) (e : List ℕ) (es : List (List ℕ))
      → permitted policy l t (e ∷ es) ≡ (
        (permitted policy l (permitted policy l t (e ∷ [])).0 es).0,
        (permitted policy l t (e ∷ [])).1
            ++ (permitted policy l (permitted policy l t (e ∷ [])).0 es).1,
      )
  permitted-cons t e es = elim (Bool-cases (is_allowed t policy (l.event e)).1) [
    | inl b ↦ rw b refl
    | inr b ↦ rw b refl
  ]
