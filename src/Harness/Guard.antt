-- ===== src/Harness/Guard.antt =====
-- The daemon under test (vuinputd-tests/src/run_vuinputd.rs): how it is started, and how it is ended
-- when its guard is dropped.
use vuinputd.Prelude.{
  ℕ, zero, suc, ◌+◌, ◌≡◌, ◌≤◌, ◌<◌, ◌↔◌, refl, Bool, true, false, List, [], ◌∷◌, ◌++◌,
  if◌then◌else◌, arith,
}
use vuinputd.Prelude.Text.{Text, codes}

-- The words behind `cargo`.
unfoldable pub start : List Text → List Text
start args =
    (codes "run"
      ∷ codes "-p"
      ∷ codes "vuinputd"
      ∷ codes "--"
      ∷ codes "--major"
      ∷ codes "120"
      ∷ codes "--minor"
      ∷ codes "414796"
      ∷ codes "--devname"
      ∷ codes "vuinput-test"
      ∷ [])
    ++ args

-- What the drop does to the child.
pub data Act : Type 0 where
  sigterm try_wait sleep sigkill wait : Act

-- The checks from the number `n` on; `has_ended n` is whether check `n` finds that the child has ended.
checks : (ℕ → Bool) → ℕ → ℕ → List Act
checks has_ended zero n = sigkill ∷ wait ∷ []
checks has_ended (suc rounds) n =
    let more = sleep ∷ checks has_ended rounds (n + 1) in
    try_wait ∷ (if has_ended n then [] else more)

-- `Drop for VuinputdGuard`
unfoldable pub drop_guard : (ℕ → Bool) → List Act
unfolding checks
drop_guard has_ended = sigterm ∷ checks has_ended 10 0

abbrev pub kills : List Act → Bool
kills [] = false
kills (sigkill ∷ acts) = true
kills (_ ∷ acts) = kills acts

-- How often the child is asked whether it has ended.
abbrev pub asked : List Act → ℕ
asked [] = 0
asked (try_wait ∷ acts) = asked acts + 1
asked (_ ∷ acts) = asked acts

checks-asked : (has_ended : ℕ → Bool) (rounds n : ℕ) → asked (checks has_ended rounds n) ≤ rounds
unfolding checks
checks-asked has_ended zero n = omega arith
checks-asked has_ended (suc rounds) n = ground (arith, checks-asked has_ended rounds (n + 1))

killed→alive :
    (has_ended : ℕ → Bool) (rounds n : ℕ)
    → kills (checks has_ended rounds n) ≡ true
    → (i : ℕ) → i < rounds
    → has_ended (n + i) ≡ false
unfolding checks
killed→alive has_ended zero n h i lt = absurd (omega arith)
killed→alive has_ended (suc rounds) n h zero lt = ground arith
killed→alive has_ended (suc rounds) n h (suc i) lt =
    ground (arith, killed→alive has_ended rounds (n + 1) (ground arith) i (omega arith))

alive→killed :
    (has_ended : ℕ → Bool) (rounds n : ℕ)
    → ((i : ℕ) → i < rounds → has_ended (n + i) ≡ false)
    → kills (checks has_ended rounds n) ≡ true
unfolding checks
alive→killed has_ended zero n h = refl
alive→killed has_ended (suc rounds) n h = ground (
  arith,
  h 0 (omega arith),
  alive→killed has_ended rounds (n + 1) (λ i lt. ground (arith, h (suc i) (omega arith))),
)

-- The drop of the guard asks at most ten times whether the daemon has ended, and kills it exactly if
-- it has not ended at any of the ten checks.
drop_ends :
    (has_ended : ℕ → Bool)
    → (asked (drop_guard has_ended) ≤ 10)
      × ((kills (drop_guard has_ended) ≡ true) ↔ ((i : ℕ) → i < 10 → has_ended i ≡ false))
unfolding drop_guard
drop_ends has_ended = (
  checks-asked has_ended 10 0,
  (
    λ h i lt. ground (arith, killed→alive has_ended 10 0 h i lt),
    λ h. alive→killed has_ended 10 0 (λ i lt. ground (arith, h i lt)),
  ),
)
