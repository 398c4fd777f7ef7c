-- ===== src/Jobs/Emit/Outcome.antt =====
-- How the wait of `EmitUdevEventJob` ends (vuinputd/src/jobs/emit_udev_event_job.rs).
use vuinputd.Prelude.{
  ap, ◌∙◌, ℕ, zero, suc, ◌+◌, ◌≡◌, refl, Bool, true, false, Option, none, some, if◌then◌else◌,
}
use vuinputd.Prelude.Text.{Text}
use vuinputd.Events.{Entry, Properties}
use vuinputd.Jobs.Emit.{
  Observed, Loop, already_removed, found, is_dead, take_netlink, read_runtime, attempts,
  wait_for_data,
}

abbrev pub found_or {ℓ} : {A : Type ℓ} → Option A → Option A → Option A
found_or none later = later
found_or (some a) later = some a

-- The specification. The first attempt from `n` on, of `fuel`, that finds something.
unfoldable pub first {ℓ} : {A : Type ℓ} → (ℕ → Option A) → ℕ → ℕ → Option A
first f zero n = none
first f (suc fuel) n = found_or (f n) (first f fuel (n + 1))

-- What an attempt says of the announcement: nothing, that the device is gone, or the properties.
abbrev pub verdict : Option Entry → Option (Option Properties)
verdict none = none
verdict (some e) =
    if is_dead e
    then some none
    else elim e.add_data [ none ↦ none | some data_ ↦ some (some data_) ]

-- The announcement and the udev data are looked for on their own.
abbrev pub outcome : Option (Option Properties) → Option Text → Loop
outcome none runtime_data = found none runtime_data
outcome (some none) runtime_data = already_removed
outcome (some (some netlink_data)) runtime_data = found (some netlink_data) runtime_data

abbrev known_first : Option Properties → Option (Option Properties) → Option (Option Properties)
known_first (some data_) later = some (some data_)
known_first none later = later

module _ (o : Observed) where
  -- The data from an attempt on, where it is looked for with what is known.
  read_runtime-first :
      (fuel n : ℕ) (runtime_data : Option Text)
      → read_runtime
          (read_runtime runtime_data (o.read_udev_data n))
          (first o.read_udev_data fuel (n + 1))
        ≡ read_runtime runtime_data (first o.read_udev_data (suc fuel) n)
  unfolding first
  read_runtime-first fuel n (some r) = refl
  read_runtime-first fuel n none =
      elim (o.read_udev_data n)
        as (λ x.
          read_runtime x (first o.read_udev_data fuel (n + 1))
          ≡ found_or x (first o.read_udev_data fuel (n + 1))) [ none ↦ refl | some r ↦ refl ]

  -- The end of the job from an attempt on, as the specification has it.
  abbrev expected : ℕ → ℕ → Option (Option Properties) → Option Text → Loop
  expected fuel n known runtime_data =
      outcome known (read_runtime runtime_data (first o.read_udev_data fuel n))

  abbrev first_verdict : ℕ → ℕ → Option (Option Properties)
  first_verdict fuel n = first (λ i. verdict (o.taken i)) fuel n

  -- One attempt that takes `t` from the store, with an end that is as specified from there on.
  one_attempt :
      (fuel n : ℕ) (netlink_data : Option Properties) (r : Option Text) (t : Option Entry)
      → ((nd : Option Properties)
          → attempts o fuel (n + 1) nd r
            ≡ expected fuel (n + 1) (known_first nd (first_verdict fuel (n + 1))) r)
      → (elim (take_netlink netlink_data t) [
        | none ↦ already_removed
        | some nd ↦ attempts o fuel (n + 1) nd r
      ])
        ≡ expected fuel
            (n + 1)
            (known_first netlink_data (found_or (verdict t) (first_verdict fuel (n + 1))))
            r
  one_attempt fuel n (some d) r t ih = ih (some d)
  one_attempt fuel n none r none ih = ih none
  one_attempt fuel n none r (some e) ih = by_death (is_dead e) e.add_data
    where
      by_death :
          (dead : Bool) (add_data : Option Properties)
          → (elim (if dead then none else some add_data) [
            | none ↦ already_removed
            | some nd ↦ attempts o fuel (n + 1) nd r
          ])
            ≡ expected fuel
                (n + 1)
                (found_or
                  (if dead
                    then some none
                    else elim add_data [ none ↦ none | some data_ ↦ some (some data_) ])
                  (first_verdict fuel (n + 1)))
                r
      by_death true add_data = refl
      by_death false none = ih none
      by_death false (some d) = ih (some d)

  later_attempts :
      (fuel n : ℕ) (netlink_data : Option Properties) (runtime_data : Option Text)
      → ((nd : Option Properties) (rd : Option Text)
          → attempts o fuel (n + 1) nd rd
            ≡ expected fuel (n + 1) (known_first nd (first_verdict fuel (n + 1))) rd)
      → (elim (take_netlink netlink_data (o.taken n)) [
        | none ↦ already_removed
        | some nd ↦ attempts o fuel (n + 1) nd (read_runtime runtime_data (o.read_udev_data n))
      ])
        ≡ expected
            (suc fuel)
            n
            (known_first netlink_data (found_or (verdict (o.taken n)) (first_verdict fuel (n + 1))))
            runtime_data
  later_attempts fuel n netlink_data runtime_data ih =
      one_attempt fuel n netlink_data (read_runtime runtime_data (o.read_udev_data n)) (o.taken n)
        (λ nd. ih nd _)
      ∙ ap (outcome _) (read_runtime-first fuel n runtime_data)

  attempts-expected :
      (fuel n : ℕ) (netlink_data : Option Properties) (runtime_data : Option Text)
      → attempts o fuel n netlink_data runtime_data
        ≡ expected fuel n (known_first netlink_data (first_verdict fuel n)) runtime_data
  unfolding attempts first
  attempts-expected zero n none none = refl
  attempts-expected zero n none (some r) = refl
  attempts-expected zero n (some d) none = refl
  attempts-expected zero n (some d) (some r) = refl
  attempts-expected (suc fuel) n (some d) (some r) = refl
  attempts-expected (suc fuel) n (some d) none =
      later_attempts fuel n (some d) none (attempts-expected fuel (n + 1))
  attempts-expected (suc fuel) n none none =
      later_attempts fuel n none none (attempts-expected fuel (n + 1))
  attempts-expected (suc fuel) n none (some r) =
      later_attempts fuel n none (some r) (attempts-expected fuel (n + 1))

  -- The job waits for two things at once, for at most 50 attempts, and the end of its wait is what it
  -- would be if each were looked for on its own: it stops where the first entry of the store that
  -- tells anything says that the device is gone, and else it has the announcement of that entry and
  -- the first udev data that could be read, where there are such.
  pub wait_for_data-outcome :
      wait_for_data o
      ≡ outcome (first (λ i. verdict (o.taken i)) 50 1) (first o.read_udev_data 50 1)
  unfolding wait_for_data
  wait_for_data-outcome = attempts-expected 50 1 none none
