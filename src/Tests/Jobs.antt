-- ===== src/Tests/Jobs.antt =====
-- The jobs and their order.
use vuinputd.Prelude.{ℕ, ◌≡◌, refl, false, none, some, List, [], ◌∷◌, ◌==◌, if◌then◌else◌}
use vuinputd.Prelude.Dict.{nat_eq}
use vuinputd.Prelude.Text.{codes}
use vuinputd.Events.{Entry}
use vuinputd.Jobs.Emit.{Observed, wait_for_data, found}
use vuinputd.Jobs.Emit.Outcome.{wait_for_data-outcome, outcome, verdict, first}
use vuinputd.Jobs.Dispatcher.{Job, JobTarget, container}
use vuinputd.Jobs.Dispatcher.Order.{Move, dispatched, routed, ran}

abbrev entry : Entry
entry = record {
  syspath = codes "/sys/x";
  seqnum = 14499;
  add_data =
      some ((codes "ACTION", codes "add") ∷ (codes "DEVNAME", codes "/dev/input/event9") ∷ []);
  remove_data = none;
  add_processed = false;
  tombstone = false;
  last_update = 0;
}

-- The announcement comes with the third attempt, the udev data with the fifth.
abbrev observed : Observed
observed = record {
  taken = λ n. if n == 3 then some entry else none;
  read_udev_data = λ n. if n == 5 then some (codes "I:16\n") else none;
}

wait_for_data_example :
    wait_for_data observed
    ≡ outcome (first (λ i. verdict (observed.taken i)) 50 1) (first observed.read_udev_data 50 1)
wait_for_data_example = wait_for_data-outcome observed

waited : wait_for_data observed ≡ found entry.add_data (some (codes "I:16\n"))
unfolding wait_for_data
waited = refl

abbrev job : ℕ → ℕ → Job ℕ ℕ
job process task = record { job_target = container process; task = task }

abbrev busy : List (Move ℕ ℕ)
busy =
    dispatched (job 1 10)
    ∷ dispatched (job 2 20)
    ∷ routed
    ∷ dispatched (job 1 11)
    ∷ routed
    ∷ ran (container 2)
    ∷ routed
    ∷ ran (container 1)
    ∷ []

abbrev first_target : JobTarget ℕ
first_target = container 1
