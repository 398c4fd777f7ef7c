-- ===== src/Jobs/Dispatcher/Order.antt =====
-- The order of jobs (vuinputd/src/job_engine/job.rs).
use mathlib.Core.List.{append_assoc, append-nil}
use vuinputd.Prelude.{
  ◌≡◌, ◌≢◌, refl, sym, ap, ◌∙◌, inl, inr, true, false, some, List, [], ◌∷◌, ◌++◌, if◌then◌else◌,
  arith, Bool-cases, Option-cases,
}
use vuinputd.Prelude.Dict
use vuinputd.Prelude.Dict.{Dict, Eq, get-insert}
use vuinputd.Jobs.Dispatcher
use vuinputd.Jobs.Dispatcher.{
  Job, JobTarget, background_loop, TargetLoop, new_loop, Dispatcher, target_beq, target_eq,
  target_beq_iff, dispatch, get_or_spawn_target_loop, spawn_dispatcher_loop, job_target_loop,
  jobs_for,
}

-- What can happen: a job is dispatched, the loop of the dispatcher receives one, or the loop of a
-- target takes one.
pub data Move (P A : Type 0) : Type 0 where
  dispatched : Job P A → Move P A
  routed : Move P A
  ran : JobTarget P → Move P A

module _ {P : Type 0} ⦃eq : Eq P⦄ where
  same : (u t : JobTarget P) → target_beq eq.beq u t ≡ true → u ≡ t
  same u t = (target_beq_iff eq.beq eq.beq_iff u t).0

  not_background :
      (t u : JobTarget P)
      → t ≢ background_loop
      → target_beq eq.beq u background_loop ≡ true
      → target_beq eq.beq u t ≡ false
  not_background t u h b = elim (Bool-cases (target_beq eq.beq u t)) [
    | inl e ↦ absurd (h (sym (same u t e) ∙ same u background_loop b))
    | inr e ↦ e
  ]

module _ {P A : Type 0} ⦃eq : Eq P⦄ where
  abbrev pub move : Move P A → Dispatcher P A → Dispatcher P A
  move (dispatched job) d = dispatch job d
  move routed d = spawn_dispatcher_loop d
  move (ran t) d = job_target_loop t d

  abbrev pub moves : List (Move P A) → Dispatcher P A → Dispatcher P A
  moves [] d = d
  moves (m ∷ ms) d = moves ms (move m d)

  -- The jobs that were dispatched, oldest first.
  abbrev pub all_dispatched : List (Move P A) → List (Job P A)
  all_dispatched [] = []
  all_dispatched (dispatched job ∷ ms) = job ∷ all_dispatched ms
  all_dispatched (routed ∷ ms) = all_dispatched ms
  all_dispatched (ran t ∷ ms) = all_dispatched ms

  abbrev in_order : JobTarget P → TargetLoop P A → List (Job P A) → List (Job P A)
  in_order t l channel = l.taken ++ (l.waiting ++ jobs_for t channel)

  -- All the jobs for a target that are anywhere, in the order in which they are taken.
  abbrev pub all_for : JobTarget P → Dispatcher P A → List (Job P A)
  all_for t d =
      let l = get_or_spawn_target_loop t d.targets in l.taken ++ (l.waiting ++ jobs_for t d.channel)

  pub jobs_for-append :
      (t : JobTarget P) (xs ys : List (Job P A))
      → jobs_for t (xs ++ ys) ≡ jobs_for t xs ++ jobs_for t ys
  unfolding jobs_for
  jobs_for-append t [] ys = refl
  jobs_for-append t (x ∷ xs) ys = ground (arith, jobs_for-append t xs ys)

  loop-insert :
      (j k : JobTarget P) (l : TargetLoop P A) (m : Dict (JobTarget P) (TargetLoop P A))
      → get_or_spawn_target_loop j (Dict.insert k l m)
        ≡ (if target_beq eq.beq k j then l else get_or_spawn_target_loop j m)
  loop-insert j k l m = ground (arith, get-insert j k l m)

  loop-insert_same :
      (j k : JobTarget P) (l : TargetLoop P A) (m : Dict (JobTarget P) (TargetLoop P A))
      → target_beq eq.beq k j ≡ true
      → get_or_spawn_target_loop j (Dict.insert k l m) ≡ l
  loop-insert_same j k l m e =
      loop-insert j k l m ∙ ap (λ b. if b then l else get_or_spawn_target_loop j m) e

  loop-insert_other :
      (j k : JobTarget P) (l : TargetLoop P A) (m : Dict (JobTarget P) (TargetLoop P A))
      → target_beq eq.beq k j ≡ false
      → get_or_spawn_target_loop j (Dict.insert k l m) ≡ get_or_spawn_target_loop j m
  loop-insert_other j k l m e =
      loop-insert j k l m ∙ ap (λ b. if b then l else get_or_spawn_target_loop j m) e

  dispatch-all :
      (t : JobTarget P) (job : Job P A) (d : Dispatcher P A)
      → all_for t (dispatch job d) ≡ all_for t d ++ jobs_for t (job ∷ [])
  unfolding dispatch
  dispatch-all t job d =
      let l = get_or_spawn_target_loop t d.targets in
      let x = jobs_for t (job ∷ []) in
      ap (λ zs. l.taken ++ (l.waiting ++ zs)) (jobs_for-append t d.channel (job ∷ []))
      ∙ (ap (λ zs. l.taken ++ zs) (sym (append_assoc l.waiting (jobs_for t d.channel) x))
          ∙ sym (append_assoc l.taken (l.waiting ++ jobs_for t d.channel) x))

  -- A job at the end of the queue of its target, instead of at the head of the channel.
  queued-order :
      (t : JobTarget P) (job : Job P A) (l : TargetLoop P A) (channel : List (Job P A))
      → target_beq eq.beq job.job_target t ≡ true
      → in_order t (record l { waiting = l.waiting ++ (job ∷ []) }) channel
        ≡ in_order t l (job ∷ channel)
  unfolding jobs_for
  queued-order t job l channel h =
      rw h (ap (λ zs. l.taken ++ zs) (append_assoc l.waiting (job ∷ []) (jobs_for t channel)))

  passed-order :
      (t : JobTarget P) (job : Job P A) (l : TargetLoop P A) (channel : List (Job P A))
      → target_beq eq.beq job.job_target t ≡ false
      → in_order t l channel ≡ in_order t l (job ∷ channel)
  unfolding jobs_for
  passed-order t job l channel h = rw h refl

  route_job-all :
      (t : JobTarget P) (job : Job P A) (d : Dispatcher P A)
      → t ≢ background_loop
      → all_for t (Dispatcher.route_job job d)
        ≡ in_order t (get_or_spawn_target_loop t d.targets) (job ∷ d.channel)
  unfolding Dispatcher.route_job
  route_job-all t job d h = elim (Bool-cases (target_beq eq.beq job.job_target background_loop)) [
    | inl b ↦
        rw (Dispatcher.route_job, b)
          (passed-order t job _ d.channel (not_background t job.job_target h b))
    | inr b ↦
        rw (Dispatcher.route_job, b)
          (elim (Bool-cases (target_beq eq.beq job.job_target t)) [
            | inl e ↦
                ap (λ l. in_order t l d.channel) (loop-insert_same t job.job_target _ d.targets e)
                ∙ (queued-order t job (get_or_spawn_target_loop job.job_target d.targets) d.channel
                      e
                    ∙ ap (λ u. in_order t (get_or_spawn_target_loop u d.targets) (job ∷ d.channel))
                        (same job.job_target t e))
            | inr e ↦
                ap (λ l. in_order t l d.channel) (loop-insert_other t job.job_target _ d.targets e)
                ∙ passed-order t job _ d.channel e
          ])
  ]

  take_next-order :
      (t : JobTarget P) (l : TargetLoop P A) (waiting : List (Job P A)) (channel : List (Job P A))
      → l.waiting ≡ waiting
      → in_order t (Dispatcher.take_next waiting l) channel ≡ in_order t l channel
  unfolding Dispatcher.take_next
  take_next-order t l [] channel h = refl
  take_next-order t l (job ∷ rest) channel h =
      append_assoc l.taken (job ∷ []) (rest ++ jobs_for t channel)
      ∙ sym (ap (λ zs. l.taken ++ (zs ++ jobs_for t channel)) h)

  loop-get :
      (s : JobTarget P) (l : TargetLoop P A) (m : Dict (JobTarget P) (TargetLoop P A))
      → Dict.get s m ≡ some l
      → get_or_spawn_target_loop s m ≡ l
  loop-get s l m g = rw (get_or_spawn_target_loop, g) refl

  run-all : (s t : JobTarget P) (d : Dispatcher P A) → all_for t (job_target_loop s d) ≡ all_for t d
  unfolding job_target_loop
  run-all s t d = elim (Option-cases (Dict.get s d.targets)) [
    | inl n ↦ rw (job_target_loop, n) refl
    | inr (l, g) ↦
        rw (job_target_loop, g)
          (elim (Bool-cases (target_beq eq.beq s t)) [
            | inl e ↦
                ap (λ u. in_order t u d.channel) (loop-insert_same t s _ d.targets e)
                ∙ (take_next-order t l l.waiting d.channel refl
                    ∙ ap (λ u. in_order t u d.channel)
                        (sym (loop-get s l d.targets g)
                          ∙ ap (λ u. get_or_spawn_target_loop u d.targets) (same s t e)))
            | inr e ↦ ap (λ u. in_order t u d.channel) (loop-insert_other t s _ d.targets e)
          ])
  ]

  route-all :
      (t : JobTarget P) (channel : List (Job P A)) (d : Dispatcher P A)
      → t ≢ background_loop
      → d.channel ≡ channel
      → all_for t (Dispatcher.route_next channel d) ≡ all_for t d
  unfolding Dispatcher.route_next
  route-all t [] d h e = refl
  route-all t (job ∷ rest) d h e =
      route_job-all t job (record d { channel = rest }) h
      ∙ ap (λ zs. in_order t (get_or_spawn_target_loop t d.targets) zs) (sym e)

  pub moves-all :
      (ms : List (Move P A)) (t : JobTarget P) (d : Dispatcher P A)
      → t ≢ background_loop
      → all_for t (moves ms d) ≡ all_for t d ++ jobs_for t (all_dispatched ms)
  unfolding spawn_dispatcher_loop jobs_for
  moves-all [] t d h = sym (append-nil _)
  moves-all (dispatched job ∷ ms) t d h =
      moves-all ms t _ h
      ∙ (ap (λ zs. zs ++ jobs_for t (all_dispatched ms)) (dispatch-all t job d)
          ∙ (append_assoc (all_for t d) (jobs_for t (job ∷ [])) _
              ∙ ap (λ zs. all_for t d ++ zs)
                  (sym (jobs_for-append t (job ∷ []) (all_dispatched ms)))))
  moves-all (routed ∷ ms) t d h =
      moves-all ms t _ h
      ∙ ap (λ zs. zs ++ jobs_for t (all_dispatched ms)) (route-all t d.channel d h refl)
  moves-all (ran s ∷ ms) t d h =
      moves-all ms t _ h ∙ ap (λ zs. zs ++ jobs_for t (all_dispatched ms)) (run-all s t d)
