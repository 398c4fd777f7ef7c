-- ===== src/Jobs/Awaiter/Threads.antt =====
-- The two threads of a request that waits for its job: the handler (UI_DEV_CREATE and UI_DEV_DESTROY
-- in vuinputd/src/cuse_device/vuinput_ioctl.rs) and the job (vuinputd/src/jobs/mknod_device_job.rs,
-- remove_device_job.rs), with the state that they share.
use vuinputd.Prelude.{◌≡◌, ◌≢◌, ◌⊎◌, inl, inr, refl, ap, ◌∙◌, true, false}
use vuinputd.Inject.{Ended, fine, panicked}
use vuinputd.Jobs.Emit.{State, initialized, started, finished}
use vuinputd.Jobs.Awaiter.{state_lt}

-- The handler is before the dispatch, in the awaiter, or behind its reply.
pub data HandlerAt : Type 0 where
  asking waiting replied : HandlerAt

-- The job is not dispatched, or dispatched, or its body has ended.
pub data JobAt : Type 0 where
  unborn queued : JobAt
  ended : Ended → JobAt

-- `W` is the system on which the job works.
pub record Threads (W : Type 0) : Type 0 where
  pub handler : HandlerAt
  pub job : JobAt
  pub sync_state : State
  pub world : W

abbrev pub begin : {W : Type 0} → W → Threads W
begin w = record { handler = asking; job = unborn; sync_state = initialized; world = w }

-- What a job does up to its last `set_state`, and what other programs may do to the system.
module _ {W : Type 0} (body : W → W × Ended) (Other : W → W → Type 0) where
  pub data Step : Threads W → Threads W → Type 0 where
    dispatch :
        (t : Threads W) → t.handler ≡ asking → Step t (record t { handler = waiting; job = queued })
    -- Only the job that removes sets this state.
    set_started : (t : Threads W) → t.job ≡ queued → Step t (record t { sync_state = started })
    run :
        (t : Threads W) (w : W) (e : Ended)
        → t.job ≡ queued
        → body t.world ≡ (w, e)
        → Step t (record t { job = ended e; world = w })
    set_finished :
        (t : Threads W) → t.job ≡ ended fine → Step t (record t { sync_state = finished })
    -- `cvar.wait` returns, and the loop of the awaiter goes on or ends.
    wake : (t : Threads W) → t.handler ≡ waiting → state_lt t.sync_state finished ≡ true → Step t t
    reply :
        (t : Threads W)
        → t.handler ≡ waiting
        → state_lt t.sync_state finished ≡ false
        → Step t (record t { handler = replied })
    other : (t : Threads W) (w : W) → Other t.world w → Step t (record t { world = w })

  pub data Reach (t : Threads W) : Threads W → Type 0 where
    here : Reach t t
    next : {u v : Threads W} → Reach t u → Step u v → Reach t v

  module _ (Placed : W → Type 0) where
    -- What ties the two threads together.
    pub record IsSound (t : Threads W) : Type 0 where
      pub set : t.sync_state ≡ finished → t.job ≡ ended fine
      pub placed : t.job ≡ ended fine → Placed t.world
      pub after : t.handler ≡ replied → t.sync_state ≡ finished
      pub before : t.handler ≡ asking → t.job ≡ unborn

    begin-IsSound : (w : W) → IsSound (begin w)
    begin-IsSound w = record {
      set = λ h. cc;
      placed = λ h. cc;
      after = λ h. cc;
      before = λ h. refl;
    }

    ended-inj : {e : Ended} → ended e ≡ ended fine → e ≡ fine
    ended-inj h = cc

    at_end : (s : State) → state_lt s finished ≡ false → s ≡ finished
    at_end initialized h = cc
    at_end started h = cc
    at_end finished h = refl

    Step-IsSound :
        {t u : Threads W}
        → ((w w' : W) → body w ≡ (w', fine) → Placed w')
        → ((w w' : W) → Other w w' → Placed w → Placed w')
        → Step t u
        → IsSound t
        → IsSound u
    Step-IsSound places keeps (dispatch t a) s = record {
      set = λ h. (let b = s.set h in let c = s.before a in cc);
      placed = λ h. cc;
      after = λ h. cc;
      before = λ h. cc;
    }
    Step-IsSound places keeps (set_started t q) s = record {
      set = λ h. cc;
      placed = s.placed;
      after = λ h. (let b = s.set (s.after h) in cc);
      before = s.before;
    }
    Step-IsSound places keeps (run t w e q b) s = record {
      set = λ h. (let c = s.set h in cc);
      placed = λ h. places t.world w (b ∙ ap (λ x. (w, x)) (ended-inj h));
      after = s.after;
      before = λ h. (let c = s.before h in cc);
    }
    Step-IsSound places keeps (set_finished t f) s = record {
      set = λ h. f;
      placed = s.placed;
      after = λ h. refl;
      before = s.before;
    }
    Step-IsSound places keeps (wake t a l) s = s
    Step-IsSound places keeps (reply t a l) s = record {
      set = s.set;
      placed = s.placed;
      after = λ h. at_end t.sync_state l;
      before = λ h. cc;
    }
    Step-IsSound places keeps (other t w o) s = record {
      set = s.set;
      placed = λ h. keeps t.world w o (s.placed h);
      after = s.after;
      before = s.before;
    }

    pub Reach-IsSound :
        {w : W} {t : Threads W}
        → ((w w' : W) → body w ≡ (w', fine) → Placed w')
        → ((w w' : W) → Other w w' → Placed w → Placed w')
        → Reach (begin w) t
        → IsSound t
    Reach-IsSound {w} places keeps here = begin-IsSound w
    Reach-IsSound places keeps (next r st) =
        Step-IsSound places keeps st (Reach-IsSound places keeps r)

    -- A job that panicked has ended for good.
    Step-panicked :
        {t u : Threads W} → Step t u → IsSound t → t.job ≡ ended panicked → u.job ≡ ended panicked
    Step-panicked (dispatch t a) s p = let c = s.before a in cc
    Step-panicked (set_started t q) s p = p
    Step-panicked (run t w e q b) s p = cc
    Step-panicked (set_finished t f) s p = p
    Step-panicked (wake t a l) s p = p
    Step-panicked (reply t a l) s p = p
    Step-panicked (other t w o) s p = p

    pub Reach-panicked :
        {t u : Threads W}
        → ((w w' : W) → body w ≡ (w', fine) → Placed w')
        → ((w w' : W) → Other w w' → Placed w → Placed w')
        → Reach t u
        → IsSound t
        → t.job ≡ ended panicked
        → IsSound u × (u.job ≡ ended panicked)
    Reach-panicked places keeps here s p = (s, p)
    Reach-panicked places keeps (next r st) s p =
        let (s', p') = Reach-panicked places keeps r s p in
        (Step-IsSound places keeps st s', Step-panicked st s' p')

    pub panicked-replied :
        {t : Threads W} → IsSound t → t.job ≡ ended panicked → t.handler ≢ replied
    panicked-replied s p h = let f = s.set (s.after h) in cc

  -- That the job has ended well, or would if it were run now.
  abbrev pub CanEnd : Threads W → Type 0
  CanEnd t = (t.job ≡ ended fine) ⊎ ((t.job ≡ queued) × (w : W) × (body t.world ≡ (w, fine)))

  pub replies :
      (t : Threads W)
      → t.handler ≡ waiting
      → CanEnd t
      → (u : Threads W) × Reach t u × (u.handler ≡ replied)
  replies t a (inl f) = (
    record t { handler = replied; sync_state = finished },
    next (next here (set_finished t f)) (reply (record t { sync_state = finished }) a refl),
    refl,
  )
  replies t a (inr (q, w, b)) =
      let t₁ : Threads W = record t { job = ended fine; world = w } in
      let t₂ : Threads W = record t₁ { sync_state = finished } in
      (
        record t₂ { handler = replied },
        next (next (next here (run t w fine q b)) (set_finished t₁ refl)) (reply t₂ a refl),
        refl,
      )
