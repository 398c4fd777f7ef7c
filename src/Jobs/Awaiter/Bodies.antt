-- ===== src/Jobs/Awaiter/Bodies.antt =====
-- The bodies of the two jobs that a handler waits for, with the states that they set on their way
-- (vuinputd/src/jobs/mknod_device_job.rs, remove_device_job.rs).
use vuinputd.Prelude.{ℕ, ◌≡◌, ◌↔◌, refl, ap, sym, ◌∙◌, true, false, List, [], ◌∷◌, ◌++◌, arith}
use vuinputd.Prelude.Text.{Text}
use vuinputd.Inject.{System, Step, Ended, fine, failed, panicked, ◌then?◌, unwrap, go_on}
use vuinputd.Inject.Strategy.{Injector}
use vuinputd.Process.{RequestingProcess}
use vuinputd.Jobs.Emit.{State, initialized, started, finished}
use vuinputd.Jobs.Remove.{
  Removal, never_announced, already_removed, no_announcement, remove_with, mknod_device,
  remove_device,
}
use vuinputd.Jobs.Awaiter.{Wake, awaiter, awaiter-reached, states_set, reached}

-- A call that changes the world and sets no state.
abbrev on_world : {W : Type 0} → Step W → Step (W × List State)
on_world m (w, states) = let (w', e) = m w in ((w', states), e)

-- `self.set_state(&new_state)`
abbrev set_state : {W : Type 0} → State → Step (W × List State)
set_state new_state (w, states) = ((w, states ++ (new_state ∷ [])), fine)

module _ (S : System) (injector : Injector S) (p : RequestingProcess) (name : Text)
    (major minor : ℕ) where
  -- `MknodDeviceJob::mknod_device`, over the world and the states that it has set.
  unfoldable pub mknod_body : Step (S.World × List State)
  mknod_body =
      on_world (unwrap (injector.mknod_device_node p name major minor)) then? set_state finished

  -- The ways out of `RemoveDeviceJob::remove_device` once it has looked at the store.
  removal_body : Removal → Step (S.World × List State)
  removal_body never_announced = set_state finished
  removal_body already_removed = set_state finished
  removal_body no_announcement = λ w. (w, panicked)
  removal_body (remove_with netlink_data) =
      on_world (unwrap (injector.remove_device_node p name major minor))
      then? on_world (unwrap (injector.remove_udev_runtime_data p major minor))
      then? on_world (unwrap (injector.emit_netlink_message p netlink_data))
      then? set_state finished

  -- `RemoveDeviceJob::remove_device`
  unfoldable pub remove_body : Removal → Step (S.World × List State)
  unfolding removal_body
  remove_body removal = set_state started then? removal_body removal

-- What a body has set behind `before`, by how it ends.
abbrev set_by : Ended → List State → List State
set_by fine before = before ++ (finished ∷ [])
set_by failed before = before
set_by panicked before = before

abbrev Ends : {W : Type 0} → List State → Step (W × List State) → Step W → Type 0
Ends {W} before m n = (w : W) → m (w, before) ≡ (((n w).0, set_by (n w).1 before), (n w).1)

-- The end of a body, from what its last call gave.
finish-set_by :
    {W : Type 0} (before : List State) (r : W × Ended)
    → go_on ((r.0, before), r.1) (set_state finished) ≡ ((r.0, set_by r.1 before), r.1)
finish-set_by before (w, fine) = refl
finish-set_by before (w, failed) = refl
finish-set_by before (w, panicked) = refl

-- Calls that set no state, one after the other.
on_world-go_on :
    {W : Type 0} (n : Step W) (before : List State) (r : W × Ended)
    → go_on ((r.0, before), r.1) (on_world n) ≡ (((go_on r n).0, before), (go_on r n).1)
on_world-go_on n before (w, fine) = refl
on_world-go_on n before (w, failed) = refl
on_world-go_on n before (w, panicked) = refl

three-Ends :
    {W : Type 0} (a b c : Step W) (before : List State)
    → Ends before
        (on_world a then? on_world b then? on_world c then? set_state finished)
        (a then? b then? c)
three-Ends a b c before w =
    ap (λ x. go_on (go_on x (on_world c)) (set_state finished)) (on_world-go_on b before (a w))
    ∙ ap (λ x. go_on x (set_state finished)) (on_world-go_on c before (go_on (a w) b))
    ∙ finish-set_by before (go_on (go_on (a w) b) c)

module _ (S : System) (injector : Injector S) (p : RequestingProcess) (name : Text)
    (major minor : ℕ) where
  mknod_body-Ends :
      (before : List State)
      → Ends before
          (mknod_body S injector p name major minor)
          (mknod_device S injector p name major minor)
  unfolding mknod_body mknod_device
  mknod_body-Ends before w =
      finish-set_by before (unwrap (injector.mknod_device_node p name major minor) w)

  remove_body-Ends :
      (removal : Removal)
      → (w : S.World)
      → remove_body S injector p name major minor removal (w, []) ≡ (
        (
          (remove_device S injector p name major minor removal w).0,
          set_by (remove_device S injector p name major minor removal w).1 (started ∷ []),
        ),
        (remove_device S injector p name major minor removal w).1,
      )
  unfolding remove_body remove_device
  remove_body-Ends never_announced w = refl
  remove_body-Ends already_removed w = refl
  remove_body-Ends no_announcement w = refl
  remove_body-Ends (remove_with netlink_data) w =
      three-Ends (unwrap (injector.remove_device_node p name major minor))
        (unwrap (injector.remove_udev_runtime_data p major minor))
        (unwrap (injector.emit_netlink_message p netlink_data)) (started ∷ []) w

reached-set_by :
    (e : Ended) (before : List State)
    → reached finished before ≡ false
    → (reached finished (set_by e before) ≡ true) ↔ (e ≡ fine)
reached-set_by fine before h = (λ _. refl, λ _. passed before)
  where
    passed : (before : List State) → reached finished (before ++ (finished ∷ [])) ≡ true
    passed [] = refl
    passed (s ∷ ss) = ground (arith, passed ss)
reached-set_by failed before h = (λ t. cc, λ t. cc)
reached-set_by panicked before h = (λ t. cc, λ t. cc)

-- A job that has set the states of `set_by` when it ended.
awaiter-set_by :
    (before : List State) (e : Ended) (ws : List Wake)
    → reached finished before ≡ false
    → states_set ws ≡ set_by e before
    → (awaiter finished initialized ws ≡ true) ↔ (e ≡ fine)
awaiter-set_by before e ws b h =
    let same : awaiter finished initialized ws ≡ reached finished (set_by e before) =
      awaiter-reached finished initialized ws ∙ ap (reached finished) h in
    (λ t. (reached-set_by e before b).0 (sym same ∙ t), λ f. same ∙ (reached-set_by e before b).1 f)

module _ (S : System) (injector : Injector S) (p : RequestingProcess) (name : Text)
    (major minor : ℕ) where
  -- The awaiter of a handler, which wakes up for each state that its job has set and at any time for
  -- no reason: for the making of a node as for a removal, whatever the removal finds in the store, it
  -- returns exactly if the job comes to its end, so that it waits for ever if the job panics.
  pub handler_waits :
      (removal : Removal) (w : S.World) (ws vs : List Wake)
      → states_set ws ≡ (mknod_body S injector p name major minor (w, [])).0.1
      → states_set vs ≡ (remove_body S injector p name major minor removal (w, [])).0.1
      → ((awaiter finished initialized ws ≡ true)
          ↔ ((mknod_body S injector p name major minor (w, [])).1 ≡ fine))
        × ((awaiter finished initialized vs ≡ true)
            ↔ ((remove_body S injector p name major minor removal (w, [])).1 ≡ fine))
  handler_waits removal w ws vs made removed =
      let m = mknod_body-Ends S injector p name major minor [] w in
      let r = remove_body-Ends S injector p name major minor removal w in
      (
        rw m (awaiter-set_by [] _ ws refl (made ∙ ap (λ x. x.0.1) m)),
        rw r (awaiter-set_by (started ∷ []) _ vs refl (removed ∙ ap (λ x. x.0.1) r)),
      )

  -- The jobs of the other theorems do to the world what the bodies do, and end like them.
  bodies_agree :
      (removal : Removal) (w : S.World)
      → ((mknod_body S injector p name major minor (w, [])).0.0
          ≡ (mknod_device S injector p name major minor w).0)
        × ((remove_body S injector p name major minor removal (w, [])).0.0
            ≡ (remove_device S injector p name major minor removal w).0)
  bodies_agree removal w = (
    ap (λ x. x.0.0) (mknod_body-Ends S injector p name major minor [] w),
    ap (λ x. x.0.0) (remove_body-Ends S injector p name major minor removal w),
  )
