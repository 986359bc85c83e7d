-- ===== src/Driver/Watch/Delays.antt =====
-- watch.go and recovery.go: when a repair is queued again.
use retyc_k8s_csi.Prelude.{
  ℕ, ◌+◌, ◌-◌, ◌≤◌, ◌<◌, leb, String, Bool, true, false, not, ◌&&◌, Option, none, some, List, [],
  ◌∷◌, All, is_some, nat_eq, if◌then◌else◌, Result, ok, err, ◌≡◌, ◌⊎◌, inl, inr, refl, arith,
  Bool-cases,
}
use retyc_k8s_csi.Mountpod.Spec.{Spec}
use retyc_k8s_csi.Mountpod.Pod.{
  Phase, no_phase, phase_absent, phase_pending, phase_running, phase_terminating, phase_exited,
  State,
}
use retyc_k8s_csi.Mountpod.Manager.{
  Failed, gave_up_error, invalid_spec, api_error, prepare_failed, bad_annotation, not_ready,
}
use retyc_k8s_csi.Driver.Recovery.{MountInfo}
use retyc_k8s_csi.Driver.Node.{Calls, NodeServer, NodeState, is_busy}
use retyc_k8s_csi.Driver.Node.Rebind.{RecoverError}
use retyc_k8s_csi.Driver.Node.Recover.{
  Recovered, min_retry_delay, is_down, retry_time, ensured, after_restart, restart_from, restart,
  when_ready, serve, repair_by, orphan_deleted, delete_orphan, with_table, is_absent, is_orphan,
  recover_found, recover_volume,
}
use retyc_k8s_csi.Driver.Watch.{
  QueueCall, add_rate_limited, done, forget, add_after, larger, outcome, repair, work,
}

module _ {W : Type 0} (calls : Calls W) (server : NodeServer) where
  -- The time to look again is none, or a second from the end of the repair at the soonest.
  abbrev IsLater : Recovered × NodeState W → Type 0
  IsLater x =
      (x.0.retry_at ≡ 0) ⊎ (calls.kube.clock x.1.host.world + min_retry_delay ≤ x.0.retry_at)

  if-IsLater :
      (b : Bool) (x y : Recovered × NodeState W)
      → IsLater x
      → IsLater y
      → IsLater (if b then x else y)
  if-IsLater true x y p q = p
  if-IsLater false x y p q = q

  ensured-IsLater :
      (nst : State) (failure : Option RecoverError) (s : NodeState W)
      → IsLater (ensured calls server nst failure s)
  unfolding ensured retry_time
  ensured-IsLater nst failure s = elim (Bool-cases (is_down nst.phase)) [
    | inr up ↦ inl (ground arith)
    | inl down ↦ inr (ground arith)
  ]

  after_restart-IsLater :
      (v : String) (st : State) (r : Result Failed State) (s : NodeState W)
      → IsLater (after_restart calls server v st r s)
  unfolding after_restart
  after_restart-IsLater v st (ok nst) s = ensured-IsLater nst none _
  after_restart-IsLater v st (err (nst, gave_up_error b)) s = inl refl
  after_restart-IsLater v st (err (nst, invalid_spec)) s = ensured-IsLater nst _ s
  after_restart-IsLater v st (err (nst, api_error e)) s = ensured-IsLater nst _ s
  after_restart-IsLater v st (err (nst, prepare_failed)) s = ensured-IsLater nst _ s
  after_restart-IsLater v st (err (nst, bad_annotation)) s = ensured-IsLater nst _ s
  after_restart-IsLater v st (err (nst, not_ready)) s = ensured-IsLater nst _ s

  restart-IsLater :
      (v : String) (st : State) (s : NodeState W) → IsLater (restart calls server v st s)
  unfolding restart restart_from
  restart-IsLater v st s = from _ _
    where
      from :
          (r : Result Failed Spec) (s : NodeState W) → IsLater (restart_from calls server v st r s)
      from (err e) s = inl refl
      from (ok spec) s = after_restart-IsLater v st _ _

  repair_by-IsLater :
      (v : String) (infos : List MountInfo) (st : State) (phase : Phase) (s : NodeState W)
      → IsLater (repair_by calls server v infos st phase s)
  unfolding repair_by serve when_ready
  repair_by-IsLater v infos st phase_running s = ready_or_not _ _
    where
      ready_or_not :
          (r : Result Failed (Unit {0})) (s : NodeState W)
          → IsLater (when_ready calls server v infos st r s)
      ready_or_not (err e) s = inl refl
      ready_or_not (ok u) s = inl refl
  repair_by-IsLater v infos st phase_exited s = restart-IsLater v st s
  repair_by-IsLater v infos st phase_terminating s = restart-IsLater v st s
  repair_by-IsLater v infos st phase_pending s = inl refl
  repair_by-IsLater v infos st no_phase s = inl refl
  repair_by-IsLater v infos st phase_absent s = inl refl

  delete_orphan-IsLater : (st : State) (s : NodeState W) → IsLater (delete_orphan calls server st s)
  unfolding delete_orphan orphan_deleted
  delete_orphan-IsLater st s = deleted _ _
    where
      deleted :
          (r : Result Failed State) (s : NodeState W) → IsLater (orphan_deleted calls server st r s)
      deleted (err e) s = inl refl
      deleted (ok dst) s = inl refl

  recover_volume-IsLater :
      (v : String) (staged : Bool) (s : NodeState W)
      → IsLater (recover_volume calls server v staged s)
  unfolding recover_volume recover_found with_table
  recover_volume-IsLater v staged s = of_pod _ _
    where
      of_table :
          (st : State) (o : Option (List MountInfo)) (s : NodeState W)
          → IsLater (with_table calls server v staged st o s)
      of_table st none s = inl refl
      of_table st (some infos) s =
          if-IsLater (not staged && is_busy (calls.now s.host.world) v s) _ _ (inl refl) (
            if-IsLater (not staged && is_orphan calls server v infos st s.host.world)
              (delete_orphan calls server st s) (repair_by calls server v infos st st.phase s)
              (delete_orphan-IsLater st s) (repair_by-IsLater v infos st st.phase s))

      of_pod :
          (r : Result Failed State) (s : NodeState W)
          → IsLater (recover_found calls server v staged r s)
      of_pod (err e) s = inl refl
      of_pod (ok st) s =
          if-IsLater (is_absent st.phase) _ (with_table calls server v staged st _ s) (inl refl)
            (of_table st _ s)

-- A call of the queue at a time `now`, for a repair that ended at another and asks to be looked at again
-- at `retry_at`: a delay of a second at least, that ends at `retry_at` or after it, and not later than
-- needed for both; and `retry_at` is a second from the end of the repair at the soonest.
abbrev pub IsPatient : ℕ → ℕ → ℕ → QueueCall → Type 0
IsPatient ended now retry_at (add_after v delay) =
    (ended + min_retry_delay ≤ retry_at)
    × (min_retry_delay ≤ delay)
    × (retry_at ≤ now + delay)
    × ((delay ≡ min_retry_delay) ⊎ (now + delay ≡ retry_at))
IsPatient ended now retry_at (add_rate_limited v) = Unit
IsPatient ended now retry_at (forget v) = Unit
IsPatient ended now retry_at (done v) = Unit

le_or_gt : (a b : ℕ) → (a ≤ b) ⊎ (b < a)
le_or_gt a b = elim (Bool-cases (leb a b)) [
  | inl e ↦ inl (ground arith)
  | inr e ↦ inr (ground arith)
]

module _ {W : Type 0} (calls : Calls W) (server : NodeServer) where
  -- The delay that a worker chooses, whatever time the clock shows by then.
  chosen-IsPatient :
      (v : String) (ended now retry_at : ℕ)
      → ended + min_retry_delay ≤ retry_at
      → IsPatient ended now retry_at (add_after v (larger (retry_at - now) min_retry_delay))
  chosen-IsPatient v ended now retry_at later = elim (le_or_gt (now + min_retry_delay) retry_at) [
    | inl early ↦ (later, ground arith, ground arith, inr (ground arith))
    | inr late ↦ (later, ground arith, ground arith, inl (ground arith))
  ]

  -- A worker that queues a volume for a later time does so for the time that recoverVolume asked for, which
  -- is a second from the end of the repair at the soonest, or for a second from its own look at the clock if
  -- that is later: whatever time passes in between.
  pub work-IsPatient :
      (meanwhile : NodeState W → NodeState W) (v : String) (s : NodeState W)
      → let (answer, t) = repair calls server v s in
        All
          (IsPatient
            (calls.kube.clock t.host.world)
            (calls.kube.clock (meanwhile t).host.world)
            answer.retry_at)
          (work calls server meanwhile v s).0
  unfolding work repair outcome
  work-IsPatient meanwhile v s =
      patient (recover_volume calls server v false s)
        (recover_volume-IsLater calls server v false s)
    where
      chosen :
          (failed again : Bool) (ended now retry_at delay : ℕ)
          → (again ≡ true → IsPatient ended now retry_at (add_after v delay))
          → All (IsPatient ended now retry_at) (
              if failed
              then add_rate_limited v ∷ done v ∷ []
              else if again
              then forget v ∷ add_after v delay ∷ done v ∷ []
              else forget v ∷ done v ∷ [])
      chosen true again ended now retry_at delay patience = (tt, (tt, tt))
      chosen false true ended now retry_at delay patience = (tt, (patience refl, (tt, tt)))
      chosen false false ended now retry_at delay patience = (tt, (tt, tt))

      patient :
          (x : Recovered × NodeState W)
          → IsLater calls server x
          → All
              (IsPatient
                (calls.kube.clock x.1.host.world)
                (calls.kube.clock (meanwhile x.1).host.world)
                x.0.retry_at)
              (outcome calls v x.0 (meanwhile x.1).host.world)
      patient (answer, t) later =
          let ended = calls.kube.clock t.host.world in
          let now = calls.kube.clock (meanwhile t).host.world in
          let delay = larger (answer.retry_at - now) min_retry_delay in
          chosen (is_some answer.failure) (not (nat_eq answer.retry_at 0)) ended now answer.retry_at
            delay (λ again. chosen-IsPatient v ended now answer.retry_at (ground arith))
