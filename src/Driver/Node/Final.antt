-- ===== src/Driver/Node/Final.antt =====
-- node.go: which errors of ensureMounted are final. On a final code kubelet removes the staging path,
-- which a mount pod mounts from the host.
use retyc_k8s_csi.Prelude.{
  ℕ, zero, suc, String, Bool, true, false, not, Option, none, some, is_some, List, [], ◌∷◌, ◌==◌,
  if◌then◌else◌, Result, ok, err, Exec, raise, continue, ◌>>◌, ◌≡◌, ◌∙◌, ap, sym, refl, subst,
  arith,
}
use retyc_k8s_csi.Mountpod.Kube.{Host}
use retyc_k8s_csi.Mountpod.Spec.{Spec}
use retyc_k8s_csi.Mountpod.Pod.{
  Phase, no_phase, phase_absent, phase_pending, phase_running, phase_terminating, phase_exited,
  State,
}
use retyc_k8s_csi.Mountpod.Manager.{
  Failed, gave_up_error, invalid_spec, api_error, prepare_failed, bad_annotation, not_ready, ready,
}
use retyc_k8s_csi.Driver.Status.{Status, status, failed_precondition, aborted}
use retyc_k8s_csi.Driver.Recovery.{MountInfo, top_mount}
use retyc_k8s_csi.Driver.Node.{Claim, Calls, NodeServer, NodeState, manage, clear_gave_up, notify}
use retyc_k8s_csi.Driver.Node.Ensure.{
  stage_gave_up, report, recreated, recreate, restaged, restage, probed_ready, check_ready,
  published_at, config_changed, starting, by_state, after_ensure, ensure_rounds, ensure_mounted,
  is_terminating,
}
use retyc_k8s_csi.Driver.Node.Cause.{
  ensure_pod, delete_pod, at_first, Cause, not_yet, not_now, gave_up, invalid, mounted_elsewhere,
  FailsFrom, if-FailsFrom, later-FailsFrom,
}

module _ {W : Type 0} (calls : Calls W) (server : NodeServer) (spec : Spec) where
  check_ready-FailsFrom :
      (h : Host W) (st : State) (phase : Phase) (s : NodeState W)
      → FailsFrom calls server spec h (check_ready calls server st phase s)
  unfolding check_ready probed_ready manage
  check_ready-FailsFrom h st phase_running s =
      probed (ready calls.kube server.formats server.config st.pod s.host).0 _
    where
      probed :
          (r : Result Failed (Unit {0})) (s : NodeState W)
          → FailsFrom calls server spec h (probed_ready calls server r s)
      probed (ok u) s = tt
      probed (err e) s = not_yet
  check_ready-FailsFrom h st phase_pending s = not_yet
  check_ready-FailsFrom h st phase_exited s = not_yet
  check_ready-FailsFrom h st no_phase s = not_yet
  check_ready-FailsFrom h st phase_absent s = not_yet
  check_ready-FailsFrom h st phase_terminating s = not_yet

  -- A round, after an Ensure in `h` that answered `st`, with the rounds that follow.
  module _ (more : Exec Status (NodeState W) (Unit {0}))
      (next : (s : NodeState W) → FailsFrom calls server spec s.host (more s))
      (claim : Option Claim) (h : Host W) (st : State) where
    recreate-FailsFrom :
        (s : NodeState W)
        → ensure_pod calls server spec h ≡ (ok st, s.host)
        → FailsFrom calls server spec h ((recreate calls server spec >> more) s)
    unfolding recreate recreated manage report
    recreate-FailsFrom s asked =
        deleted (delete_pod calls server spec s.host).0
          (record s { host = (delete_pod calls server spec s.host).1 })
          (ap (λ x. (delete_pod calls server spec x.1).1) asked)
      where
        deleted :
            (r : Result Failed State) (u : NodeState W)
            → (delete_pod calls server spec (ensure_pod calls server spec h).1).1 ≡ u.host
            → FailsFrom calls server spec h
                (continue (recreated calls server r u).0 (λ _. more) (recreated calls server r u).1)
        deleted (err e) u same = not_now
        deleted (ok gone) u same = over (is_terminating gone.phase)
          where
            over :
                (b : Bool)
                → let x : Result Status (Unit {0}) × NodeState W =
                    if b then (err (status aborted), u) else (ok tt, report calls server gone u) in
                  FailsFrom calls server spec h (continue x.0 (λ _. more) x.1)
            over true = not_yet
            over false = later-FailsFrom calls server spec h (more (report calls server gone u)) (
                subst (λ k. FailsFrom calls server spec k (more (report calls server gone u)))
                  (sym same) (next (report calls server gone u)))

    restage-FailsFrom :
        (s : NodeState W)
        → ensure_pod calls server spec h ≡ (ok st, s.host)
        → (st.staging_path == spec.staging_path) ≡ false
        → FailsFrom calls server spec h ((restage calls server spec st >> more) s)
    unfolding restage restaged
    restage-FailsFrom s asked moved = of_table (calls.mount_info s.host.world) refl
      where
        of_top :
            (infos : List MountInfo) (top : Option MountInfo)
            → calls.mount_info s.host.world ≡ some infos
            → top_mount infos st.staging_path ≡ top
            → FailsFrom calls server spec h (
                ((if is_some top
                      then raise (status failed_precondition)
                      else recreate calls server spec)
                    >> more)
                  s)
        of_top infos none e f = recreate-FailsFrom s asked
        of_top infos (some top) e f = mounted_elsewhere at_first st infos top asked e f moved

        of_table :
            (o : Option (List MountInfo))
            → calls.mount_info s.host.world ≡ o
            → FailsFrom calls server spec h ((restaged calls server spec st o >> more) s)
        of_table none e = not_now
        of_table (some infos) e = of_top infos (top_mount infos st.staging_path) e refl

    config_changed-FailsFrom :
        (o : Option (List String)) (s : NodeState W)
        → ensure_pod calls server spec h ≡ (ok st, s.host)
        → FailsFrom calls server spec h (config_changed calls server more spec claim st o s)
    unfolding config_changed
    config_changed-FailsFrom none s asked = not_now
    config_changed-FailsFrom (some []) s asked = recreate-FailsFrom s asked
    config_changed-FailsFrom (some (b ∷ bs)) s asked = check_ready-FailsFrom h st st.phase _

    starting-FailsFrom :
        (s : NodeState W)
        → ensure_pod calls server spec h ≡ (ok st, s.host)
        → FailsFrom calls server spec h (starting calls server more spec claim st s)
    unfolding starting
    starting-FailsFrom s asked = by_path (st.staging_path == spec.staging_path) refl
      where
        changed : Result Status (Unit {0}) × NodeState W
        changed =
            config_changed calls server more spec claim st
              (published_at calls server spec.volume_id s.host.world) s

        by_path :
            (same : Bool)
            → (st.staging_path == spec.staging_path) ≡ same
            → FailsFrom calls server spec h (
                if not same
                then (restage calls server spec st >> more) s
                else if st.config_changed
                then changed
                else check_ready calls server st st.phase s)
        by_path false moved = restage-FailsFrom s asked moved
        by_path true same =
            if-FailsFrom calls server spec h st.config_changed changed
              (check_ready calls server st st.phase s) (config_changed-FailsFrom _ s asked)
              (check_ready-FailsFrom h st st.phase s)

    by_state-FailsFrom :
        (phase : Phase) (s : NodeState W)
        → ensure_pod calls server spec h ≡ (ok st, s.host)
        → FailsFrom calls server spec h (by_state calls server more spec claim st phase s)
    unfolding by_state
    by_state-FailsFrom phase_terminating s asked = recreate-FailsFrom s asked
    by_state-FailsFrom phase_pending s asked = starting-FailsFrom s asked
    by_state-FailsFrom phase_running s asked = starting-FailsFrom s asked
    by_state-FailsFrom phase_exited s asked = check_ready-FailsFrom h st phase_exited s
    by_state-FailsFrom no_phase s asked = check_ready-FailsFrom h st no_phase s
    by_state-FailsFrom phase_absent s asked = check_ready-FailsFrom h st phase_absent s

  stage_gave_up-host :
      (claim : Option Claim) (s : NodeState W)
      → (stage_gave_up calls server claim spec s).host ≡ s.host
  unfolding stage_gave_up notify
  stage_gave_up-host none s = ground arith
  stage_gave_up-host (some claim) s = ground arith

  after_ensure-FailsFrom :
      (more : Exec Status (NodeState W) (Unit {0}))
      → ((s : NodeState W) → FailsFrom calls server spec s.host (more s))
      → (claim : Option Claim) (h : Host W) (r : Result Failed State) (s : NodeState W)
      → ensure_pod calls server spec h ≡ (r, s.host)
      → FailsFrom calls server spec h (after_ensure calls server more spec claim r s)
  unfolding after_ensure clear_gave_up
  after_ensure-FailsFrom more next claim h (err (st, gave_up_error b)) s asked =
      gave_up at_first st b
        (asked ∙ ap (λ k. (err (st, gave_up_error b), k)) (sym (stage_gave_up-host claim s)))
  after_ensure-FailsFrom more next claim h (err (st, invalid_spec)) s asked =
      invalid at_first st asked
  after_ensure-FailsFrom more next claim h (err (st, api_error x)) s asked = not_now
  after_ensure-FailsFrom more next claim h (err (st, prepare_failed)) s asked = not_now
  after_ensure-FailsFrom more next claim h (err (st, bad_annotation)) s asked = not_now
  after_ensure-FailsFrom more next claim h (err (st, not_ready)) s asked = not_now
  after_ensure-FailsFrom more next claim h (ok st) s asked =
      by_state-FailsFrom more next claim h st st.phase _ asked

  ensure_rounds-FailsFrom :
      (rounds : ℕ) (claim : Option Claim) (s : NodeState W)
      → FailsFrom calls server spec s.host (ensure_rounds calls server rounds spec claim s)
  unfolding ensure_rounds manage
  ensure_rounds-FailsFrom zero claim s = not_yet
  ensure_rounds-FailsFrom (suc rounds) claim s =
      after_ensure-FailsFrom (ensure_rounds calls server rounds spec claim)
        (ensure_rounds-FailsFrom rounds claim) claim s.host (ensure_pod calls server spec s.host).0
        _ refl

  -- ensureMounted fails only with Aborted and Unavailable, which kubelet retries, and with the two final
  -- codes: with FailedPrecondition only if the last Ensure of the call answered that the volume gave up, or
  -- if it found a pod that mounts another staging path, on which something is still mounted; with
  -- InvalidArgument only if it answered that the spec is invalid. The Ensures of a call are its first one,
  -- and one after each Delete of the pod.
  pub ensure_mounted-Cause :
      (claim : Option Claim) (s t : NodeState W) (e : Status)
      → ensure_mounted calls server spec claim s ≡ (err e, t)
      → Cause calls server spec s.host e.code t
  unfolding ensure_mounted
  ensure_mounted-Cause claim s t e h =
      subst (FailsFrom calls server spec s.host) h (ensure_rounds-FailsFrom 4 claim s)
