-- ===== src/Driver/Node/Busy.antt =====
-- node.go: the busy marks, which keep the recovery away from a volume between two of kubelet's retries:
-- what a stage and an unstage do under their lock leaves the marks as they are.
pub mod Marks
use retyc_k8s_csi.Prelude.{
  ℕ, zero, suc, String, Bool, true, false, not, ◌||◌, Option, none, some, is_some, List, [], ◌∷◌,
  Dict, lookup, insert, delete, lookup-insert, lookup-insert_self, lookup-delete, ◌==◌,
  if◌then◌else◌, Result, ok, err, Exec, pure, raise, ◌>>=◌, ◌>>◌, continue, Stays, continue-Stays,
  bind-Stays, if-Stays, ◌≡◌, ◌≢◌, refl, sym, ◌∙◌, ap, subst, arith, eq_iff, ==_refl, Bool-cases,
  inl, inr, Option-cases, nat_eq,
}
use retyc_k8s_csi.Identity.{Credentials, IdentityError, from_secrets}
use retyc_k8s_csi.Mountpod.Kube.{Host}
use retyc_k8s_csi.Mountpod.Spec.{Spec}
use retyc_k8s_csi.Mountpod.Pod.{
  Phase, no_phase, phase_absent, phase_pending, phase_running, phase_terminating, phase_exited,
  State,
}
use retyc_k8s_csi.Mountpod.Manager.{
  Failed, gave_up_error, invalid_spec, api_error, prepare_failed, bad_annotation, not_ready, ready,
}
use retyc_k8s_csi.Mountpod.Manager.Ensure.{ensure}
use retyc_k8s_csi.Mountpod.Manager.Delete.{delete_mount}
use retyc_k8s_csi.Mount.{MountError, MountState, mount_state, unpublish}
use retyc_k8s_csi.Driver.Status.{Code, Status, status, aborted, invalid_argument}
use retyc_k8s_csi.Driver.Recovery.{MountInfo, top_mount, mount_source}
use retyc_k8s_csi.Driver.Node.{
  Claim, Calls, NodeServer, NodeState, manage, on_mounts, is_aborted, mark_busy, clear_busy,
  while_busy, clear_gave_up, Notice, notify, gave_up_notice, config_changed_notice,
}
use retyc_k8s_csi.Driver.Node.StageSpec.{
  StageRequest, stage_spec, read_claim, own_identity, identity_of, complete, is_complete,
}
use retyc_k8s_csi.Driver.Node.Ensure.{
  report, report_early, stage_gave_up, recreated, recreate, restaged, restage, probed_ready,
  check_ready, published_at, config_changed, starting, by_state, after_ensure, ensure_rounds,
  ensure_mounted, is_terminating,
}
use retyc_k8s_csi.Driver.Node.Stage.{
  is_supported, answers, top_is, staged_in, check_staged, stage, node_stage_volume, unpublished,
  forget_volume, after_pod, stopped, unstage, node_unstage_volume,
}

module _ {W : Type 0} (calls : Calls W) (server : NodeServer) (marks : Dict ℕ) where
  -- The marks are as given.
  abbrev pub Marked : NodeState W → Type 0
  Marked s = s.busy ≡ marks

  manage-Stays : {A : Type 0} (m : Exec Failed (Host W) A) → Stays {E = Status} Marked (manage m)
  unfolding manage
  manage-Stays m s p = p

  on_mounts-Stays : {F A : Type 0} (m : Exec F W A) → Stays {E = Status} Marked (on_mounts m)
  unfolding on_mounts
  on_mounts-Stays m s p = p

  read_claim-Stays :
      (name namespace : String) → Stays Marked (read_claim calls server name namespace)
  unfolding read_claim
  read_claim-Stays name namespace s p =
      if-Stays Marked (name == "" || namespace == "") _ _ p
        (if-Stays Marked server.has_kube _ _ p p)

  identity_of-Stays :
      (v : String) (claim : Option Claim) (r : Result IdentityError (Option Credentials))
      → Stays Marked (identity_of calls server v claim r)
  unfolding identity_of own_identity
  identity_of-Stays v claim (err e) s p = p
  identity_of-Stays v claim (ok (some creds)) s p = p
  identity_of-Stays v claim (ok none) s p =
      if-Stays Marked server.has_kube _ _
        (continue-Stays Marked _ (λ _. pure server.default_credentials) (λ _ x q. q) _ p) p

  stage_spec-Stays : (req : StageRequest) → Stays Marked (stage_spec calls server req)
  unfolding stage_spec
  stage_spec-Stays req =
      bind-Stays Marked (read_claim calls server _ _) _ (read_claim-Stays _ _) λ claim.
        bind-Stays Marked (λ s. (_, s)) _ (λ s p. p)
          λ ms.
            bind-Stays Marked (identity_of calls server _ _ _) _ (identity_of-Stays _ _ _)
              λ creds. bind-Stays Marked (λ s. (complete creds, s)) _ (λ s p. p) λ whole s p. p

  recreated-Stays : (r : Result Failed State) → Stays Marked (recreated calls server r)
  unfolding recreated report
  recreated-Stays (err e) s p = p
  recreated-Stays (ok st) s p =
      if-Stays Marked (is_terminating st.phase) (err (status aborted), s)
        (ok tt, report calls server st s) p p

  recreate-Stays : (spec : Spec) → Stays Marked (recreate calls server spec)
  unfolding recreate
  recreate-Stays spec =
      bind-Stays Marked (manage _) (recreated calls server) (manage-Stays _) recreated-Stays

  restage-Stays : (spec : Spec) (st : State) → Stays Marked (restage calls server spec st)
  unfolding restage restaged
  restage-Stays spec st s p = restaged-Stays (calls.mount_info s.host.world) s p
    where
      restaged-Stays :
          (o : Option (List MountInfo)) → Stays Marked (restaged calls server spec st o)
      restaged-Stays none s p = p
      restaged-Stays (some infos) s p =
          elim (Bool-cases (is_some (top_mount infos st.staging_path))) [
            | inl t ↦ rw t p
            | inr t ↦ rw t (recreate-Stays spec s p)
          ]

  check_ready-Stays :
      (st : State) (phase : Phase) → Stays Marked (check_ready calls server st phase)
  unfolding check_ready probed_ready report_early
  check_ready-Stays st phase_running s p =
      bind-Stays Marked (manage _) (probed_ready calls server) (manage-Stays _) probed-Stays s p
    where
      probed-Stays : (r : Result Failed (Unit {0})) → Stays Marked (probed_ready calls server r)
      probed-Stays (ok u) s p = p
      probed-Stays (err e) s p = p
  check_ready-Stays st phase_pending s p = p
  check_ready-Stays st phase_exited s p = p
  check_ready-Stays st no_phase s p = p
  check_ready-Stays st phase_absent s p = p
  check_ready-Stays st phase_terminating s p = p

  notify-Marked :
      (claim : Option Claim) (n : Notice) (s : NodeState W) → Marked s → Marked (notify claim n s)
  unfolding notify
  notify-Marked none n s p = p
  notify-Marked (some claim) n s p = p

  module _ (again : Exec Status (NodeState W) (Unit {0})) (next : Stays Marked again) (spec : Spec)
      (claim : Option Claim) where
    config_changed-Stays :
        (st : State) (o : Option (List String))
        → Stays Marked (config_changed calls server again spec claim st o)
    unfolding config_changed
    config_changed-Stays st none s p = p
    config_changed-Stays st (some []) s p =
        bind-Stays Marked (recreate calls server spec) (λ _. again) (recreate-Stays spec)
          (λ _. next) s p
    config_changed-Stays st (some (b ∷ bs)) s p =
        check_ready-Stays st st.phase _ (notify-Marked claim _ s p)

    starting-Stays : (st : State) → Stays Marked (starting calls server again spec claim st)
    unfolding starting
    starting-Stays st s p =
        let moved = (restage calls server spec st >> again) s in
        let changed =
          config_changed calls server again spec claim st
            (published_at calls server spec.volume_id s.host.world) s in
        let same = check_ready calls server st st.phase s in
        if-Stays Marked (not (st.staging_path == spec.staging_path)) moved
          (if st.config_changed then changed else same)
          (bind-Stays Marked (restage calls server spec st) (λ _. again) (restage-Stays spec st)
            (λ _. next) s p)
          (if-Stays Marked st.config_changed changed same (config_changed-Stays st _ s p)
            (check_ready-Stays st st.phase s p))

    by_state-Stays :
        (st : State) (phase : Phase)
        → Stays Marked (by_state calls server again spec claim st phase)
    unfolding by_state
    by_state-Stays st phase_terminating =
        bind-Stays Marked (recreate calls server spec) (λ _. again) (recreate-Stays spec)
          (λ _. next)
    by_state-Stays st phase_pending = starting-Stays st
    by_state-Stays st phase_running = starting-Stays st
    by_state-Stays st phase_exited = check_ready-Stays st phase_exited
    by_state-Stays st no_phase = check_ready-Stays st no_phase
    by_state-Stays st phase_absent = check_ready-Stays st phase_absent

    after_ensure-Stays :
        (r : Result Failed State) → Stays Marked (after_ensure calls server again spec claim r)
    unfolding after_ensure stage_gave_up clear_gave_up
    after_ensure-Stays (err (st, gave_up_error b)) s p =
        elim (Bool-cases (is_some (lookup spec.volume_id s.gave_up))) [
          | inl seen ↦ rw seen p
          | inr first ↦ rw first (notify-Marked claim _ _ p)
        ]
    after_ensure-Stays (err (st, invalid_spec)) s p = p
    after_ensure-Stays (err (st, api_error e)) s p = p
    after_ensure-Stays (err (st, prepare_failed)) s p = p
    after_ensure-Stays (err (st, bad_annotation)) s p = p
    after_ensure-Stays (err (st, not_ready)) s p = p
    after_ensure-Stays (ok st) s p = by_state-Stays st st.phase _ p

  ensure_rounds-Stays :
      (rounds : ℕ) (spec : Spec) (claim : Option Claim)
      → Stays Marked (ensure_rounds calls server rounds spec claim)
  unfolding ensure_rounds
  ensure_rounds-Stays zero spec claim s p = p
  ensure_rounds-Stays (suc rounds) spec claim s p =
      bind-Stays Marked (manage _) (after_ensure calls server _ spec claim) (manage-Stays _)
        (after_ensure-Stays _ (ensure_rounds-Stays rounds spec claim) spec claim) s p

  check_staged-Stays : (v staging : String) → Stays Marked (check_staged calls server v staging)
  unfolding check_staged staged_in top_is answers
  check_staged-Stays v staging s p = in_table (calls.mount_info s.host.world) s p
    where
      answers-Stays : (r : Result MountError MountState) → Stays Marked (answers calls server r)
      answers-Stays (err e) s p = p
      answers-Stays (ok m) s p = elim (Bool-cases m.corrupted) [ inl t ↦ rw t p | inr t ↦ rw t p ]

      on_top : (top : Option MountInfo) → Stays Marked (top_is calls server v staging top)
      on_top none s p = p
      on_top (some top) s p = elim (Bool-cases (top.source == mount_source v)) [
        | inl t ↦ rw t (
            bind-Stays Marked (on_mounts _) (answers calls server) (on_mounts-Stays _) answers-Stays
              s p)
        | inr t ↦ rw t p
      ]

      in_table : (o : Option (List MountInfo)) → Stays Marked (staged_in calls server v staging o)
      in_table none s p = p
      in_table (some infos) s p = on_top (top_mount infos staging) s p

  pub stage-Stays : (req : StageRequest) → Stays Marked (stage calls server req)
  unfolding stage ensure_mounted clear_gave_up
  stage-Stays req =
      bind-Stays Marked (stage_spec calls server req) _ (stage_spec-Stays req) λ (spec, claim).
        bind-Stays Marked (ensure_mounted calls server spec claim >> check_staged calls server _ _)
          _
          (bind-Stays Marked (ensure_mounted calls server spec claim) _
            (ensure_rounds-Stays _ spec claim) (λ _. check_staged-Stays _ _))
          (λ _ s p. p)

  pub unstage-Stays : (v staging : String) → Stays Marked (unstage calls server v staging)
  unfolding unstage stopped after_pod clear_gave_up forget_volume unpublished report
  unstage-Stays v staging =
      bind-Stays Marked (manage _) (stopped calls server v staging) (manage-Stays _) stopped-Stays
    where
      unpublished-Stays :
          (r : Result MountError (Unit {0})) → Stays Marked (unpublished calls server r)
      unpublished-Stays (ok u) s p = p
      unpublished-Stays (err e) s p = p

      after_pod-Stays : (st : State) → Stays Marked (after_pod calls server v staging st)
      after_pod-Stays st s p =
          bind-Stays Marked (on_mounts _) (unpublished calls server) (on_mounts-Stays _)
            unpublished-Stays _ p

      stopped-Stays : (r : Result Failed State) → Stays Marked (stopped calls server v staging r)
      stopped-Stays (err e) s p = p
      stopped-Stays (ok st) s p =
          if-Stays Marked (is_terminating st.phase) (err (status aborted), s)
            (after_pod calls server v staging st s) p (after_pod-Stays st s p)
