-- ===== src/Driver/Node/Ensure.antt =====
-- node.go: ensureMounted and its helpers. Every error is final for kubelet but Unavailable and Aborted.
use Prim.Native.String
use retyc_k8s_csi.Prelude.{
  ℕ, zero, suc, String, Bool, true, false, not, Option, none, some, List, [], ◌∷◌, lookup, insert,
  is_some, ◌==◌, if◌then◌else◌, Result, ok, err, Exec, pure, raise, ◌>>=◌, ◌>>◌,
}
use retyc_k8s_csi.Retyc.Codes.{codes, has_prefix}
use retyc_k8s_csi.Mountpod.Pod.{
  Phase, no_phase, phase_absent, phase_pending, phase_running, phase_terminating, phase_exited,
  State,
}
use retyc_k8s_csi.Mountpod.Spec.{Config, Formats, Spec}
use retyc_k8s_csi.Mountpod.Manager.{
  gave_up_error, invalid_spec, api_error, prepare_failed, bad_annotation, not_ready, Failed, ready,
}
use retyc_k8s_csi.Mountpod.Manager.Ensure.{ensure}
use retyc_k8s_csi.Mountpod.Manager.Delete.{delete_mount}
use retyc_k8s_csi.Driver.Status.{
  Status, status, Code, invalid_argument, failed_precondition, unavailable, aborted,
}
use retyc_k8s_csi.Driver.Recovery.{MountInfo, top_mount, binds}
use retyc_k8s_csi.Driver.Exits.{report_exit, report_exit_early}
use retyc_k8s_csi.Driver.Node.{
  Claim, Calls, NodeServer, gave_up_notice, config_changed_notice, NodeState, manage, clear_gave_up,
  notify,
}

-- isTarget
unfoldable pub is_target : Formats → Config → String → Bool
is_target f cfg mount_point =
    has_prefix (codes mount_point) (codes (String.◌++◌ (f.join cfg.kubelet_dir "pods") "/"))

abbrev pub max_ensure_rounds : ℕ
max_ensure_rounds = 4

abbrev pub is_terminating : Phase → Bool
is_terminating phase_terminating = true
is_terminating _ = false

abbrev pub is_starting : Phase → Bool
is_starting phase_pending = true
is_starting phase_running = true
is_starting _ = false

module _ {W : Type 0} (calls : Calls W) (server : NodeServer) where
  abbrev pub refuse : {A : Type 0} → Code → Exec Status (NodeState W) A
  refuse code = raise (status code)

  -- reportExit and reportExitEarly
  unfoldable pub report : State → NodeState W → NodeState W
  report st s = record s { reports = report_exit st s.reports }

  unfoldable pub report_early : State → NodeState W → NodeState W
  report_early st s = record s { reports = report_exit_early st s.reports }

  -- stageGaveUp: one notice until the give-up is cleared, and the time of the last stage.
  unfoldable pub stage_gave_up : Option Claim → Spec → NodeState W → NodeState W
  stage_gave_up claim spec s =
      let seen = record s {
        gave_up = insert spec.volume_id (calls.kube.clock s.host.world) s.gave_up;
      } in
      if is_some (lookup spec.volume_id s.gave_up)
      then seen
      else notify claim (gave_up_notice spec.volume_id) seen

  -- recreate, of what Delete answers.
  unfoldable pub recreated : Result Failed State → Exec Status (NodeState W) (Unit {0})
  recreated (err e) s = (err (status unavailable), s)
  recreated (ok st) s =
      let gone = report st s in
      if is_terminating st.phase then (err (status aborted), s) else (ok tt, gone)

  unfoldable pub recreate : Spec → Exec Status (NodeState W) (Unit {0})
  recreate spec =
      manage (delete_mount calls.kube server.formats server.config spec.node_name spec.volume_id)
      >>= recreated

  -- restage, of what the mount table says.
  unfoldable pub restaged :
      Spec → State → Option (List MountInfo) → Exec Status (NodeState W) (Unit {0})
  restaged spec st none = refuse unavailable
  restaged spec st (some infos) =
      let new_pod = recreate spec in
      if is_some (top_mount infos st.staging_path) then refuse failed_precondition else new_pod

  unfoldable pub restage : Spec → State → Exec Status (NodeState W) (Unit {0})
  restage spec st s = restaged spec st (calls.mount_info s.host.world) s

  unfoldable pub probed_ready : Result Failed (Unit {0}) → Exec Status (NodeState W) (Unit {0})
  probed_ready (ok u) = pure tt
  probed_ready (err e) = refuse aborted

  -- checkReady
  unfoldable pub check_ready : State → Phase → Exec Status (NodeState W) (Unit {0})
  check_ready st phase_running s =
      (manage (ready calls.kube server.formats server.config st.pod) >>= probed_ready) s
  check_ready st phase_pending s = (err (status aborted), s)
  check_ready st phase_exited s = (err (status aborted), report_early st s)
  check_ready st phase_absent s = (err (status aborted), report_early st s)
  check_ready st phase_terminating s = (err (status aborted), s)
  check_ready st no_phase s = (err (status aborted), s)

  -- publishedAt
  unfoldable pub published_at : String → W → Option (List String)
  published_at volume_id w = elim (calls.mount_info w) [
    | none ↦ none
    | some infos ↦ some (binds (is_target server.formats server.config) infos volume_id)
  ]

  -- A pod that runs another config, by where its volume is published.
  unfoldable pub config_changed :
      Exec Status (NodeState W) (Unit {0})
      → Spec
      → Option Claim
      → State
      → Option (List String)
      → Exec Status (NodeState W) (Unit {0})
  config_changed again spec claim st none s = (err (status unavailable), s)
  config_changed again spec claim st (some []) s = (recreate spec >> again) s
  config_changed again spec claim st (some (b ∷ bs)) s =
      check_ready st st.phase (notify claim (config_changed_notice spec.volume_id) s)

  -- A pod that starts or runs.
  unfoldable pub starting :
      Exec Status (NodeState W) (Unit {0})
      → Spec
      → Option Claim
      → State
      → Exec Status (NodeState W) (Unit {0})
  starting again spec claim st s =
      let moved = (restage spec st >> again) s in
      let changed =
        config_changed again spec claim st (published_at spec.volume_id s.host.world) s in
      let same = check_ready st st.phase s in
      if not (st.staging_path == spec.staging_path)
      then moved
      else if st.config_changed
      then changed
      else same

  unfoldable pub by_state :
      Exec Status (NodeState W) (Unit {0})
      → Spec
      → Option Claim
      → State
      → Phase
      → Exec Status (NodeState W) (Unit {0})
  by_state again spec claim st phase_terminating = recreate spec >> again
  by_state again spec claim st phase_pending = starting again spec claim st
  by_state again spec claim st phase_running = starting again spec claim st
  by_state again spec claim st phase_exited = check_ready st phase_exited
  by_state again spec claim st no_phase = check_ready st no_phase
  by_state again spec claim st phase_absent = check_ready st phase_absent

  -- One round, of what Ensure answers; `again` is the next one.
  unfoldable pub after_ensure :
      Exec Status (NodeState W) (Unit {0})
      → Spec
      → Option Claim
      → Result Failed State
      → Exec Status (NodeState W) (Unit {0})
  after_ensure again spec claim (err (st, gave_up_error b)) s =
      (err (status failed_precondition), stage_gave_up claim spec s)
  after_ensure again spec claim (err (st, invalid_spec)) s = (err (status invalid_argument), s)
  after_ensure again spec claim (err (st, api_error e)) s = (err (status unavailable), s)
  after_ensure again spec claim (err (st, prepare_failed)) s = (err (status unavailable), s)
  after_ensure again spec claim (err (st, bad_annotation)) s = (err (status unavailable), s)
  after_ensure again spec claim (err (st, not_ready)) s = (err (status unavailable), s)
  after_ensure again spec claim (ok st) s =
      (clear_gave_up spec.volume_id >> by_state again spec claim st st.phase) s

  -- The rounds left of ensureMounted.
  unfoldable pub ensure_rounds : ℕ → Spec → Option Claim → Exec Status (NodeState W) (Unit {0})
  ensure_rounds zero spec claim = refuse aborted
  ensure_rounds (suc rounds) spec claim =
      manage (ensure calls.kube server.formats server.config spec)
      >>= after_ensure (ensure_rounds rounds spec claim) spec claim

  -- ensureMounted; the State that it returns beside nil is not read.
  unfoldable pub ensure_mounted : Spec → Option Claim → Exec Status (NodeState W) (Unit {0})
  ensure_mounted = ensure_rounds max_ensure_rounds
