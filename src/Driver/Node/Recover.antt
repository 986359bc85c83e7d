-- ===== src/Driver/Node/Recover.antt =====
-- recovery.go: recoverVolume and what it calls, for one volume under its lock.
pub mod Left
use retyc_k8s_csi.Prelude.{
  ℕ, ◌+◌, ◌*◌, ◌^◌, String, Bool, true, false, not, ◌&&◌, ◌||◌, Option, none, some, List, [], ◌∷◌,
  Dict, lookup, insert, is_some, is_empty, ltb, ◌==◌, if◌then◌else◌, Result, ok, err, Exec,
}
use retyc_k8s_csi.Mountpod.Pod.{
  Phase, no_phase, phase_absent, phase_pending, phase_running, phase_terminating, phase_exited,
  State,
}
use retyc_k8s_csi.Mountpod.Spec.{Spec}
use retyc_k8s_csi.Mountpod.Manager.{
  ManagerError, gave_up_error, invalid_spec, api_error, prepare_failed, bad_annotation, not_ready,
  Failed, get, ready,
}
use retyc_k8s_csi.Mountpod.Manager.Secrets.{spec_of}
use retyc_k8s_csi.Mountpod.Manager.Ensure.{ensure}
use retyc_k8s_csi.Mountpod.Manager.Delete.{delete_mount}
use retyc_k8s_csi.Driver.Recovery.{
  MountInfo, binds, MetricState, metric_state, state_running, state_ready, state_terminating,
}
use retyc_k8s_csi.Driver.Node.{
  Calls, NodeServer, NodeState, Claim, Notice, gave_up_notice, manage, is_busy, notify,
  clear_gave_up,
}
use retyc_k8s_csi.Driver.Node.Ensure.{is_target, is_terminating, report, report_early}
use retyc_k8s_csi.Driver.Node.Rebind.{RecoverError, manager_failed, table_unreadable, rebind}

abbrev pub vol_data_file : String
vol_data_file = "vol_data.json"

-- A second.
abbrev pub min_retry_delay : ℕ
min_retry_delay = 10 ^ 9

-- What recoverVolume returns: the metric state of the pod, when to look again (0: at the next event), and
-- the error.
pub record Recovered : Type 0 where
  pub metric : Option MetricState
  pub retry_at : ℕ
  pub failure : Option RecoverError

-- A recovery that asks for no retry.
abbrev pub recovered : Option MetricState → Option RecoverError → Recovered
recovered metric failure = record { metric = metric; retry_at = 0; failure = failure }

abbrev pub failure_of : Result RecoverError (Unit {0}) → Option RecoverError
failure_of (ok u) = none
failure_of (err e) = some e

abbrev pub is_down : Phase → Bool
is_down phase_exited = true
is_down phase_absent = true
is_down _ = false

abbrev pub is_absent : Phase → Bool
is_absent phase_absent = true
is_absent _ = false

-- The claim that an Event of a State is recorded on; it need not be read.
abbrev pub claim_of : State → Option Claim
claim_of st =
    if st.pvc_namespace == "" || st.pvc_name == ""
    then none
    else some (record { annotations = []; volume_name = "" })

module _ {W : Type 0} (calls : Calls W) (server : NodeServer) where
  -- kubeletStaged
  unfoldable pub kubelet_staged : String → W → Bool
  kubelet_staged staging w =
      let f = server.formats in
      if staging == ""
      then false
      else if not (calls.lists_dir (f.dir (f.dir staging)) w)
      then true
      else not (calls.lacks_file (f.join (f.dir staging) vol_data_file) w)

  unfoldable pub orphan_deleted :
      State → Result Failed State → NodeState W → Recovered × NodeState W
  orphan_deleted st (err (_, e)) s =
      (recovered (metric_state st.phase) (some (manager_failed e)), s)
  orphan_deleted st (ok dst) s = (
    recovered (if is_terminating dst.phase then some state_terminating else none) none,
    report calls server dst s,
  )

  -- deleteOrphan
  unfoldable pub delete_orphan : State → NodeState W → Recovered × NodeState W
  delete_orphan st s =
      let (r, h) =
        delete_mount calls.kube server.formats server.config server.node_id st.volume_id s.host in
      orphan_deleted st r (record s { host = h })

  -- reportGaveUp; only the first report is an error. (`event` does nothing without a recorder.)
  unfoldable pub report_gave_up :
      State → ManagerError → NodeState W → Option RecoverError × NodeState W
  report_gave_up st e s =
      let first = record s {
        gave_up = insert st.volume_id (calls.kube.clock s.host.world) s.gave_up;
      } in
      if is_some (lookup st.volume_id s.gave_up)
      then (none, s)
      else (some (manager_failed e), notify (claim_of st) (gave_up_notice st.volume_id) first)

  -- A pod that is ready: its binds; one that is not says so itself by its next change.
  unfoldable pub when_ready :
      String
      → List MountInfo
      → State
      → Result Failed (Unit {0})
      → NodeState W
      → Recovered × NodeState W
  when_ready volume_id infos st (err e) s = (recovered (some state_running) none, s)
  when_ready volume_id infos st (ok u) s =
      let (r, w) = rebind calls server infos volume_id st.staging_path s.host.world in
      let s' = record s { host = record s.host { world = w } } in
      (
        recovered (some state_ready) (failure_of r),
        (clear_gave_up {E = RecoverError} volume_id s').1,
      )

  -- When to look again at a pod that Ensure left down: at its restart time, a second from now at the
  -- soonest.
  unfoldable pub retry_time : State → W → ℕ
  retry_time nst w =
      let soonest = calls.kube.clock w + min_retry_delay in
      let at = nst.backoff.next_restart in
      if is_down nst.phase then (if ltb at soonest then soonest else at) else 0

  unfoldable pub ensured : State → Option RecoverError → NodeState W → Recovered × NodeState W
  ensured nst failure s = (
    record {
      metric = metric_state nst.phase;
      retry_at = retry_time nst s.host.world;
      failure = failure;
    },
    s,
  )

  -- What Ensure answers for a dead pod.
  unfoldable pub after_restart :
      String → State → Result Failed State → NodeState W → Recovered × NodeState W
  after_restart volume_id st (ok nst) s =
      ensured nst none (clear_gave_up {E = RecoverError} volume_id s).1
  after_restart volume_id st (err (nst, gave_up_error b)) s =
      let (failure, s') = report_gave_up st (gave_up_error b) s in
      (recovered (metric_state nst.phase) failure, s')
  after_restart volume_id st (err (nst, invalid_spec)) s =
      ensured nst (some (manager_failed invalid_spec)) s
  after_restart volume_id st (err (nst, api_error e)) s =
      ensured nst (some (manager_failed (api_error e))) s
  after_restart volume_id st (err (nst, prepare_failed)) s =
      ensured nst (some (manager_failed prepare_failed)) s
  after_restart volume_id st (err (nst, bad_annotation)) s =
      ensured nst (some (manager_failed bad_annotation)) s
  after_restart volume_id st (err (nst, not_ready)) s =
      ensured nst (some (manager_failed not_ready)) s

  unfoldable pub restart_from :
      String → State → Result Failed Spec → NodeState W → Recovered × NodeState W
  restart_from volume_id st (err (_, e)) s =
      (recovered (metric_state st.phase) (some (manager_failed e)), s)
  restart_from volume_id st (ok spec) s =
      let (r, h) = ensure calls.kube server.formats server.config spec s.host in
      after_restart volume_id st r (record s { host = h })

  -- A dead pod: its exit is reported, and another one takes its place.
  unfoldable pub restart : String → State → NodeState W → Recovered × NodeState W
  restart volume_id st s =
      let told = report_early calls server st s in
      let (r, h) = spec_of calls.kube server.formats st server.cache told.host in
      restart_from volume_id st r (record told { host = h })

  unfoldable pub serve : String → List MountInfo → State → NodeState W → Recovered × NodeState W
  serve volume_id infos st s =
      let (r, h) = ready calls.kube server.formats server.config st.pod s.host in
      when_ready volume_id infos st r (record s { host = h })

  -- A volume that is staged or bound, by the phase of its pod.
  unfoldable pub repair_by :
      String → List MountInfo → State → Phase → NodeState W → Recovered × NodeState W
  repair_by volume_id infos st phase_running s = serve volume_id infos st s
  repair_by volume_id infos st phase_exited s = restart volume_id st s
  repair_by volume_id infos st phase_terminating s = restart volume_id st s
  repair_by volume_id infos st phase_pending s = (recovered (metric_state phase_pending) none, s)
  repair_by volume_id infos st no_phase s = (recovered (metric_state no_phase) none, s)
  repair_by volume_id infos st phase_absent s = (recovered (metric_state phase_absent) none, s)

  abbrev pub is_orphan : String → List MountInfo → State → W → Bool
  is_orphan volume_id infos st w =
      not (kubelet_staged st.staging_path w)
      && is_empty (binds (is_target server.formats server.config) infos volume_id)

  unfoldable pub with_table :
      String → Bool → State → Option (List MountInfo) → NodeState W → Recovered × NodeState W
  with_table volume_id staged st none s =
      (recovered (metric_state st.phase) (some table_unreadable), s)
  with_table volume_id staged st (some infos) s =
      let orphan = delete_orphan st s in
      let repaired = repair_by volume_id infos st st.phase s in
      if not staged && is_busy (calls.now s.host.world) volume_id s
      then (recovered (metric_state st.phase) none, s)
      else if not staged && is_orphan volume_id infos st s.host.world
      then orphan
      else repaired

  unfoldable pub recover_found :
      String → Bool → Result Failed State → NodeState W → Recovered × NodeState W
  recover_found volume_id staged (err (_, e)) s = (recovered none (some (manager_failed e)), s)
  recover_found volume_id staged (ok st) s =
      let present = with_table volume_id staged st (calls.mount_info s.host.world) s in
      if is_absent st.phase then (recovered none none, s) else present

  -- recoverVolume
  unfoldable pub recover_volume : String → Bool → NodeState W → Recovered × NodeState W
  recover_volume volume_id staged s =
      let (r, h) = get calls.kube server.formats server.config server.node_id volume_id s.host in
      recover_found volume_id staged r (record s { host = h })
