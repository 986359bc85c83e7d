-- ===== src/Driver/Node/Stage.antt =====
-- node.go: NodeStageVolume and NodeUnstageVolume.
use retyc_k8s_csi.Prelude.{
  String, Bool, false, not, ◌||◌, Option, none, some, List, ◌==◌, if◌then◌else◌, Result, ok, err,
  Exec, ◌>>=◌, ◌>>◌,
}
use retyc_k8s_csi.Controller.Requests.{VolumeCapability, is_supported_capability}
use retyc_k8s_csi.Mountpod.Backoff.{forget_all}
use retyc_k8s_csi.Mountpod.Pod.{State}
use retyc_k8s_csi.Mountpod.Manager.{Failed}
use retyc_k8s_csi.Mountpod.Manager.Delete.{delete_mount}
use retyc_k8s_csi.Mount.{MountError, MountState, mount_state, unpublish}
use retyc_k8s_csi.Driver.Status.{Status, status, invalid_argument, unavailable, internal, aborted}
use retyc_k8s_csi.Driver.Recovery.{MountInfo, mount_source, top_mount}
use retyc_k8s_csi.Driver.Node.{
  Calls, NodeServer, NodeState, manage, on_mounts, while_busy, clear_gave_up,
}
use retyc_k8s_csi.Driver.Node.StageSpec.{StageRequest, stage_spec}
use retyc_k8s_csi.Driver.Node.Ensure.{report, is_terminating, ensure_mounted}

unfoldable pub is_supported : Option VolumeCapability → Bool
is_supported none = false
is_supported (some cap) = is_supported_capability cap

module _ {W : Type 0} (calls : Calls W) (server : NodeServer) where
  -- The state of a mount, which has to be there and to answer.
  unfoldable pub answers : Result MountError MountState → Exec Status (NodeState W) (Unit {0})
  answers (err e) s = (err (status internal), s)
  answers (ok m) s = if m.corrupted then (err (status internal), s) else (ok tt, s)

  unfoldable pub top_is : String → String → Option MountInfo → Exec Status (NodeState W) (Unit {0})
  top_is volume_id staging none s = (err (status internal), s)
  top_is volume_id staging (some top) s =
      let look = (on_mounts (mount_state calls.mounts staging) >>= answers) s in
      if top.source == mount_source volume_id then look else (err (status internal), s)

  unfoldable pub staged_in :
      String → String → Option (List MountInfo) → Exec Status (NodeState W) (Unit {0})
  staged_in volume_id staging none s = (err (status unavailable), s)
  staged_in volume_id staging (some infos) s = top_is volume_id staging (top_mount infos staging) s

  -- checkStaged
  unfoldable pub check_staged : String → String → Exec Status (NodeState W) (Unit {0})
  check_staged volume_id staging s = staged_in volume_id staging (calls.mount_info s.host.world) s

  -- What NodeStageVolume does under the lock.
  unfoldable pub stage : StageRequest → Exec Status (NodeState W) (Unit {0})
  stage req = stage_spec calls server req >>= λ (spec, claim).
      ensure_mounted calls server spec claim
      >> check_staged req.volume_id req.staging_target_path
      >> clear_gave_up req.volume_id

  -- NodeStageVolume
  unfoldable pub node_stage_volume : StageRequest → Exec Status (NodeState W) (Unit {0})
  node_stage_volume req s =
      let run = while_busy calls req.volume_id (stage req) s in
      if req.volume_id == "" || req.staging_target_path == ""
      then (err (status invalid_argument), s)
      else if not (is_supported req.capability)
      then (err (status invalid_argument), s)
      else run

  unfoldable pub unpublished : Result MountError (Unit {0}) → Exec Status (NodeState W) (Unit {0})
  unpublished (ok u) s = (ok tt, s)
  unpublished (err e) s = (err (status internal), s)

  -- `s.Pods.Forget(volumeID)`
  unfoldable pub forget_volume : String → NodeState W → NodeState W
  forget_volume volume_id s = record s {
    host = record s.host { backoffs = forget_all volume_id s.host.backoffs };
  }

  -- The pod is gone: what is left of it.
  unfoldable pub after_pod : String → String → State → Exec Status (NodeState W) (Unit {0})
  after_pod volume_id staging st s =
      (clear_gave_up volume_id >> (λ s'.
          (on_mounts (unpublish calls.mounts staging) >>= unpublished)
            (forget_volume volume_id s')))
        (report calls server st s)

  -- What Delete of the mount pod answers.
  unfoldable pub stopped :
      String → String → Result Failed State → Exec Status (NodeState W) (Unit {0})
  stopped volume_id staging (err e) s = (err (status unavailable), s)
  stopped volume_id staging (ok st) s =
      let over = after_pod volume_id staging st s in
      if is_terminating st.phase then (err (status aborted), s) else over

  -- What NodeUnstageVolume does under the lock; the binds left are only logged.
  unfoldable pub unstage : String → String → Exec Status (NodeState W) (Unit {0})
  unstage volume_id staging =
      manage (delete_mount calls.kube server.formats server.config server.node_id volume_id)
      >>= stopped volume_id staging

  -- NodeUnstageVolume
  unfoldable pub node_unstage_volume : String → String → Exec Status (NodeState W) (Unit {0})
  node_unstage_volume volume_id staging s =
      let run = while_busy calls volume_id (unstage volume_id staging) s in
      if volume_id == "" || staging == "" then (err (status invalid_argument), s) else run
