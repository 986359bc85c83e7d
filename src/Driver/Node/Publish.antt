-- ===== src/Driver/Node/Publish.antt =====
-- node.go and recovery.go: NodePublishVolume with repairStaging, and NodeUnpublishVolume.
pub mod Sound
use retyc_k8s_csi.Prelude.{
  String, Bool, true, false, not, ◌&&◌, ◌||◌, Option, none, some, ◌==◌, if◌then◌else◌, Result, ok,
  err, Exec, pure, raise, ◌>>=◌, ◌>>◌,
}
use retyc_k8s_csi.Mountpod.Pod.{Phase, phase_absent, State}
use retyc_k8s_csi.Mountpod.Manager.{ManagerError, Failed, get}
use retyc_k8s_csi.Mount.{MountError, MountState, mount_state, bind_mount, unpublish}
use retyc_k8s_csi.Driver.Status.{Status, status, invalid_argument, unavailable, internal}
use retyc_k8s_csi.Driver.Node.{Calls, NodeServer, NodeState, manage, on_mounts}
use retyc_k8s_csi.Driver.Node.Stage.{unpublished}
use retyc_k8s_csi.Driver.Node.Rebind.{RecoverError}
use retyc_k8s_csi.Driver.Node.Recover.{Recovered, is_absent, recover_volume}

-- The errors of repairStaging.
pub data RepairError : Type 0 where
  state_failed : MountError → RepairError
  pod_unknown : ManagerError → RepairError
  no_mount_pod other_staging_path still_down : RepairError
  recovery_failed : RecoverError → RepairError

pub record PublishRequest : Type 0 where
  pub volume_id : String
  pub staging_target_path : String
  pub target_path : String
  pub readonly : Bool

abbrev pub is_healthy : MountState → Bool
is_healthy m = m.mounted && not m.corrupted

-- `healthy`
unfoldable pub health_of : Result MountError MountState → Result RepairError Bool
health_of (err e) = err (state_failed e)
health_of (ok m) = ok (is_healthy m)

-- The last look: an error counts as down.
unfoldable pub looked_again : Result RepairError Bool → Result RepairError (Unit {0})
looked_again (err e) = err still_down
looked_again (ok up) = if up then ok tt else err still_down

module _ {W : Type 0} (calls : Calls W) (server : NodeServer) where
  unfoldable pub healthy : String → Exec RepairError (NodeState W) Bool
  healthy staging = on_mounts (mount_state calls.mounts staging) >>= λ r s. (health_of r, s)

  unfoldable pub look_again : String → Exec RepairError (NodeState W) (Unit {0})
  look_again staging s = let (r, s') = healthy staging s in (looked_again r, s')

  unfoldable pub recovered_then :
      String → Option RecoverError → Exec RepairError (NodeState W) (Unit {0})
  recovered_then staging (some e) = raise (recovery_failed e)
  recovered_then staging none = look_again staging

  unfoldable pub repair_pod :
      String → String → Result Failed State → Exec RepairError (NodeState W) (Unit {0})
  repair_pod volume_id staging (err (_, e)) s = (err (pod_unknown e), s)
  repair_pod volume_id staging (ok st) s =
      let (answer, s') = recover_volume calls server volume_id true s in
      let repaired = recovered_then staging answer.failure s' in
      if is_absent st.phase
      then (err no_mount_pod, s)
      else if not (st.staging_path == staging)
      then (err other_staging_path, s)
      else repaired

  -- What repairStaging does once the first look found the path down; the lock is taken here.
  unfoldable pub repair_locked : String → String → Exec RepairError (NodeState W) (Unit {0})
  repair_locked volume_id staging = healthy staging >>= λ up.
      let repair =
        manage (get calls.kube server.formats server.config server.node_id volume_id)
        >>= repair_pod volume_id staging in
      if up then pure tt else repair

  -- repairStaging
  unfoldable pub repair_staging : String → String → Exec RepairError (NodeState W) (Unit {0})
  repair_staging volume_id staging = healthy staging >>= λ up.
      let repair = repair_locked volume_id staging in if up then pure tt else repair

  unfoldable pub publish :
      PublishRequest → Result RepairError (Unit {0}) → Exec Status (NodeState W) (Unit {0})
  publish req (err e) s = (err (status unavailable), s)
  publish req (ok u) s =
      (on_mounts (bind_mount calls.mounts req.staging_target_path req.target_path req.readonly)
          >>= unpublished calls server)
        s

  -- NodePublishVolume
  unfoldable pub node_publish_volume : PublishRequest → Exec Status (NodeState W) (Unit {0})
  node_publish_volume req s =
      let (r, s') = repair_staging req.volume_id req.staging_target_path s in
      let run = publish req r s' in
      if req.staging_target_path == "" || (req.target_path == "" || req.volume_id == "")
      then (err (status invalid_argument), s)
      else run

  -- NodeUnpublishVolume
  unfoldable pub node_unpublish_volume : String → Exec Status (NodeState W) (Unit {0})
  node_unpublish_volume target s =
      let run = (on_mounts (unpublish calls.mounts target) >>= unpublished calls server) s in
      if target == "" then (err (status invalid_argument), s) else run
