-- ===== src/Driver/Node.antt =====
-- internal/driver/node.go: the node service. This file has its parts, the state that it keeps, and the
-- marks of the volumes that kubelet works on. Each call runs under the lock of its volume (KeyLock).
pub mod Sample
mod Tests
pub mod Ensure
pub mod StageSpec
pub mod Stage
pub mod Staged
pub mod Unmounted
pub mod Busy
pub mod GivenUp
pub mod Cause
pub mod Final
pub mod Rebind
pub mod Recover
pub mod Publish
pub mod Round
pub mod Stats
pub mod Prepare
use retyc_k8s_csi.Prelude.{
  ℕ, ◌-◌, ◌*◌, ◌^◌, String, Bool, true, false, Option, none, some, List, ◌∷◌, Dict, lookup, insert,
  delete, ltb, if◌then◌else◌, Result, ok, err, Exec,
}
use retyc_k8s_csi.Identity.{Credentials}
use retyc_k8s_csi.Mountpod.Kube.{Kube, Host}
use retyc_k8s_csi.Mountpod.Spec.{Formats, Config, Cache}
use retyc_k8s_csi.Mountpod.Manager.{Failed}
use retyc_k8s_csi.Mount.{Mounts, MountError}
use retyc_k8s_csi.Driver.Status.{
  Status, Fetch, Code, invalid_argument, failed_precondition, out_of_range, not_found,
  already_exists, resource_exhausted, permission_denied, unavailable, internal, aborted,
}
use retyc_k8s_csi.Driver.Tenant.{Classes}
use retyc_k8s_csi.Driver.Settings.{Readers}
use retyc_k8s_csi.Driver.Recovery.{MountInfo}
use retyc_k8s_csi.Driver.Exits.{Reports}

-- What a claim has that the service reads: its annotations and the name of its PV.
pub record Claim : Type 0 where
  pub annotations : Dict String
  pub volume_name : String

-- What the service calls, over the state `W` of the node and of the cluster. `mount_info` reads the
-- mount table, `now` is time.Now(); `lists_dir` says whether a directory can be opened and listed,
-- `lacks_file` whether a stat says that a file does not exist; both look only.
pub record Calls (W : Type 0) : Type 0 where
  pub kube : Kube W
  pub classes : Classes W
  pub mounts : Mounts W
  pub get_claim : String → String → W → Fetch Claim × W
  pub mount_info : W → Option (List MountInfo)
  pub now : W → ℕ
  pub lists_dir : String → W → Bool
  pub lacks_file : String → W → Bool
  pub rebind : String → String → Bool → Exec (Unit {0}) W (Unit {0})

-- The fields of NodeServer that are set once. `has_kube` tells whether it has a Kubernetes client.
pub record NodeServer : Type 0 where
  pub node_id : String
  pub formats : Formats
  pub config : Config
  pub readers : Readers
  pub has_kube : Bool
  pub default_credentials : Option Credentials
  pub cache : Cache

-- The Events besides those of the exits: MountGaveUp and MountConfigChanged, of a volume.
pub data Notice : Type 0 where
  gave_up_notice config_changed_notice : String → Notice

-- The state: the restart states and the world, the fields busy and gaveUp with their times, the reports
-- of exits, and the notices sent, the last one first.
pub record NodeState (W : Type 0) : Type 0 where
  pub host : Host W
  pub busy : Dict ℕ
  pub gave_up : Dict ℕ
  pub reports : Reports
  pub notices : List Notice

-- 10 minutes.
abbrev pub busy_for : ℕ
busy_for = 600 * 10 ^ 9

abbrev pub is_aborted : Code → Bool
is_aborted aborted = true
is_aborted _ = false

unfoldable pub busy_since : ℕ → Option ℕ → Bool
busy_since now none = false
busy_since now (some at) = ltb (now - at) busy_for

module _ {W : Type 0} where
  -- A call of the Manager, and one of the Mounter, their results as values.
  unfoldable pub manage :
      {E A : Type 0} → Exec Failed (Host W) A → Exec E (NodeState W) (Result Failed A)
  manage m s = let (r, h) = m s.host in (ok r, record s { host = h })

  unfoldable pub on_mounts : {E F A : Type 0} → Exec F W A → Exec E (NodeState W) (Result F A)
  on_mounts m s =
      let (r, w) = m s.host.world in (ok r, record s { host = record s.host { world = w } })

  unfoldable pub mark_busy : ℕ → String → NodeState W → NodeState W
  mark_busy now volume_id s = record s { busy = insert volume_id now s.busy }

  unfoldable pub clear_busy : {A : Type 0} → String → Result Status A → NodeState W → NodeState W
  clear_busy volume_id (ok a) s = record s { busy = delete volume_id s.busy }
  clear_busy volume_id (err e) s =
      if is_aborted e.code then s else record s { busy = delete volume_id s.busy }

  unfoldable pub is_busy : ℕ → String → NodeState W → Bool
  is_busy now volume_id s = busy_since now (lookup volume_id s.busy)

  -- What a stage or an unstage does under the lock: the mark, the body, and the mark dropped.
  unfoldable pub while_busy :
      {A : Type 0} → Calls W → String → Exec Status (NodeState W) A → Exec Status (NodeState W) A
  while_busy calls volume_id body s =
      let (r, s') = body (mark_busy (calls.now s.host.world) volume_id s) in
      (r, clear_busy volume_id r s')

  -- `s.gaveUp.Delete(volumeID)`
  unfoldable pub clear_gave_up : {E : Type 0} → String → Exec E (NodeState W) (Unit {0})
  clear_gave_up volume_id s = (ok tt, record s { gave_up = delete volume_id s.gave_up })

  -- event: nothing without a claim.
  unfoldable pub notify : Option Claim → Notice → NodeState W → NodeState W
  notify none n s = s
  notify (some claim) n s = record s { notices = n ∷ s.notices }
