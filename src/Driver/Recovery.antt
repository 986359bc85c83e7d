-- ===== src/Driver/Recovery.antt =====
-- recovery.go: the functions on the mount table, which lists the mounts of the node, parents first.
pub mod Dead
use Prim.Native.String
use retyc_k8s_csi.Prelude.{
  ℕ, ◌+◌, String, Bool, true, false, not, ◌&&◌, Option, none, some, List, [], ◌∷◌, ◌++◌, Dict,
  lookup, insert, is_some, contains, nat_eq, ◌==◌, if◌then◌else◌,
}
use retyc_k8s_csi.Mountpod.Pod.{
  Phase, no_phase, phase_absent, phase_pending, phase_running, phase_terminating, phase_exited,
}

-- mount-utils' MountInfo, what the code reads of it.
pub record MountInfo : Type 0 where
  pub mount_point : String
  pub source : String
  pub root : String
  pub major : ℕ
  pub minor : ℕ
  pub mount_options : List String

unfoldable pub mount_source : String → String
mount_source volume_id = String.◌++◌ "retyc://" volume_id

-- device, as the pair of the numbers that the text joins.
abbrev pub device : MountInfo → ℕ × ℕ
device info = (info.major, info.minor)

abbrev same_device : ℕ × ℕ → ℕ × ℕ → Bool
same_device (a, b) (c, d) = nat_eq a c && nat_eq b d

-- The loop of topMount: the last entry of the path.
unfoldable pub last_on : String → List MountInfo → Option MountInfo → Option MountInfo
last_on path [] top = top
last_on path (info ∷ infos) top =
    last_on path infos (if info.mount_point == path then some info else top)

unfoldable pub top_mount : List MountInfo → String → Option MountInfo
top_mount infos path = if path == "" then none else last_on path infos none

unfoldable pub layers : List MountInfo → String → ℕ
layers [] mount_point = 0
layers (info ∷ infos) mount_point =
    let n = layers infos mount_point in if info.mount_point == mount_point then n + 1 else n

-- The tests that follow are on a mount of the volume that is not its live one.
unfoldable pub is_dead : String → ℕ × ℕ → MountInfo → Bool
is_dead volume_id alive info =
    not (same_device (device info) alive)
    && (info.root == "/" && info.source == mount_source volume_id)

abbrev pub append : List String → String → List String
append paths path = paths ++ path ∷ []

-- An entry of the mount table, if it is on a target, which was seen before or not.
unfoldable pub note :
    Bool → Bool → MountInfo → List String → Dict MountInfo → List String × Dict MountInfo
note false seen info order top = (order, top)
note true false info order top = (append order info.mount_point, insert info.mount_point info top)
note true true info order top = (order, insert info.mount_point info top)

-- A target's top layer, kept if it is dead.
unfoldable pub keep_dead : String → ℕ × ℕ → Option MountInfo → List MountInfo → List MountInfo
keep_dead volume_id alive none rest = rest
keep_dead volume_id alive (some info) rest =
    if is_dead volume_id alive info then info ∷ rest else rest

module _ (is_target : String → Bool) where
  -- binds, with the paths found so far.
  unfoldable pub binds_from : List MountInfo → String → List String → List String
  binds_from [] volume_id out = out
  binds_from (info ∷ infos) volume_id out = binds_from infos volume_id (
      if info.source == mount_source volume_id
        && (is_target info.mount_point && not (contains out info.mount_point))
      then append out info.mount_point
      else out)

  unfoldable pub binds : List MountInfo → String → List String
  binds infos volume_id = binds_from infos volume_id []

  -- The first loop of deadTargets: the order of the targets and the top layer of each.
  unfoldable pub collect_one :
      MountInfo → List String × Dict MountInfo → List String × Dict MountInfo
  collect_one info (order, top) =
      note (is_target info.mount_point) (is_some (lookup info.mount_point top)) info order top

  unfoldable pub collect :
      List MountInfo → List String × Dict MountInfo → List String × Dict MountInfo
  collect [] s = s
  collect (info ∷ infos) s = collect infos (collect_one info s)

  -- The second loop.
  unfoldable pub dead_among : String → ℕ × ℕ → Dict MountInfo → List String → List MountInfo
  dead_among volume_id alive top [] = []
  dead_among volume_id alive top (path ∷ order) =
      keep_dead volume_id alive (lookup path top) (dead_among volume_id alive top order)

  unfoldable pub dead_targets : List MountInfo → String → ℕ × ℕ → List MountInfo
  dead_targets infos volume_id alive =
      let (order, top) = collect infos ([], []) in dead_among volume_id alive top order

-- metricState; `none` for the empty text.
pub data MetricState : Type 0 where
  state_pending state_running state_ready state_terminating state_exited : MetricState

unfoldable pub metric_state : Phase → Option MetricState
metric_state phase_pending = some state_pending
metric_state phase_running = some state_running
metric_state phase_terminating = some state_terminating
metric_state phase_exited = some state_exited
metric_state phase_absent = none
metric_state no_phase = none
