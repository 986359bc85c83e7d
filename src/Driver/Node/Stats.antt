-- ===== src/Driver/Node/Stats.antt =====
-- node.go: NodeGetVolumeStats, the reported use and condition of a volume. A uint64 wraps around at 2^64.
use retyc_k8s_csi.Prelude.{
  ℕ, ◌+◌, ◌-◌, ◌*◌, ◌%◌, ◌^◌, String, Bool, true, false, not, ◌||◌, Option, none, some, ltb, ◌==◌,
  if◌then◌else◌, Result, ok, err, Exec, ◌>>=◌,
}
use retyc_k8s_csi.Mountpod.Pod.{Phase, phase_running, State}
use retyc_k8s_csi.Mountpod.Manager.{Failed, get, ready}
use retyc_k8s_csi.Mount.{MountError, MountState, mount_state}
use retyc_k8s_csi.Driver.Status.{Status, status, invalid_argument, not_found, internal}
use retyc_k8s_csi.Driver.Node.{Calls, NodeServer, NodeState, on_mounts}

-- unix.Statfs_t, what the code reads of it: each a uint64.
pub record Statfs : Type 0 where
  pub block_size : ℕ
  pub blocks : ℕ
  pub blocks_free : ℕ
  pub blocks_available : ℕ
  pub files : ℕ
  pub files_free : ℕ

-- What statfs fails with: os.ErrNotExist, or another error.
pub data StatfsError : Type 0 where
  no_such_file statfs_failed : StatfsError

pub record Usage : Type 0 where
  pub total : ℕ
  pub available : ℕ
  pub used : ℕ

-- The response: the bytes and inodes used, none for a mount that does not answer, and whether the volume
-- is abnormal, `none` when the API cannot tell.
pub record VolumeStats : Type 0 where
  pub usage : Option (Usage × Usage)
  pub abnormal : Option Bool

abbrev pub u64 : ℕ → ℕ
u64 n = n % 2 ^ 64

-- A difference of two uint64.
abbrev pub minus : ℕ → ℕ → ℕ
minus a b = u64 (a + (2 ^ 64 - b))

-- toInt64
unfoldable pub to_int64 : ℕ → ℕ
to_int64 v = if ltb v (2 ^ 63 - 1) then v else 2 ^ 63 - 1

unfoldable pub bytes_of : Statfs → Usage
bytes_of fs = record {
  total = to_int64 (u64 (fs.blocks * fs.block_size));
  available = to_int64 (u64 (fs.blocks_available * fs.block_size));
  used = to_int64 (u64 (minus fs.blocks fs.blocks_free * fs.block_size));
}

unfoldable pub inodes_of : Statfs → Usage
inodes_of fs = record {
  total = to_int64 fs.files;
  available = to_int64 fs.files_free;
  used = to_int64 (minus fs.files fs.files_free);
}

-- A volume whose statfs fails: gone, or abnormal.
unfoldable pub stats_from : Option Bool → Result StatfsError Statfs → Result Status VolumeStats
stats_from condition (err no_such_file) = err (status not_found)
stats_from condition (err statfs_failed) = ok (record { usage = none; abnormal = some true })
stats_from condition (ok fs) =
    ok (record { usage = some (bytes_of fs, inodes_of fs); abnormal = condition })

abbrev is_running : Phase → Bool
is_running phase_running = true
is_running _ = false

module _ {W : Type 0} (calls : Calls W) (server : NodeServer)
    (statfs : String → Exec StatfsError W Statfs) where
  unfoldable pub answered : Result Failed (Unit {0}) → NodeState W → Option Bool × NodeState W
  answered (ok u) s = (some false, s)
  answered (err e) s = (some true, s)

  unfoldable pub condition_of : Result Failed State → NodeState W → Option Bool × NodeState W
  condition_of (err e) s = (none, s)
  condition_of (ok st) s =
      let (r, h) = ready calls.kube server.formats server.config st.pod s.host in
      let probed = answered r (record s { host = h }) in
      if is_running st.phase then probed else (some true, s)

  -- volumeCondition
  unfoldable pub volume_condition : String → NodeState W → Option Bool × NodeState W
  volume_condition volume_id s =
      let (r, h) = get calls.kube server.formats server.config server.node_id volume_id s.host in
      condition_of r (record s { host = h })

  -- A mounted volume.
  unfoldable pub stats_mounted :
      String → String → MountState → Exec Status (NodeState W) VolumeStats
  stats_mounted volume_id path m s =
      let (condition, t) = volume_condition volume_id s in
      let (r, w) = statfs path t.host.world in
      let read : Result Status VolumeStats × NodeState W =
        (stats_from condition r, record t { host = record t.host { world = w } }) in
      if m.corrupted then (ok (record { usage = none; abnormal = some true }), t) else read

  unfoldable pub stats_of :
      String → String → Result MountError MountState → Exec Status (NodeState W) VolumeStats
  stats_of volume_id path (err e) s = (err (status internal), s)
  stats_of volume_id path (ok m) s =
      let stats = stats_mounted volume_id path m s in
      if not m.mounted then (err (status not_found), s) else stats

  -- NodeGetVolumeStats
  unfoldable pub node_get_volume_stats : String → String → Exec Status (NodeState W) VolumeStats
  node_get_volume_stats volume_id path s =
      let run = (on_mounts (mount_state calls.mounts path) >>= stats_of volume_id path) s in
      if volume_id == "" || path == "" then (err (status invalid_argument), s) else run
