-- ===== src/Driver/Node/Rebind.antt =====
-- recovery.go: rebind and unstack, which put a live bind on the target paths of dead ones.
pub mod Bottom
use retyc_k8s_csi.Prelude.{
  ℕ, zero, suc, String, Bool, true, false, not, ◌||◌, Option, none, some, List, [], ◌∷◌, contains,
  ltb, leb, ◌==◌, if◌then◌else◌, Result, ok, err, Exec, pure, raise, ◌>>=◌, ◌>>◌,
}
use retyc_k8s_csi.Mountpod.Manager.{ManagerError}
use retyc_k8s_csi.Mount.{MountError, MountState, mount_state, unmount_or_detach}
use retyc_k8s_csi.Driver.Recovery.{MountInfo, mount_source, top_mount, layers, device, dead_targets}
use retyc_k8s_csi.Driver.Node.{Calls, NodeServer}
use retyc_k8s_csi.Driver.Node.Ensure.{is_target}

-- The errors of a recovery.
pub data RecoverError : Type 0 where
  manager_failed : ManagerError → RecoverError
  table_unreadable : RecoverError
  mount_call_failed : MountError → RecoverError
  staging_not_mounted rebind_failed : RecoverError

abbrev pub max_target_layers : ℕ
max_target_layers = 4

abbrev pub max_mount_layers : ℕ
max_mount_layers = 8

abbrev failing : {A : Type 0} → Result MountError A → Result RecoverError A
failing (ok a) = ok a
failing (err e) = err (mount_call_failed e)

-- A call of the Mounter, its errors among those of a recovery.
unfoldable pub mounting : {W A : Type 0} → Exec MountError W A → Exec RecoverError W A
mounting m w = let (r, w') = m w in (failing r, w')

-- Whether a turn of unstack unmounts: the top layer is dead, and not the last one.
unfoldable pub is_unstacked : MountState → ℕ → Bool
is_unstacked m n = if not m.mounted then false else if not m.corrupted then false else ltb 1 n

module _ {W : Type 0} (calls : Calls W) (server : NodeServer) where
  -- A turn of unstack, of the mount table that it read; `next` are the turns that follow.
  unfoldable pub unstack_turn :
      Exec RecoverError W (Unit {0})
      → String
      → Option (List MountInfo)
      → Exec RecoverError W (Unit {0})
  unstack_turn next mnt none = raise table_unreadable
  unstack_turn next mnt (some infos) = mounting (mount_state calls.mounts mnt) >>= λ m.
      let dead = mounting (unmount_or_detach calls.mounts mnt) >> next in
      if is_unstacked m (layers infos mnt) then dead else pure tt

  -- The turns left of the loop.
  unfoldable pub unstack_turns : ℕ → String → Exec RecoverError W (Unit {0})
  unstack_turns zero mnt w = (ok tt, w)
  unstack_turns (suc turns) mnt w =
      unstack_turn (unstack_turns turns mnt) mnt (calls.mount_info w) w

  unfoldable pub unstack : String → Exec RecoverError W (Unit {0})
  unstack = unstack_turns max_mount_layers

  -- A bind of the staging path on a target; `true` if it failed.
  unfoldable pub bind_again : String → MountInfo → W → Bool × W
  bind_again staging t w =
      let (r, w') = calls.rebind staging t.mount_point (contains t.mount_options "ro") w in
      (elim r [ ok _ ↦ false | err _ ↦ true ], w')

  unfoldable pub after_unstack : String → MountInfo → Result RecoverError (Unit {0}) → W → Bool × W
  after_unstack staging t (ok u) w = bind_again staging t w
  after_unstack staging t (err e) w = (true, w)

  -- One dead target.
  unfoldable pub rebind_one : List MountInfo → String → MountInfo → W → Bool × W
  rebind_one infos staging t w =
      let (r, w') = unstack t.mount_point w in
      let cleared = after_unstack staging t r w' in
      let bound = bind_again staging t w in
      if leb max_target_layers (layers infos t.mount_point) then cleared else bound

  -- The loop of rebind goes on after a failure, with whether there was one.
  unfoldable pub rebind_all : List MountInfo → String → List MountInfo → Bool → W → Bool × W
  rebind_all infos staging [] has_failed w = (has_failed, w)
  rebind_all infos staging (t ∷ targets) has_failed w =
      let (fails, w') = rebind_one infos staging t w in
      rebind_all infos staging targets (has_failed || fails) w'

  unfoldable pub rebind_on :
      List MountInfo → String → String → Option MountInfo → Exec RecoverError W (Unit {0})
  rebind_on infos volume_id staging none w = (err staging_not_mounted, w)
  rebind_on infos volume_id staging (some fuse) w =
      let (has_failed, w') =
        rebind_all infos staging
          (dead_targets (is_target server.formats server.config) infos volume_id (device fuse))
          false w in
      if not (fuse.source == mount_source volume_id)
      then (err staging_not_mounted, w)
      else (if has_failed then err rebind_failed else ok tt, w')

  -- rebind
  unfoldable pub rebind : List MountInfo → String → String → Exec RecoverError W (Unit {0})
  rebind infos volume_id staging = rebind_on infos volume_id staging (top_mount infos staging)
