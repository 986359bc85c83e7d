-- ===== src/Mount.antt =====
-- internal/mount/bind.go: the bind mounts of a node. k8s.io/mount-utils, the os calls and Detach
-- (recover_linux.go) are parameters over the state `W` of the node.
pub mod Layers
pub mod Failing
mod Tests
use retyc_k8s_csi.Prelude.{
  ℕ, zero, suc, String, Bool, true, false, ◌&&◌, not, List, [], ◌∷◌, if◌then◌else◌, Result, ok, err,
  Exec, pure, raise, ◌>>=◌, ◌>>◌,
}

-- What a stat of a mount point fails with: os.IsNotExist, IsCorruptedMnt, another error.
pub data StatError : Type 0 where
  no_such_path corrupted_mount stat_failed : StatError

-- Whether the output of umount holds "not mounted".
pub data UnmountError : Type 0 where
  says_not_mounted unmount_refused : UnmountError

-- `remove` and `mkdir_all` succeed if the directory is gone, or there, already.
pub record Mounts (W : Type 0) : Type 0 where
  pub is_mount_point : String → Exec StatError W Bool
  pub unmount : String → Exec UnmountError W (Unit {0})
  pub detach : String → Exec (Unit {0}) W (Unit {0})
  pub remove : String → Exec (Unit {0}) W (Unit {0})
  pub mkdir_all : String → Exec (Unit {0}) W (Unit {0})
  pub mount : String → String → List String → Exec (Unit {0}) W (Unit {0})

pub data MountError : Type 0 where
  state_unknown unmount_failed detach_failed mkdir_failed mount_failed remove_failed : MountError
  still_mounted : MountError

pub record MountState : Type 0 where
  pub mounted : Bool
  pub corrupted : Bool

-- mountState, of the answer of IsMountPoint.
unfoldable pub state_from : Result StatError Bool → Result MountError MountState
state_from (ok mounted) = ok (record { mounted = mounted; corrupted = false })
state_from (err no_such_path) = ok (record { mounted = false; corrupted = false })
state_from (err corrupted_mount) = ok (record { mounted = true; corrupted = true })
state_from (err stat_failed) = err state_unknown

abbrev pub or_fail : {A : Type 0} → MountError → Result (Unit {0}) A → Result MountError A
or_fail e (ok a) = ok a
or_fail e (err _) = err e

abbrev refused : Result UnmountError (Unit {0}) → Result MountError (Unit {0})
refused (ok u) = ok u
refused (err _) = err unmount_failed

module _ {W : Type 0} (mounts : Mounts W) where
  -- mountState, State
  unfoldable pub mount_state : String → Exec MountError W MountState
  mount_state target w = let (r, w') = mounts.is_mount_point target w in (state_from r, w')

  -- Detach, called lazyUnmount.
  unfoldable pub lazy_unmount : String → Exec MountError W (Unit {0})
  lazy_unmount target w = let (r, w') = mounts.detach target w in (or_fail detach_failed r, w')

  abbrev unmount_dead : String → Exec MountError W (Unit {0})
  unmount_dead target w = let (r, w') = mounts.unmount target w in (refused r, w')

  abbrev make_dir : String → Exec MountError W (Unit {0})
  make_dir target w = let (r, w') = mounts.mkdir_all target w in (or_fail mkdir_failed r, w')

  abbrev mount_on : String → String → Bool → Exec MountError W (Unit {0})
  mount_on source target readonly w =
      let options = if readonly then "bind" ∷ "ro" ∷ [] else "bind" ∷ [] in
      let (r, w') = mounts.mount source target options w in (or_fail mount_failed r, w')

  unfoldable pub bind_unless : String → String → Bool → Bool → Exec MountError W (Unit {0})
  bind_unless source target readonly true = pure tt
  bind_unless source target readonly false = make_dir target >> mount_on source target readonly

  unfoldable pub bind_over : String → String → Bool → MountState → Exec MountError W (Unit {0})
  bind_over source target readonly s =
      if s.corrupted
      then unmount_dead target >> bind_unless source target readonly false
      else bind_unless source target readonly s.mounted

  -- BindMount
  unfoldable pub bind_mount : String → String → Bool → Exec MountError W (Unit {0})
  bind_mount source target readonly = mount_state target >>= bind_over source target readonly

  -- The layer is detached, if the mount table still has it.
  unfoldable pub detach_still : String → Result MountError MountState → Exec MountError W (Unit {0})
  detach_still target (err e) = pure tt
  detach_still target (ok s) = if s.mounted then lazy_unmount target else pure tt

  unfoldable pub after_unmount :
      String → Result UnmountError (Unit {0}) → Exec MountError W (Unit {0})
  after_unmount target (ok u) w = (ok tt, w)
  after_unmount target (err says_not_mounted) w =
      let (r, w') = mount_state target w in detach_still target r w'
  after_unmount target (err unmount_refused) w = lazy_unmount target w

  -- One turn on a mounted layer.
  unfoldable pub unmount_layer : String → Exec MountError W (Unit {0})
  unmount_layer target w = let (r, w') = mounts.unmount target w in after_unmount target r w'

  -- Nothing is removed if nothing was mounted at the first turn.
  unfoldable pub remove_after : Bool → String → Exec MountError W (Unit {0})
  remove_after first target w =
      let (r, w') = mounts.remove target w in
      if first then (ok tt, w) else (or_fail remove_failed r, w')

  -- The turns left of the loop of unmount.
  unfoldable pub unmount_turns : ℕ → Bool → String → Exec MountError W (Unit {0})
  unmount_turns zero first target = raise still_mounted
  unmount_turns (suc turns) first target = mount_state target >>= λ s.
      let rest = unmount_layer target >> unmount_turns turns false target in
      if s.mounted then rest else remove_after first target

  -- unmount, Unpublish
  unfoldable pub unpublish : String → Exec MountError W (Unit {0})
  unpublish = unmount_turns 32 true

  unfoldable pub detach_refused :
      String → Result UnmountError (Unit {0}) → Exec MountError W (Unit {0})
  detach_refused mnt (ok u) = pure tt
  detach_refused mnt (err e) = lazy_unmount mnt

  -- Unmount, and Detach if it is refused, as in unmountAll and unstack.
  unfoldable pub unmount_or_detach : String → Exec MountError W (Unit {0})
  unmount_or_detach mnt w = let (r, w') = mounts.unmount mnt w in detach_refused mnt r w'

  unfoldable pub last_look : Result MountError MountState → Result MountError (Unit {0})
  last_look (err e) = err still_mounted
  last_look (ok s) = if s.mounted then err still_mounted else ok tt

  -- The turns left of the loop of unmountAll of recovery.go, and its last look.
  unfoldable pub former_turns : ℕ → String → Exec MountError W (Unit {0})
  former_turns zero mnt w = let (r, w') = mount_state mnt w in (last_look r, w')
  former_turns (suc turns) mnt w =
      (mount_state mnt >>= λ s.
      let rest = unmount_or_detach mnt >> former_turns turns mnt in
      if s.mounted then rest else pure tt)
        w

  -- unmountAll
  unfoldable pub unmount_all : String → Exec MountError W (Unit {0})
  unmount_all = former_turns 8
