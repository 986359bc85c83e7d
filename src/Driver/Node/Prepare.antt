-- ===== src/Driver/Node/Prepare.antt =====
-- recovery.go: Prepare, which readies the host for a new mount pod. The os calls on the spool are
-- parameters over the state `W` of the node.
use retyc_k8s_csi.Prelude.{String, Exec, ◌>>◌, rescue}
use retyc_k8s_csi.Mountpod.Spec.{Spec, spool_host_path}
use retyc_k8s_csi.Mount.{MountError, unmount_all}
use retyc_k8s_csi.Driver.Node.{Calls, NodeServer}

-- `make` is os.Mkdir, which fails on a path that exists; the mode of `make` and `set_mode` is 0700.
pub record Spool (W : Type 0) : Type 0 where
  pub remove_all : String → Exec (Unit {0}) W (Unit {0})
  pub make_parents : String → Exec (Unit {0}) W (Unit {0})
  pub make : String → Exec (Unit {0}) W (Unit {0})
  pub set_mode : String → Exec (Unit {0}) W (Unit {0})

pub data PrepareError : Type 0 where
  unmounting : MountError → PrepareError
  no_staging_path spool_not_emptied no_spool_root no_spool no_spool_mode : PrepareError

module _ {W : Type 0} (calls : Calls W) (spool : Spool W) (server : NodeServer) where
  -- Prepare
  unfoldable pub prepare : Spec → Exec PrepareError W (Unit {0})
  prepare spec =
      let path = spool_host_path server.formats server.config spec.volume_id in
      rescue unmounting (unmount_all calls.mounts spec.staging_path)
      >> rescue (λ _. no_staging_path) (calls.mounts.mkdir_all spec.staging_path)
      >> rescue (λ _. spool_not_emptied) (spool.remove_all path)
      >> rescue (λ _. no_spool_root) (spool.make_parents (server.formats.dir path))
      >> rescue (λ _. no_spool) (spool.make path)
      >> rescue (λ _. no_spool_mode) (spool.set_mode path)
