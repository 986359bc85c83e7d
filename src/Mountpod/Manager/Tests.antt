-- ===== src/Mountpod/Manager/Tests.antt =====
-- A node of one volume: whether its pod exists, and whether the spool of a pod was lost.
use retyc_k8s_csi.Prelude.{
  ◌≡◌, ◌≢◌, refl, Bool, true, false, none, [], Result, ok, err, arith, eq_iff,
}
use retyc_k8s_csi.Mountpod.Pod.{Pod, state_of, finished, terminated, termination}
use retyc_k8s_csi.Mountpod.Kube.{ApiError, not_found, Kube, Host}
use retyc_k8s_csi.Mountpod.Spec.{name_of}
use retyc_k8s_csi.Mountpod.Sample.{spec, config, formats}
use retyc_k8s_csi.Mountpod.Spec.Build.{Secret, build_secret, build_pod}
use retyc_k8s_csi.Mountpod.Manager.Secrets.{spec_of}
use retyc_k8s_csi.Mountpod.Manager.Ensure.{ensure}
use retyc_k8s_csi.Mountpod.Manager.Delete.{delete_mount}
use retyc_k8s_csi.Mountpod.Manager.Delete.Draining.{IsDraining, delete_drains}
use retyc_k8s_csi.Mountpod.Manager.Guarded.{Guarded}
use retyc_k8s_csi.Mountpod.Manager.Ensure.Spool.{ensure_guarded}
use retyc_k8s_csi.Mountpod.Manager.Rebuild.{spec_of-build_pod}

abbrev pod : Pod
pod = record {
  name = name_of formats "n1" "d1";
  uid = "u1";
  annotations = (build_pod formats config spec "h" "s1").meta.annotations;
  finalizers = [];
  deletion_timestamp = none;
  phase = "Running";
  reason = "";
  message = [];
  pod_ip = "10.0.0.1";
  container_statuses = [];
  conditions = [];
  ports = [];
}

abbrev secret : Secret
secret = build_secret formats config spec "h" "s1"

abbrev Node : Type 0
Node = Bool × Bool

abbrev read : Bool → Result ApiError Pod
read true = ok pod
read false = err not_found

-- Preparing the host for a pod that exists loses its files.
abbrev kube : Kube Node
kube = record {
  clock = λ w. 0;
  draw = λ w. 0;
  suffix = λ w. "s1";
  get_pod = λ n w. (read w.0, w);
  list_pods = λ n w. (ok [], w);
  create_pod = λ t w. (ok pod, (true, w.1));
  delete_pod = λ n g u w. (ok tt, (false, w.1));
  patch_finalizers = λ n old new w. (ok tt, w);
  get_secret = λ n w. (ok secret, w);
  create_secret = λ s w. (ok s, w);
  list_secrets = λ n v w. (ok [], w);
  patch_owner = λ n u w. (ok tt, w);
  delete_secret = λ n w. (ok tt, w);
  prepare = λ s w. (ok tt, (w.0, w.0));
  get_ready = λ ip port w. (ok 200, w);
}

abbrev Intact : Node → Type 0
Intact w = w.1 ≡ false

read-missing : (b : Bool) → read b ≡ err not_found → b ≡ false
read-missing true e = ground arith
read-missing false e = refl

guarded : Guarded kube formats Intact
guarded = record {
  get_pod = λ n w p. p;
  create_pod = λ t w p. p;
  delete_pod = λ n g u w p. p;
  patch_finalizers = λ n old new w p. p;
  get_secret = λ n w p. p;
  create_secret = λ s w p. p;
  list_secrets = λ n v w p. p;
  patch_owner = λ n u w p. p;
  delete_secret = λ n w p. p;
  prepare = λ s w missing p. read-missing w.0 missing;
}

abbrev fresh_node : Host Node
fresh_node = record { backoffs = []; world = (false, false) }

ensure_guarded_example : (ensure kube formats config spec fresh_node).1.world.1 ≡ false
ensure_guarded_example = ensure_guarded kube formats config Intact guarded spec fresh_node refl

staged : spec.staging_path ≢ ""
staged = ground (arith, eq_iff "/k/plugins/x/globalmount" "")

spec_of-build_pod_example :
    spec_of kube formats (state_of 5 pod) spec.cache fresh_node
    ≡ (ok spec, record fresh_node { world = (false, false) })
spec_of-build_pod_example =
    spec_of-build_pod kube formats config spec "h" "s1" "s1" 5 pod secret (false, false) fresh_node
      refl refl refl refl staged

abbrev running_node : Host Node
running_node = record { backoffs = []; world = (true, false) }

still_running : finished 0 pod ≡ false
unfolding finished terminated termination
still_running = refl

delete_drains_example :
    IsDraining (delete_mount kube formats config "n1" "d1" running_node).0
    × ((delete_mount kube formats config "n1" "d1" running_node).1.backoffs ≡ [])
    × Intact (delete_mount kube formats config "n1" "d1" running_node).1.world
delete_drains_example =
    delete_drains kube formats config Intact (λ n w p. p) (λ n u w p. p) "n1" "d1" pod (true, false)
      running_node refl still_running refl
