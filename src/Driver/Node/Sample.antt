-- ===== src/Driver/Node/Sample.antt =====
-- A node with one volume: how many mounts are on its staging path, the top one dead if there are more
-- than one, and whether its mount pod is there. The pod is ready once the path is mounted.
use retyc_k8s_csi.Prelude.{
  ℕ, zero, suc, ◌-◌, ◌≡◌, refl, Bool, true, false, none, some, List, [], ◌∷◌, String, Dict, Result,
  ok, err, arith,
}
use retyc_k8s_csi.Mountpod.Backoff.{BackoffEntry}
use retyc_k8s_csi.Mountpod.Pod.{
  Pod, container_name, metrics_port_name, label_volume, label_node, annotation_config_hash,
  annotation_staging_path,
}
use retyc_k8s_csi.Mountpod.Kube.{ApiError, not_found, Kube}
use retyc_k8s_csi.Mountpod.Spec.{name_of}
use retyc_k8s_csi.Mountpod.Sample.{spec, config, formats}
use retyc_k8s_csi.Mount.{
  StatError, no_such_path, corrupted_mount, UnmountError, says_not_mounted, Mounts,
}
use retyc_k8s_csi.Mount.Failing.{Tells, Tracks}
use retyc_k8s_csi.Controller.Requests.{multi_node_multi_writer}
use retyc_k8s_csi.Identity.{token_key, passphrase_key}
use retyc_k8s_csi.Driver.Status.{missing}
use retyc_k8s_csi.Driver.Claims.{annotation_uid}
use retyc_k8s_csi.Driver.Recovery.{MountInfo}
use retyc_k8s_csi.Driver.Node.{Calls, NodeServer, NodeState}
use retyc_k8s_csi.Driver.Node.StageSpec.{StageRequest}

abbrev pub World : Type 0
World = ℕ × Bool

abbrev pub staging : String
staging = "/k/plugins/x/globalmount"

-- The mount pod, running and listening.
abbrev pub pod : Pod
pod = record {
  name = name_of formats "n1" "d1";
  uid = "u1";
  annotations =
      (label_volume, "d1")
      ∷ (label_node, "n1")
      ∷ (annotation_config_hash, "retyc-cli:1")
      ∷ (annotation_staging_path, staging)
      ∷ [];
  finalizers = [];
  deletion_timestamp = none;
  phase = "Running";
  reason = "";
  message = [];
  pod_ip = "10.0.0.1";
  container_statuses =
      record { name = container_name; terminated = none; waiting = none; running = some 1 } ∷ [];
  conditions = [];
  ports = (container_name, (metrics_port_name, 9567) ∷ []) ∷ [];
}

abbrev pub find : Bool → Result ApiError Pod
find true = ok pod
find false = err not_found

abbrev pub served : ℕ → Result (Unit {0}) ℕ
served zero = err tt
served (suc n) = ok 200

abbrev pub kube : Kube World
kube = record {
  clock = λ w. 100;
  draw = λ w. 0;
  suffix = λ w. "s1";
  get_pod = λ n w. (find w.1, w);
  list_pods = λ n w. (ok [], w);
  create_pod = λ t w. (ok pod, (w.0, true));
  delete_pod = λ n g u w. (ok tt, (w.0, false));
  patch_finalizers = λ n old new w. (ok tt, w);
  get_secret = λ n w. (err not_found, w);
  create_secret = λ s w. (ok s, w);
  list_secrets = λ n v w. (ok [], w);
  patch_owner = λ n u w. (ok tt, w);
  delete_secret = λ n w. (ok tt, w);
  prepare = λ s w. (ok tt, w);
  get_ready = λ ip port w. (served w.0, w);
}

abbrev pub look : World → Result StatError Bool
look (zero, p) = err no_such_path
look (suc zero, p) = ok true
look (suc (suc n), p) = err corrupted_mount

abbrev pub umount : World → Result UnmountError (Unit {0})
umount (zero, p) = err says_not_mounted
umount (suc n, p) = ok tt

abbrev pub mounts : Mounts World
mounts = record {
  is_mount_point = λ t w. (look w, w);
  unmount = λ t w. (umount w, (w.0 - 1, w.1));
  detach = λ t w. (ok tt, (w.0 - 1, w.1));
  remove = λ t w. (ok tt, w);
  mkdir_all = λ t w. (ok tt, w);
  mount = λ s t o w. (ok tt, w);
}

abbrev pub fuse : MountInfo
fuse = record {
  mount_point = staging;
  source = "retyc://d1";
  root = "/";
  major = 0;
  minor = 5;
  mount_options = [];
}

abbrev pub table : ℕ → List MountInfo
table zero = []
table (suc n) = fuse ∷ table n

abbrev pub calls : Calls World
calls = record {
  kube = kube;
  classes = record { list_pvs = λ w. (none, w); get_class = λ n w. (missing, w) };
  mounts = mounts;
  get_claim = λ ns n w. (missing, w);
  mount_info = λ w. some (table w.0);
  now = λ w. 100;
  lists_dir = λ d w. true;
  lacks_file = λ f w. false;
  rebind = λ s t o w. (ok tt, w);
}

abbrev pub server : NodeServer
server = record {
  node_id = "n1";
  formats = formats;
  config = config;
  readers = record { duration = λ s. none; quantity = λ s. none; fields = λ s. s ∷ [] };
  has_kube = true;
  default_credentials = none;
  cache = spec.cache;
}

abbrev pub node_with : World → Dict BackoffEntry → NodeState World
node_with w backoffs = record {
  host = record { backoffs = backoffs; world = w };
  busy = [];
  gave_up = [];
  reports = record { reported = []; events = [] };
  notices = [];
}

abbrev pub request : StageRequest
request = record {
  volume_id = "d1";
  staging_target_path = staging;
  capability = some (record { block = false; mode = multi_node_multi_writer });
  volume_context = (annotation_uid, "1000") ∷ [];
  secrets = (token_key, "t") ∷ (passphrase_key, "p") ∷ [];
}

-- Its mount pod is ready, and has mounted the volume.
abbrev pub mounted : NodeState World
mounted = node_with (1, true) []

look-Tells : (w : World) → Tells (look w) w.0
look-Tells (zero, p) = refl
look-Tells (suc zero, p) = refl
look-Tells (suc (suc n), p) = omega arith

umount-pops : (w : World) → w.0 - 1 ≡ (elim (umount w) [ ok _ ↦ w.0 - 1 | err _ ↦ w.0 ])
umount-pops (zero, p) = refl
umount-pops (suc n, p) = refl

pub layers_of : Tracks mounts staging (λ w. w.0)
layers_of = record {
  reads = λ w. refl;
  tells = look-Tells;
  unmounts = umount-pops;
  detaches = λ w. refl;
  removed = λ w. refl;
}
