-- ===== src/Mountpod/Sample.antt =====
-- A volume, a configuration and library functions at which the theorems are instantiated.
use Prim.Native.String.{◌++◌}
use retyc_k8s_csi.Prelude.{◌*◌, ◌^◌, true, false, [], ok}
use retyc_k8s_csi.Mountpod.Spec.{Requirements, Spec, Config, Formats}
use retyc_k8s_csi.Mountpod.Manager.Rebuild.{stored_of}

abbrev nothing_asked : Requirements
nothing_asked = record { requests = []; limits = [] }

abbrev pub spec : Spec
spec = record {
  volume_id = "d1";
  node_name = "n1";
  pvc_name = "data";
  pvc_namespace = "apps";
  staging_path = "/k/plugins/x/globalmount";
  credentials = record { token = "t"; passphrase = "p" };
  cache = record { redis_url = ""; high_confidentiality = false };
  owner_uid = 1000;
  owner_gid = 1000;
  options = record {
    cache_ttl = 0;
    background_delete = false;
    unsafe_write = false;
    read_only = false;
    local_file = [];
  };
  resources = nothing_asked;
}

abbrev pub config : Config
config = record {
  namespace = "retyc";
  image = "retyc-cli:1";
  cli_version = "1";
  extra_env = [];
  host_pid = false;
  resources = nothing_asked;
  priority_class_name = "system-node-critical";
  kubelet_dir = "/k";
  spool_root = "/spool";
  drain_timeout = 300 * 10 ^ 9;
  metrics_port = 9567;
  policy = record {
    restart_backoff = 5 * 10 ^ 9;
    max_restart_backoff = 300 * 10 ^ 9;
    stable_after = 60 * 10 ^ 9;
    max_fatal_exits = 3;
  };
}

abbrev pub formats : Formats
formats = record {
  join = λ a b. a ++ "/" ++ b;
  dir = λ p. "/k/plugins/x";
  base = λ p. "globalmount";
  clean = λ p. p;
  is_abs = λ p. true;
  duration = λ d. "5m0s";
  decimal = λ n. "1000";
  digest8 = λ s. s;
  digest16 = λ s. s;
  marshal_config = λ c k u g o r i. i;
  marshal_stored = λ s. "{}";
  unmarshal_stored = λ s. ok (stored_of spec);
  is_label = λ v. true;
}
