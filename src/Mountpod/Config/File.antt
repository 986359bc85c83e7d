-- ===== src/Mountpod/Config/File.antt =====
-- config.go: the file of --mount-config.
use retyc_k8s_csi.Prelude.{
  ℕ, String, Bool, Option, none, some, Dict, ℤ, pos_part, is_positive, ◌==◌, if◌then◌else◌, Result,
  ok, err,
}
use retyc_k8s_csi.Mountpod.Backoff.{Policy}
use retyc_k8s_csi.Mountpod.Spec.{Requirements, Cache, Config}

-- FileConfig, its field Redis a Cache.
pub record FileConfig : Type 0 where
  pub image : String
  pub cli_version : String
  pub extra_env : Dict String
  pub host_pid : Bool
  pub resources : Requirements
  pub priority_class_name : String
  pub kubelet_dir : String
  pub spool_dir : String
  pub drain_timeout : String
  pub metrics_port : ℕ
  pub redis : Cache

pub data ConfigError : Type 0 where
  bad_json image_required bad_drain_timeout : ConfigError

-- The policy is not in the file: New sets it.
abbrev pub no_policy : Policy
no_policy = record {
  restart_backoff = 0;
  max_restart_backoff = 0;
  stable_after = 0;
  max_fatal_exits = 0;
}

unfoldable pub config_of : FileConfig → ℕ → Config
config_of fc drain_timeout = record {
  namespace = "";
  image = fc.image;
  cli_version = fc.cli_version;
  extra_env = fc.extra_env;
  host_pid = fc.host_pid;
  resources = fc.resources;
  priority_class_name = fc.priority_class_name;
  kubelet_dir = fc.kubelet_dir;
  spool_root = fc.spool_dir;
  drain_timeout = drain_timeout;
  metrics_port = fc.metrics_port;
  policy = no_policy;
}

-- What time.ParseDuration made of drainTimeout, `none` an error.
unfoldable pub with_drain_timeout : FileConfig → Option ℤ → Result ConfigError (Config × Cache)
with_drain_timeout fc none = err bad_drain_timeout
with_drain_timeout fc (some d) =
    if is_positive d then ok (config_of fc (pos_part d), fc.redis) else err bad_drain_timeout

-- The decoded file.
unfoldable pub file_config :
    (String → Option ℤ) → Option FileConfig → Result ConfigError (Config × Cache)
file_config duration none = err bad_json
file_config duration (some fc) =
    if fc.image == ""
    then err image_required
    else if fc.drain_timeout == ""
    then ok (config_of fc 0, fc.redis)
    else with_drain_timeout fc (duration fc.drain_timeout)

-- ParseConfig
unfoldable pub parse_config :
    (String → Option FileConfig)
    → (String → Option ℤ)
    → String
    → Result ConfigError (Config × Cache)
parse_config decode duration text = file_config duration (decode text)
