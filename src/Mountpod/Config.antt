-- ===== src/Mountpod/Config.antt =====
-- manager.go and config.go: the configuration of the mount pods. New fills in the defaults, ParseConfig
-- reads the file of the chart. encoding/json and time.ParseDuration are parameters. What is copied as it is
-- into the pods (pull policy and secrets, host aliases) is left out, as in Spec.Config; a port is natural.
pub mod File
mod Tests
use Prim.Native.Char.{code}
use Prim.Native.String.{[], ◌∷◌}
use retyc_k8s_csi.Prelude.{
  ℕ, zero, suc, ◌+◌, ◌*◌, ◌^◌, String, Bool, true, false, ◌&&◌, Option, none, some, Dict, ℤ, pos,
  negsuc, pos_part, ltb_ℤ, is_empty, ltb, nat_eq, ◌==◌, if◌then◌else◌, Result, ok, err,
}
use mathlib.Core.List
use retyc_k8s_csi.Mountpod.Backoff.{Policy}
use retyc_k8s_csi.Mountpod.Spec.{Requirements, Cache, Config}

-- strings.Cut(image, "@"): the text before.
unfoldable pub before_digest : String → String
before_digest [] = ""
before_digest (c ∷ s) = let rest = before_digest s in if nat_eq (code c) b'@' then "" else c ∷ rest

-- strings.LastIndex, `none` for -1: the last index so far is carried along.
unfoldable pub last_index : ℕ → ℕ → Option ℕ → String → Option ℕ
last_index c i found [] = found
last_index c i found (d ∷ s) = last_index c (suc i) (if nat_eq (code d) c then some i else found) s

-- i > j on the results of LastIndex.
unfoldable pub is_behind : Option ℕ → Option ℕ → Bool
is_behind none j = false
is_behind (some i) none = true
is_behind (some i) (some j) = ltb j i

-- name[i+1:]
unfoldable pub text_behind : Option ℕ → String → String
text_behind none s = s
text_behind (some i) [] = ""
text_behind (some zero) (c ∷ s) = s
text_behind (some (suc i)) (c ∷ s) = text_behind (some i) s

-- imageTag
unfoldable pub image_tag : String → String
image_tag image =
    let name = before_digest image in
    let colon = last_index b':' 0 none name in
    if is_behind colon (last_index b'/' 0 none name) then text_behind colon name else ""

-- setDefault, for texts and numbers.
unfoldable pub default_text : String → String → String
default_text v d = if v == "" then d else v

unfoldable pub default_number : ℕ → ℕ → ℕ
default_number v d = if nat_eq v 0 then d else v

-- A time.Duration in nanoseconds, and a quantity of memory in bytes, of CPU in thousandths.
abbrev pub seconds : ℕ → ℕ
seconds n = n * 10 ^ 9

abbrev pub mebibytes : ℕ → ℕ
mebibytes n = n * 2 ^ 20

-- DefaultResources
unfoldable pub default_resources : Requirements
default_resources = record {
  requests = List.◌∷◌ ("cpu", 50) (List.◌∷◌ ("memory", mebibytes 256) List.[]);
  limits = List.◌∷◌ ("memory", mebibytes 512) List.[];
}

unfoldable pub resources_or_default : Requirements → Requirements
resources_or_default r = if is_empty r.requests && is_empty r.limits then default_resources else r

-- The restart policy of New.
unfoldable pub policy_with_defaults : Policy → Policy
policy_with_defaults p = record {
  restart_backoff = default_number p.restart_backoff (seconds 5);
  max_restart_backoff = default_number p.max_restart_backoff (seconds 300);
  stable_after = default_number p.stable_after (seconds 60);
  max_fatal_exits = default_number p.max_fatal_exits 3;
}

-- The configuration of the Manager that New makes.
unfoldable pub with_defaults : Config → Config
with_defaults cfg = record cfg {
  cli_version = if cfg.cli_version == "" then image_tag cfg.image else cfg.cli_version;
  resources = resources_or_default cfg.resources;
  priority_class_name = default_text cfg.priority_class_name "system-node-critical";
  kubelet_dir = default_text cfg.kubelet_dir "/var/lib/kubelet";
  spool_root = default_text cfg.spool_root "/var/lib/retycfs-csi/spool";
  drain_timeout = default_number cfg.drain_timeout (seconds 300);
  metrics_port = default_number cfg.metrics_port 9567;
  policy = policy_with_defaults cfg.policy;
}
