-- ===== src/Mountpod/Tests.antt =====
-- Evaluations of the restart state and of the resources.
use retyc_k8s_csi.Prelude.{
  suc, ◌+◌, ◌*◌, ◌/◌, ◌^◌, ◌≤◌, ◌<◌, String, ◌≡◌, ◌≢◌, refl, true, false, ◌||◌, none, some, List,
  [], ◌∷◌, Dict, lookup, insert, pos, arith, eq_iff,
}
use Prim.Native.Nat.{min}
use retyc_k8s_csi.Mountpod.Backoff.{
  Policy, Backoff, BackoffEntry, fresh, fresh_entry, PodExit, restart_delay, entry, entry_for,
  schedule, record_exit,
}
use retyc_k8s_csi.Mountpod.Backoff.Delay.{restart_delay_capped}
use retyc_k8s_csi.Mountpod.Backoff.Laws.{recorded_once, schedule_bounds}
use retyc_k8s_csi.Mountpod.Backoff.GiveUp.{
  Recorded, record_all, reaches, gave_up-record_all, forgets, apply, may_end, given_up,
  give_up_stays,
}
use retyc_k8s_csi.Mountpod.Spec.{Requirements, Spec, Config}
use retyc_k8s_csi.Mountpod.Spec.Resources.{overlay, lower, lower_all, resources, resources_within}

-- The defaults: 5 s, 5 min, 1 min, 3 exits.
abbrev policy : Policy
policy = record {
  restart_backoff = 5 * 10 ^ 9;
  max_restart_backoff = 300 * 10 ^ 9;
  stable_after = 60 * 10 ^ 9;
  max_fatal_exits = 3;
}

abbrev refused : String → PodExit
refused uid = record { uid = uid; staging = "/s"; code = pos 77; message = []; ran = 0 }

short : 300 * 10 ^ 9 ≤ 2 ^ 62
short = omega arith

restart_delay_capped_example :
    restart_delay (pos (5 * 10 ^ 9)) (pos (300 * 10 ^ 9)) (suc 2)
    ≡ pos (min (5 * 10 ^ 9 * 2 ^ 2) (300 * 10 ^ 9))
restart_delay_capped_example = restart_delay_capped (5 * 10 ^ 9) (300 * 10 ^ 9) 2 short

uid_there : (refused "u1").uid ≢ ""
uid_there = ground (arith, eq_iff "u1" "")

recorded_once_example :
    entry
      (record_exit policy 9 1 "d1" "h"
        (refused "u1")
        (record_exit policy 5 0 "d1" "h" (refused "u1") []))
      "d1"
      "h"
    ≡ entry (record_exit policy 5 0 "d1" "h" (refused "u1") []) "d1" "h"
recorded_once_example = recorded_once policy 5 9 0 1 "d1" "h" (refused "u1") [] uid_there

abbrev failed_twice : Backoff
failed_twice = record fresh { consecutive_failures = 2 }

few_exits : failed_twice.fatal_exits < policy.max_fatal_exits
few_exits = omega arith

schedule_bounds_example :
    let d = min (5 * 10 ^ 9 * 2 ^ 1) (300 * 10 ^ 9) in
    let t = (schedule policy 7 3 failed_twice).next_restart in (7 + d ≤ t) × (t ≤ 7 + d + d / 10)
schedule_bounds_example = schedule_bounds policy 7 3 1 failed_twice short refl few_exits

abbrev refusals : List Recorded
refusals =
    record { now = 1; rand = 0; exit = refused "u1" }
    ∷ record { now = 2; rand = 0; exit = refused "u2" }
    ∷ record { now = 3; rand = 0; exit = refused "u3" }
    ∷ []

gave_up-record_all_example :
    (record_all policy refusals (fresh_entry "h")).backoff.gave_up ≡ (reaches 3 0 refusals || false)
gave_up-record_all_example = gave_up-record_all policy refusals (fresh_entry "h") (
  ground (arith, eq_iff "u1" ""),
  ground (arith, eq_iff "u1" ""),
  (
    ground (arith, eq_iff "u2" ""),
    ground (arith, eq_iff "u2" "u1"),
    (ground (arith, eq_iff "u3" ""), ground (arith, eq_iff "u3" "u2"), tt),
  ),
)

abbrev hopeless : Dict BackoffEntry
hopeless = ("d1", record (fresh_entry "h") { backoff = record fresh { gave_up = true } }) ∷ []

is_hopeless : given_up "d1" "h" hopeless ≡ true
unfolding entry entry_for lookup
is_hopeless = refl

deleted_pod : may_end "d1" "h" (forgets "d1" "h") ≡ false
unfolding may_end
deleted_pod = refl

give_up_stays_example : given_up "d1" "h" (apply policy (forgets "d1" "h") hopeless) ≡ true
give_up_stays_example =
    give_up_stays policy (forgets "d1" "h") "d1" "h" hopeless is_hopeless deleted_pod

abbrev defaults : Requirements
defaults = record { requests = ("memory", 256) ∷ []; limits = ("memory", 512) ∷ [] }

abbrev config : Config
config = record {
  namespace = "retyc";
  image = "retyc-cli:1";
  cli_version = "1";
  extra_env = [];
  host_pid = false;
  resources = defaults;
  priority_class_name = "system-node-critical";
  kubelet_dir = "/var/lib/kubelet";
  spool_root = "/spool";
  drain_timeout = 300 * 10 ^ 9;
  metrics_port = 9567;
  policy = policy;
}

-- A claim with a memory limit of its own, below the default request.
abbrev small_spec : Spec
small_spec = record {
  volume_id = "d1";
  node_name = "n1";
  pvc_name = "data";
  pvc_namespace = "apps";
  staging_path = "/k/plugins/x/globalmount";
  credentials = record { token = "t"; passphrase = "p" };
  cache = record { redis_url = ""; high_confidentiality = false };
  owner_uid = 1000;
  owner_gid = 1000;
  options = record {
    cache_ttl = 0;
    background_delete = false;
    unsafe_write = false;
    read_only = false;
    local_file = [];
  };
  resources = record { requests = []; limits = ("memory", 128) ∷ [] };
}

no_request : lookup "memory" small_spec.resources.requests ≡ none
unfolding lookup
no_request = refl

small_limit : lookup "memory" (resources config small_spec).limits ≡ some 128
unfolding resources overlay lookup insert
small_limit = refl

small_request : lookup "memory" (resources config small_spec).requests ≡ some 128
unfolding resources overlay lower_all lower lookup insert
small_request = refl

resources_within_example : 128 ≤ 128
resources_within_example =
    resources_within config small_spec "memory" 128 128 no_request small_limit small_request
