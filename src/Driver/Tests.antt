-- ===== src/Driver/Tests.antt =====
-- Evaluations of annotations.go and tenant.go.
use retyc_k8s_csi.Prelude.{
  pos, Bool, ◌<◌, ◌^◌, String, ◌≡◌, ◌⊎◌, refl, false, none, some, [], ◌∷◌, Dict, lookup, insert, ok,
  ◌==◌, if◌then◌else◌,
}
use retyc_k8s_csi.Retyc.Codes.{is_digit}
use retyc_k8s_csi.Driver.Status.{Fetch, found, missing}
use retyc_k8s_csi.Driver.Claims.{
  annotation_uid, annotation_gid, Owner, claim_owner, owner_from, with_gid, parse_id, parse_uint32,
  digits_value,
}
use retyc_k8s_csi.Driver.Claims.Laws.{Gives, claim_owner_sound}
use retyc_k8s_csi.Driver.Recovery.{
  MountInfo, mount_source, is_dead, note, collect_one, collect, keep_dead, dead_among, dead_targets,
}
use retyc_k8s_csi.Driver.Recovery.Dead.{AllDead, dead_targets-IsDeadTarget}
use retyc_k8s_csi.Mountpod.Pod.{Pod, phase_exited, phase_terminating, State, no_state}
use retyc_k8s_csi.Driver.Exits.{exit_event, Reports, report_exit_early, report_exit}
use retyc_k8s_csi.Driver.Exits.Once.{Ended, reported_early_once}
use retyc_k8s_csi.Driver.Tenant.{
  PersistentVolume, Classes, check_default_identity, driver_name, node_stage_secret_param,
}
use retyc_k8s_csi.Driver.Tenant.Sound.{Serves, is_ok, may_use_default, check_default_identity_sound}

abbrev annotated : Dict String
annotated = (annotation_uid, "1000") ∷ (annotation_gid, "50") ∷ []

abbrev owner : Owner
owner = record { uid = 1000; gid = 50 }

accepted : claim_owner annotated ≡ ok owner
unfolding claim_owner owner_from with_gid parse_id parse_uint32 digits_value is_digit lookup
accepted = refl

claim_owner_sound_example :
    Gives (lookup annotation_uid annotated) 1000
    × (((lookup annotation_gid annotated ≡ none) × (owner.gid ≡ owner.uid))
        ⊎ Gives (lookup annotation_gid annotated) 50)
    × (1000 < 2 ^ 32)
    × (50 < 2 ^ 32)
claim_owner_sound_example = claim_owner_sound annotated owner accepted

-- A static PV of a tenant class, written without a secret reference.
abbrev tenant_pv : PersistentVolume
tenant_pv = record {
  name = "pv-1";
  driver = some driver_name;
  volume_handle = "d1";
  secret_ref = false;
  storage_class_name = "tenant";
}

abbrev class_of : String → Fetch (Dict String)
class_of name = if name == "tenant" then found ((node_stage_secret_param, "acme") ∷ []) else missing

abbrev api : Classes (Unit {0})
api = record {
  list_pvs = λ w. (some (tenant_pv ∷ []), w);
  get_class = λ name w. (class_of name, w);
}

abbrev served : Serves api (some (tenant_pv ∷ [])) class_of
served = record { lists = λ w. refl; reads = λ n w. refl }

check_default_identity_sound_example :
    is_ok (check_default_identity api "d1" none tt).0
    ≡ may_use_default class_of "d1" (some (tenant_pv ∷ []))
check_default_identity_sound_example =
    check_default_identity_sound api (some (tenant_pv ∷ [])) class_of served "d1" none tt

-- The live mount on the staging path, and a bind mount of a former one on a pod's target path.
abbrev live : MountInfo
live = record {
  mount_point = "/staging";
  source = "retyc://d1";
  root = "/";
  major = 0;
  minor = 5;
  mount_options = [];
}

abbrev stale : MountInfo
stale = record {
  mount_point = "/pods/a";
  source = "retyc://d1";
  root = "/";
  major = 0;
  minor = 4;
  mount_options = [];
}

abbrev is_pod_path : String → Bool
is_pod_path path = path == "/pods/a"

one_target : dead_targets is_pod_path (live ∷ stale ∷ []) "d1" (0, 5) ≡ stale ∷ []
unfolding dead_targets collect collect_one note dead_among keep_dead is_dead mount_source lookup
    insert
one_target = refl

not_everywhere : is_pod_path "" ≡ false
not_everywhere = refl

dead_targets-IsDeadTarget_example :
    AllDead is_pod_path
      (live ∷ stale ∷ [])
      "d1"
      (0, 5)
      not_everywhere
      (dead_targets is_pod_path (live ∷ stale ∷ []) "d1" (0, 5))
dead_targets-IsDeadTarget_example =
    dead_targets-IsDeadTarget is_pod_path (live ∷ stale ∷ []) "d1" (0, 5) not_everywhere

abbrev dead_pod : Pod
dead_pod = record {
  name = "m1";
  uid = "u1";
  annotations = [];
  finalizers = [];
  deletion_timestamp = none;
  phase = "Failed";
  reason = "";
  message = [];
  pod_ip = "";
  container_statuses = [];
  conditions = [];
  ports = [];
}

-- A failed start.
abbrev failed_start : State
failed_start = record no_state {
  volume_id = "d1";
  phase = phase_exited;
  pod = some dead_pod;
  exit_code = some (pos 1);
}

-- The same pod, deleted by hand meanwhile.
abbrev deleted_start : State
deleted_start = record failed_start { phase = phase_terminating }

abbrev deleted_once : Ended dead_pod (pos 1) deleted_start
deleted_once = record { over = refl; pod_there = refl; exit_code = refl }

abbrev exited_once : Ended dead_pod (pos 1) failed_start
exited_once = record { over = refl; pod_there = refl; exit_code = refl }

abbrev no_reports : Reports
no_reports = record { reported = []; events = [] }

reported_early_once_example :
    (report_exit failed_start
      (report_exit_early deleted_start (report_exit_early deleted_start no_reports))).events
    ≡ ("d1", exit_event deleted_start (pos 1)) ∷ []
reported_early_once_example =
    reported_early_once dead_pod (pos 1) deleted_start deleted_start failed_start no_reports
      deleted_once deleted_once exited_once refl refl
