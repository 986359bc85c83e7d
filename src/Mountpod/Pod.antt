-- ===== src/Mountpod/Pod.antt =====
-- manager.go: a mount pod as the Kubernetes API shows it, and the state read from it. Times are
-- nanoseconds, 0 the zero time. Messages are code points.
use retyc_k8s_csi.Prelude.{
  ℕ, ◌+◌, ◌*◌, ◌^◌, String, Bool, true, false, not, ◌&&◌, ◌||◌, Option, none, some, List, [], ◌∷◌,
  Dict, text_at, ℤ, ltb, is_some, is_empty, ◌==◌, if◌then◌else◌,
}
use retyc_k8s_csi.Mountpod.Backoff.{Backoff, fresh}

-- corev1.ContainerStateTerminated
pub record Termination : Type 0 where
  pub exit_code : ℤ
  pub reason : String
  pub message : List ℕ
  pub started_at : ℕ
  pub finished_at : ℕ

-- corev1.ContainerStatus: `waiting` holds the reason and the message, `running` the start.
pub record ContainerStatus : Type 0 where
  pub name : String
  pub terminated : Option Termination
  pub waiting : Option (String × List ℕ)
  pub running : Option ℕ

-- corev1.PodCondition
pub record Condition : Type 0 where
  pub kind : String
  pub status : String
  pub last_transition : ℕ

-- What the code reads of corev1.Pod. `ports` are those of the container specs, by the name of the
-- container, each with its name and number.
pub record Pod : Type 0 where
  pub name : String
  pub uid : String
  pub annotations : Dict String
  pub finalizers : List String
  pub deletion_timestamp : Option ℕ
  pub phase : String
  pub reason : String
  pub message : List ℕ
  pub pod_ip : String
  pub container_statuses : List ContainerStatus
  pub conditions : List Condition
  pub ports : List (String × List (String × ℕ))

abbrev pub container_name : String
container_name = "mount"

abbrev pub metrics_port_name : String
metrics_port_name = "metrics"

abbrev pub label_volume : String
label_volume = "csi.retycfs.com/volume"

abbrev pub label_node : String
label_node = "csi.retycfs.com/node"

abbrev pub label_pvc : String
label_pvc = "csi.retycfs.com/pvc"

abbrev pub label_namespace : String
label_namespace = "csi.retycfs.com/namespace"

abbrev pub annotation_config_hash : String
annotation_config_hash = "csi.retycfs.com/config-hash"

abbrev pub annotation_cli_version : String
annotation_cli_version = "csi.retycfs.com/cli-version"

abbrev pub annotation_secret : String
annotation_secret = "csi.retycfs.com/secret"

abbrev pub annotation_staging_path : String
annotation_staging_path = "csi.retycfs.com/staging-path"

abbrev pub annotation_spec : String
annotation_spec = "csi.retycfs.com/spec"

abbrev pub finalizer_in_use : String
finalizer_in_use = "csi.retycfs.com/in-use"

-- A minute.
abbrev pub stuck_after : ℕ
stuck_after = 60 * 10 ^ 9

-- `no_phase` is the empty text, the phase of the zero State.
pub data Phase : Type 0 where
  no_phase phase_absent phase_pending phase_running phase_terminating phase_exited : Phase

pub record State : Type 0 where
  pub name : String
  pub phase : Phase
  pub pod : Option Pod
  pub volume_id : String
  pub node_name : String
  pub pvc_name : String
  pub pvc_namespace : String
  pub config_hash : String
  pub cli_version : String
  pub staging_path : String
  pub config_changed : Bool
  pub waiting_reason : String
  pub waiting_message : List ℕ
  pub exit_code : Option ℤ
  pub exit_reason : String
  pub exit_message : List ℕ
  pub was_ready : Bool
  pub backoff : Backoff

-- The zero State.
abbrev pub no_state : State
no_state = record {
  name = "";
  phase = no_phase;
  pod = none;
  volume_id = "";
  node_name = "";
  pvc_name = "";
  pvc_namespace = "";
  config_hash = "";
  cli_version = "";
  staging_path = "";
  config_changed = false;
  waiting_reason = "";
  waiting_message = [];
  exit_code = none;
  exit_reason = "";
  exit_message = [];
  was_ready = false;
  backoff = fresh;
}

-- The termination of the first container status of the mount container.
unfoldable pub termination : List ContainerStatus → Option Termination
termination [] = none
termination (cs ∷ rest) =
    let later = termination rest in if cs.name == container_name then cs.terminated else later

-- terminated
unfoldable pub terminated : Option Pod → Option Termination
terminated none = none
terminated (some pod) = termination pod.container_statuses

unfoldable pub finished : ℕ → Pod → Bool
finished now pod =
    if is_some (terminated (some pod))
      || (pod.phase == "Failed" || (pod.phase == "Succeeded" || pod.reason == "NodeLost"))
    then true
    else elim pod.deletion_timestamp [ none ↦ false | some at ↦ ltb (at + stuck_after) now ]

-- When the mount container started, by its last status that says so.
unfoldable pub started : ℕ → List ContainerStatus → ℕ
started at [] = at
started at (cs ∷ rest) =
    let start : ℕ = elim cs.terminated [
      | some t ↦ t.started_at
      | none ↦ elim cs.running [ some since ↦ since | none ↦ at ]
    ] in
    started (if cs.name == container_name then start else at) rest

-- The first Ready condition decides.
unfoldable pub ready_since : ℕ → List Condition → Bool
ready_since start [] = false
ready_since start (c ∷ rest) =
    let later = ready_since start rest in
    if c.kind == "Ready"
    then c.status == "True" || (ltb 0 start && ltb start c.last_transition)
    else later

unfoldable pub was_ready : Pod → Bool
was_ready pod = ready_since (started 0 pod.container_statuses) pod.conditions

unfoldable pub read_termination : Termination → State → State
read_termination t st =
    if not (t.reason == "") || not (is_empty t.message)
    then record st {
      exit_code = some t.exit_code;
      exit_reason = t.reason;
      exit_message = t.message;
    }
    else record st { exit_code = some t.exit_code }

-- One turn of the loop of stateOf on a container status, with whether the container runs.
unfoldable pub read_status : ContainerStatus → State × Bool → State × Bool
read_status cs (st, running) =
    let after : State × Bool = elim cs.terminated [
      | some t ↦ (read_termination t st, running)
      | none ↦ elim cs.waiting [
        | some (reason, message) ↦
            (record st { waiting_reason = reason; waiting_message = message }, running)
        | none ↦ (st, running || is_some cs.running)
      ]
    ] in
    if cs.name == container_name then after else (st, running)

unfoldable pub read_statuses : List ContainerStatus → State × Bool → State × Bool
read_statuses [] s = s
read_statuses (cs ∷ rest) s = read_statuses rest (read_status cs s)

unfoldable pub phase_of : ℕ → Pod → Bool → Phase
phase_of now pod running =
    if is_some pod.deletion_timestamp
    then phase_terminating
    else if finished now pod
    then phase_exited
    else if running
    then phase_running
    else phase_pending

unfoldable pub state_of : ℕ → Pod → State
state_of now pod =
    let at : String → String = λ k. text_at k pod.annotations in
    let (st, running) : State × Bool = read_statuses pod.container_statuses (
      record no_state {
        name = pod.name;
        pod = some pod;
        volume_id = at label_volume;
        node_name = at label_node;
        pvc_name = at label_pvc;
        pvc_namespace = at label_namespace;
        config_hash = at annotation_config_hash;
        cli_version = at annotation_cli_version;
        staging_path = at annotation_staging_path;
        exit_reason = pod.reason;
        exit_message = pod.message;
      },
      false,
    ) in
    record st { was_ready = was_ready pod; phase = phase_of now pod running }

-- The port of the first metrics port of a mount container, 0 when none.
unfoldable pub port_named : List (String × ℕ) → Option ℕ
port_named [] = none
port_named ((name, port) ∷ ports) =
    let later = port_named ports in if name == metrics_port_name then some port else later

unfoldable pub metrics_port_in : List (String × List (String × ℕ)) → ℕ
metrics_port_in [] = 0
metrics_port_in ((name, ports) ∷ containers) =
    let later = metrics_port_in containers in
    if name == container_name
    then elim (port_named ports) [ some port ↦ port | none ↦ later ]
    else later

unfoldable pub metrics_port : Pod → ℕ
metrics_port pod = metrics_port_in pod.ports
