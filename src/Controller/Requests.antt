-- ===== src/Controller/Requests.antt =====
-- controller.go: the requests, and the checks that neither the API nor the CLI is asked for.
use retyc_k8s_csi.Prelude.{
  ◌^◌, ◌*◌, String, Bool, true, false, not, ◌&&◌, ◌||◌, Option, none, some, List, [], ◌∷◌, Dict, ℤ,
  pos, is_zero, is_negative, is_positive, ltb_ℤ, max_ℤ, is_empty, all, contains, ◌==◌,
  if◌then◌else◌, Result, ok, err,
}
use retyc_k8s_csi.Identity.{Credentials, from_secrets, from_env, env_overrides}
use retyc_k8s_csi.Retyc.Codes.{codes, has_prefix}
use retyc_k8s_csi.Retyc.Commands.{Client, with_env}
use retyc_k8s_csi.Driver.Status.{
  Status, status, refuse_if, ◌then_check◌, invalid_argument, failed_precondition, out_of_range,
}

pub data AccessMode : Type 0 where
  unknown single_node_writer single_node_reader_only multi_node_reader_only : AccessMode
  multi_node_single_writer multi_node_multi_writer single_node_single_writer : AccessMode
  single_node_multi_writer : AccessMode

pub record VolumeCapability : Type 0 where
  pub block : Bool
  pub mode : AccessMode

unfoldable pub is_mount_mode : AccessMode → Bool
is_mount_mode unknown = false
is_mount_mode single_node_writer = true
is_mount_mode _ = true

unfoldable pub is_supported_capability : VolumeCapability → Bool
is_supported_capability cap = if cap.block then false else is_mount_mode cap.mode

abbrev pub kubernetes_parameter_prefix : String
kubernetes_parameter_prefix = "csi.storage.k8s.io/"

abbrev pub pvc_name_parameter : String
pvc_name_parameter = "csi.storage.k8s.io/pvc/name"

abbrev pub pvc_namespace_parameter : String
pvc_namespace_parameter = "csi.storage.k8s.io/pvc/namespace"

abbrev pub versioning_parameter : String
versioning_parameter = "versioning"

abbrev pub volume_context_pvc_name : String
volume_context_pvc_name = "pvcName"

abbrev pub volume_context_namespace : String
volume_context_namespace = "pvcNamespace"

-- A key of the sidecars.
unfoldable pub is_sidecar_key : String → Bool
is_sidecar_key key = has_prefix (codes key) (codes kubernetes_parameter_prefix)

unfoldable pub check_parameters : Dict String → Result Status (Unit {0})
check_parameters [] = ok tt
check_parameters ((key, _) ∷ params) =
    let rest = check_parameters params in
    if is_sidecar_key key then rest else err (status invalid_argument)

-- strconv.ParseBool
unfoldable pub parse_bool : String → Option Bool
parse_bool s =
    if contains ("1" ∷ "t" ∷ "T" ∷ "true" ∷ "TRUE" ∷ "True" ∷ []) s
    then some true
    else if contains ("0" ∷ "f" ∷ "F" ∷ "false" ∷ "FALSE" ∷ "False" ∷ []) s
    then some false
    else none

-- The loop of parseMutableParameters, `versioning` being what it found so far.
unfoldable pub read_mutable : Option Bool → Dict String → Result Status (Option Bool)
read_mutable versioning [] = ok versioning
read_mutable versioning ((key, value) ∷ params) =
    let others = read_mutable versioning params in
    let set = λ (v : Bool). read_mutable (some v) params in
    if key == versioning_parameter
    then elim (parse_bool value) [ none ↦ err (status invalid_argument) | some v ↦ set v ]
    else if is_sidecar_key key
    then others
    else err (status invalid_argument)

unfoldable pub parse_mutable_parameters : Dict String → Result Status (Option Bool)
parse_mutable_parameters = read_mutable none

-- 20 GiB, the smallest reservation of the Retyc API.
abbrev pub min_dataroom_capacity : ℤ
min_dataroom_capacity = pos (20 * 2 ^ 30)

-- A nil range reads as zero.
pub record CapacityRange : Type 0 where
  pub required : ℤ
  pub limit : ℤ

unfoldable pub reserved_bytes : CapacityRange → Result Status ℤ
reserved_bytes r =
    if is_negative r.required || is_negative r.limit
    then err (status invalid_argument)
    else if is_positive r.limit && ltb_ℤ r.limit r.required
    then err (status out_of_range)
    else if is_zero r.required && is_zero r.limit
    then ok (pos 0)
    else if is_positive r.limit && ltb_ℤ r.limit min_dataroom_capacity
    then err (status out_of_range)
    else ok (max_ℤ r.required min_dataroom_capacity)

-- The server: the client with the driver's own environment, and whether it has a Kubernetes client.
pub record ControllerServer : Type 0 where
  pub retyc : Client
  pub has_kube : Bool

abbrev default_client : Client → Option Credentials → Result Status Client
default_client retyc none = err (status failed_precondition)
default_client retyc (some _) = ok retyc

-- ControllerServer.client
unfoldable pub client : ControllerServer → Dict String → Result Status Client
client s secrets = elim (from_secrets secrets) [
  | err _ ↦ err (status invalid_argument)
  | ok (some creds) ↦ ok (with_env s.retyc (env_overrides creds))
  | ok none ↦ default_client s.retyc (from_env s.retyc.env)
]

pub record CreateVolumeRequest : Type 0 where
  pub name : String
  pub capabilities : List VolumeCapability
  pub parameters : Dict String
  pub mutable_parameters : Dict String
  pub capacity_range : CapacityRange
  pub secrets : Dict String

-- The part of CreateVolume that reads the request alone: the versioning and the capacity to ask for.
unfoldable pub check_request : CreateVolumeRequest → Result Status (Option Bool × ℤ)
check_request req =
    refuse_if (req.name == "") invalid_argument
    then_check refuse_if (is_empty req.capabilities) invalid_argument
    then_check refuse_if (not (all is_supported_capability req.capabilities)) invalid_argument
    then_check check_parameters req.parameters
    then_check (elim (parse_mutable_parameters req.mutable_parameters) [
      | err e ↦ err e
      | ok versioning ↦ elim (reserved_bytes req.capacity_range) [
        | err e ↦ err e
        | ok capacity ↦ ok (versioning, capacity)
      ]
    ])
