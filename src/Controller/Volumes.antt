-- ===== src/Controller/Volumes.antt =====
-- controller.go: the calls, over the retyc CLI and the claims of the Kubernetes API.
use retyc_k8s_csi.Prelude.{
  String, Bool, not, ◌&&◌, ◌||◌, Option, none, some, List, [], ◌∷◌, Dict, ℤ, is_zero, is_positive,
  ltb_ℤ, all, text_at, ◌==◌, if◌then◌else◌, Result, ok, err, Exec, pure, lift, rescue, ◌>>=◌, ◌>>◌,
}
use retyc_k8s_csi.Retyc.Errors.{Failure, is_not_found}
use retyc_k8s_csi.Retyc.Commands.{
  Cli, Client, Dataroom, DataroomDeleteResult, UserQuota, has_dataroom_quota, create_dataroom,
  update_dataroom, delete_dataroom, list_datarooms, quota,
}
use retyc_k8s_csi.Driver.Status.{
  Status, status, refuse_if, Fetch, found, missing, failed, invalid_argument, failed_precondition,
  not_found, already_exists, resource_exhausted, unavailable,
}
use retyc_k8s_csi.Driver.Claims.{claim_owner}
use retyc_k8s_csi.Controller.Requests.{
  VolumeCapability, CapacityRange, ControllerServer, CreateVolumeRequest, pvc_name_parameter,
  pvc_namespace_parameter, volume_context_pvc_name, volume_context_namespace,
  is_supported_capability, parse_mutable_parameters, reserved_bytes, check_request, client,
}
use retyc_k8s_csi.Controller.Errors.{api_error, update_error}

pub record Volume : Type 0 where
  pub volume_id : String
  pub capacity_bytes : ℤ
  pub volume_context : Dict String

unfoldable pub create_volume_response : String → ℤ → String → String → Volume
create_volume_response id capacity pvc_name pvc_namespace = record {
  volume_id = id;
  capacity_bytes = capacity;
  volume_context =
      (volume_context_pvc_name, pvc_name) ∷ (volume_context_namespace, pvc_namespace) ∷ [];
}

-- The response to a request, for a dataroom and its reservation.
abbrev pub respond : CreateVolumeRequest → String → ℤ → Volume
respond req id capacity =
    create_volume_response id capacity (text_at pvc_name_parameter req.parameters)
      (text_at pvc_namespace_parameter req.parameters)

-- The first dataroom with the title.
unfoldable pub find_title : String → List Dataroom → Option Dataroom
find_title name [] = none
find_title name (dr ∷ items) =
    let rest = find_title name items in if dr.title == name then some dr else rest

-- The reservation of an existing dataroom, if it is compatible with the request.
unfoldable pub reuse : ℤ → ℤ → Dataroom → Result Status ℤ
reuse capacity limit dr = elim dr.storage_capacity [
  | none ↦ ok capacity
  | some reserved ↦
      if ltb_ℤ reserved capacity || (is_positive limit && ltb_ℤ limit reserved)
      then err (status already_exists)
      else ok reserved
]

unfoldable pub check_quota : UserQuota → Result Status (Unit {0})
check_quota q =
    if q.is_upload_read_only
    then err (status resource_exhausted)
    else if not (has_dataroom_quota q)
    then err (status resource_exhausted)
    else ok tt

-- What the annotations of a claim say of its owner.
unfoldable pub check_owner : Fetch (Dict String) → Result Status (Unit {0})
check_owner missing = err (status not_found)
check_owner failed = err (status unavailable)
check_owner (found annotations) = elim (claim_owner annotations) [
  | err _ ↦ err (status invalid_argument)
  | ok _ ↦ ok tt
]

-- The reservation to send: none without a capacity.
abbrev pub reservation : ℤ → Option ℤ
reservation capacity = if is_positive capacity then some capacity else none

-- The first dataroom `id` of the list that reserves `capacity` already.
unfoldable pub find_reserved : String → ℤ → List Dataroom → Option ℤ
find_reserved id capacity [] = none
find_reserved id capacity (dr ∷ items) =
    let rest = find_reserved id capacity items in
    if dr.id == id
    then elim dr.storage_capacity [
      | none ↦ rest
      | some c ↦ if ltb_ℤ c capacity then rest else some c
    ]
    else rest

-- DeleteVolume's answer to the outcome of `dataroom rm`.
unfoldable pub deleted : Result Failure DataroomDeleteResult → Result Status (Unit {0})
deleted (ok _) = ok tt
deleted (err e) = if is_not_found e then ok tt else err (api_error e)

-- The volume context, the capabilities and the parameters that are confirmed are the request's.
pub data Validation : Type 0 where
  confirmed : Dict String → List VolumeCapability → Dict String → Validation
  unsupported : Validation

unfoldable pub validate_volume_capabilities :
    String → List VolumeCapability → Dict String → Dict String → Result Status Validation
validate_volume_capabilities id capabilities context parameters =
    if id == ""
    then err (status invalid_argument)
    else if all is_supported_capability capabilities
    then ok (confirmed context capabilities parameters)
    else ok unsupported

-- `get_claim` reads the annotations of the claim of a namespace and a name.
module _ {W : Type 0} (tool : Cli W)
    (get_claim : String → String → W → Fetch (Dict String) × W) where
  unfoldable pub check_claim : ControllerServer → String → String → Exec Status W (Unit {0})
  check_claim s namespace name =
      if namespace == "" || name == ""
      then lift (err (status invalid_argument))
      else if not s.has_kube
      then lift (err (status failed_precondition))
      else λ w. let (answer, w') = get_claim namespace name w in (check_owner answer, w')

  -- CreateVolume once the datarooms are listed: with the dataroom of that title, or without one.
  unfoldable pub settle :
      Client → CreateVolumeRequest → Option Bool → ℤ → Option Dataroom → Exec Status W Volume
  settle retyc req versioning capacity (some dr) = do
    reserved ← lift (reuse capacity req.capacity_range.limit dr)
    pure (respond req dr.id reserved)
  settle retyc req versioning capacity none = do
    q ← rescue api_error (quota tool retyc)
    lift (check_quota q)
    result ←
        rescue api_error (create_dataroom tool retyc req.name (reservation capacity) versioning)
    pure (respond req result.id capacity)

  -- CreateVolume, from the listing on.
  unfoldable pub provision : Client → CreateVolumeRequest → Option Bool → ℤ → Exec Status W Volume
  provision retyc req versioning capacity = do
    existing ← rescue api_error (list_datarooms tool retyc)
    settle retyc req versioning capacity (find_title req.name existing)

  unfoldable pub create_volume : ControllerServer → CreateVolumeRequest → Exec Status W Volume
  create_volume s req = do
    (versioning, capacity) ← lift (check_request req)
    check_claim s (text_at pvc_namespace_parameter req.parameters)
        (text_at pvc_name_parameter req.parameters)
    retyc ← lift (client s req.secrets)
    provision retyc req versioning capacity

  unfoldable pub delete_volume : ControllerServer → String → Dict String → Exec Status W (Unit {0})
  delete_volume s id secrets = do
    lift (refuse_if (id == "") invalid_argument)
    retyc ← lift (client s secrets)
    λ w. let (r, w') = delete_dataroom tool retyc id w in (deleted r, w')

  -- The capacity that the response reports.
  unfoldable pub controller_expand_volume :
      ControllerServer → String → CapacityRange → Dict String → Exec Status W ℤ
  controller_expand_volume s id range secrets = do
    lift (refuse_if (id == "") invalid_argument)
    lift (refuse_if (is_zero range.required) invalid_argument)
    capacity ← lift (reserved_bytes range)
    retyc ← lift (client s secrets)
    items ← rescue api_error (list_datarooms tool retyc)
    elim (find_reserved id capacity items) [
      | some c ↦ pure c
      | none ↦ (do
        rescue update_error (update_dataroom tool retyc id (some capacity) none)
        pure capacity)
    ]

  abbrev modify : ControllerServer → String → Dict String → Option Bool → Exec Status W (Unit {0})
  modify s id secrets none = pure tt
  modify s id secrets (some v) = do
    retyc ← lift (client s secrets)
    rescue update_error (update_dataroom tool retyc id none (some v))

  unfoldable pub controller_modify_volume :
      ControllerServer → String → Dict String → Dict String → Exec Status W (Unit {0})
  controller_modify_volume s id mutable_parameters secrets = do
    lift (refuse_if (id == "") invalid_argument)
    versioning ← lift (parse_mutable_parameters mutable_parameters)
    modify s id secrets versioning
