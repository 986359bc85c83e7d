-- ===== src/Driver/Node/StageSpec.antt =====
-- node.go: stageSpec, the spec of the mount pod that a stage request asks for.
use retyc_k8s_csi.Prelude.{
  ℕ, String, Bool, false, not, ◌&&◌, ◌||◌, Option, none, some, List, [], ◌∷◌, Dict, insert, length,
  all, leb, nat_eq, text_at, ◌==◌, if◌then◌else◌, Result, ok, err, Exec, pure, raise, ◌>>=◌, ◌>>◌,
  map_err,
}
use retyc_k8s_csi.Identity.{Credentials, IdentityError, from_secrets}
use retyc_k8s_csi.Retyc.Codes.{codes, is_digit}
use retyc_k8s_csi.Controller.Requests.{
  VolumeCapability, volume_context_pvc_name, volume_context_namespace,
}
use retyc_k8s_csi.Mountpod.Spec.{Spec}
use retyc_k8s_csi.Driver.Status.{
  Status, status, Fetch, found, missing, failed, invalid_argument, failed_precondition, not_found,
  unavailable,
}
use retyc_k8s_csi.Driver.Tenant.{check_default_identity}
use retyc_k8s_csi.Driver.Settings.{SettingsError, MountSettings, parse_mount_settings}
use retyc_k8s_csi.Driver.Node.{Claim, Calls, NodeServer, NodeState}

-- The request; a nil capability is `none`.
pub record StageRequest : Type 0 where
  pub volume_id : String
  pub staging_target_path : String
  pub capability : Option VolumeCapability
  pub volume_context : Dict String
  pub secrets : Dict String

-- A character of [a-z0-9], and one of [-a-z0-9].
abbrev is_name_edge : ℕ → Bool
is_name_edge c = (leb b'a' c && leb c b'z') || is_digit c

abbrev is_name_inner : ℕ → Bool
is_name_inner c = nat_eq c b'-' || is_name_edge c

unfoldable pub ends_name : ℕ → List ℕ → Bool
ends_name c [] = is_name_edge c
ends_name c (d ∷ rest) = ends_name d rest

-- namespaceName: ^[a-z0-9]([-a-z0-9]{0,61}[a-z0-9])?$
unfoldable pub is_namespace_name : List ℕ → Bool
is_namespace_name [] = false
is_namespace_name (c ∷ s) =
    is_name_edge c && (ends_name c s && (all is_name_inner s && leb (length s) 62))

unfoldable pub claim_namespace : Dict String → String
claim_namespace volume_context =
    let ns = text_at volume_context_namespace volume_context in
    if is_namespace_name (codes ns) then ns else ""

-- The loop that writes the annotations over the attributes. A Go map is ranged over in any order: each
-- key is written once.
unfoldable pub settings_over : Dict String → Dict String → Dict String
settings_over base [] = base
settings_over base ((key, value) ∷ annotations) = insert key value (settings_over base annotations)

abbrev pub all_settings : Dict String → Option Claim → Dict String
all_settings volume_context none = volume_context
all_settings volume_context (some claim) = settings_over volume_context claim.annotations

abbrev pub volume_of : Option Claim → Option String
volume_of none = none
volume_of (some claim) = some claim.volume_name

unfoldable pub is_complete : Credentials → Bool
is_complete creds = not (creds.token == "" || creds.passphrase == "")

-- Credentials that lack a part, or that are nil, are refused.
unfoldable pub complete : Option Credentials → Result Status Credentials
complete none = err (status failed_precondition)
complete (some creds) = if is_complete creds then ok creds else err (status failed_precondition)

unfoldable pub claim_found : Fetch Claim → Result Status (Option Claim)
claim_found (found claim) = ok (some claim)
claim_found missing = err (status not_found)
claim_found failed = err (status unavailable)

unfoldable pub spec_from : NodeServer → StageRequest → MountSettings → Credentials → Spec
spec_from server req ms creds = record {
  volume_id = req.volume_id;
  node_name = server.node_id;
  pvc_name = text_at volume_context_pvc_name req.volume_context;
  pvc_namespace = claim_namespace req.volume_context;
  staging_path = req.staging_target_path;
  credentials = creds;
  cache = server.cache;
  owner_uid = ms.owner.uid;
  owner_gid = ms.owner.gid;
  options = ms.options;
  resources = ms.resources;
}

abbrev invalid : SettingsError → Status
invalid e = status invalid_argument

module _ {W : Type 0} (calls : Calls W) (server : NodeServer) where
  -- The claim of the request, if it names one.
  unfoldable pub read_claim : String → String → Exec Status (NodeState W) (Option Claim)
  read_claim name namespace s =
      let (answer, w) = calls.get_claim namespace name s.host.world in
      let read : Result Status (Option Claim) × NodeState W =
        (claim_found answer, record s { host = record s.host { world = w } }) in
      if name == "" || namespace == ""
      then (ok none, s)
      else if server.has_kube
      then read
      else (err (status failed_precondition), s)

  -- The driver's own identity, unless checkDefaultIdentity refuses it.
  unfoldable pub own_identity :
      String → Option Claim → Exec Status (NodeState W) (Option Credentials)
  own_identity volume_id claim s =
      let (r, w) = check_default_identity calls.classes volume_id (volume_of claim) s.host.world in
      let checked : Result Status (Unit {0}) × NodeState W =
        (r, record s { host = record s.host { world = w } }) in
      if server.has_kube
      then ((λ s'. checked) >> pure server.default_credentials) s
      else (err (status failed_precondition), s)

  unfoldable pub identity_of :
      String
      → Option Claim
      → Result IdentityError (Option Credentials)
      → Exec Status (NodeState W) (Option Credentials)
  identity_of volume_id claim (err e) = raise (status invalid_argument)
  identity_of volume_id claim (ok (some creds)) = pure (some creds)
  identity_of volume_id claim (ok none) = own_identity volume_id claim

  -- stageSpec
  unfoldable pub stage_spec : StageRequest → Exec Status (NodeState W) (Spec × Option Claim)
  stage_spec req =
      let name = text_at volume_context_pvc_name req.volume_context in
      read_claim name (claim_namespace req.volume_context) >>= λ claim.
      (λ s. (
        map_err invalid
            (parse_mount_settings server.readers (all_settings req.volume_context claim)),
        s,
      ))
      >>= λ ms. identity_of req.volume_id claim (from_secrets req.secrets) >>= λ creds.
          (λ s. (complete creds, s)) >>= λ whole. pure (spec_from server req ms whole, claim)
