-- ===== src/Controller/Tests.antt =====
-- Evaluations of controller.go's functions, and a small world of datarooms.
use retyc_k8s_csi.Identity.{from_secrets}
use retyc_k8s_csi.Retyc.Codes.{has_prefix, drop_prefix, is_digit}
use retyc_k8s_csi.Prelude.{
  ℕ, zero, suc, ◌*◌, ◌^◌, String, ◌≡◌, ◌≢◌, ◌⊎◌, refl, sym, ap, Bool, true, false, ◌&&◌, Option,
  none, some, List, [], ◌∷◌, ◌++◌, Dict, ℤ, pos, negsuc, nat_eq, ◌==◌, if◌then◌else◌, ok, arith,
  eq_iff, Bool-cases, inl, inr, lookup,
}
use retyc_k8s_csi.Retyc.Errors.{CliError, cli}
use retyc_k8s_csi.Retyc.Commands.{
  Cli, Reply, printed, exited, Dataroom, DataroomCreateResult, setting_args, has_dataroom_quota,
  run, create_dataroom, list_datarooms, quota,
}
use retyc_k8s_csi.Retyc.Size.{place, digit, decimal_from, format_size, format_units, format_int}
use retyc_k8s_csi.Retyc.Size.Reading.{read_size, read_number, unit_size, in_unit}
use retyc_k8s_csi.Driver.Status.{Fetch, found}
use retyc_k8s_csi.Driver.Claims.{
  annotation_uid, claim_owner, owner_from, with_gid, parse_id, parse_uint32, digits_value,
}
use retyc_k8s_csi.Controller.Requests.{
  CapacityRange, ControllerServer, CreateVolumeRequest, reserved_bytes, min_dataroom_capacity,
  pvc_name_parameter, pvc_namespace_parameter, volume_context_pvc_name, volume_context_namespace,
  single_node_writer, check_request, is_supported_capability, is_mount_mode, check_parameters,
  is_sidecar_key, parse_mutable_parameters, read_mutable, client,
}
use retyc_k8s_csi.Controller.Capacity.{Fits, reserved_bytes_sound}
use retyc_k8s_csi.Controller.Errors.{api_error, kind_status, api_error-kind}
use retyc_k8s_csi.Controller.Volumes.{
  Volume, create_volume, create_volume_response, find_title, check_quota, check_owner, check_claim,
  settle, provision,
}
use retyc_k8s_csi.Controller.Idempotent.{Backend, requested, create_volume_retry}

abbrev range : CapacityRange
range = record { required = pos 100; limit = pos (2 ^ 40) }

range_accepted : reserved_bytes range ≡ ok min_dataroom_capacity
unfolding reserved_bytes
range_accepted = refl

reserved_bytes_sound_example :
    ((range.required ≡ pos 0) × (range.limit ≡ pos 0) × (min_dataroom_capacity ≡ pos 0))
    ⊎ Fits range min_dataroom_capacity
reserved_bytes_sound_example = reserved_bytes_sound range min_dataroom_capacity range_accepted

abbrev out_of_room : CliError
out_of_room = record {
  args = [];
  message = [];
  kind = "storage_exhausted";
  status = 507;
  detail = [];
}

has_kind_set : out_of_room.kind ≢ ""
has_kind_set = ground (arith, eq_iff "storage_exhausted" "")

api_error-kind_example : api_error (cli out_of_room) ≡ kind_status "storage_exhausted"
api_error-kind_example = api_error-kind out_of_room has_kind_set

-- A tenant of the datarooms "pvc-1" of 20 GiB, as many as the world says. Stdout is that number, or
-- the result of the creation.
abbrev made : DataroomCreateResult
made = record { id = "d1"; title = "pvc-1" }

abbrev room : Dataroom
room = record { id = "d1"; title = "pvc-1"; storage_capacity = some min_dataroom_capacity }

abbrev rooms : ℕ → List Dataroom
rooms zero = []
rooms (suc n) = rooms n ++ room ∷ []

abbrev is_floor : Option ℤ → Bool
is_floor none = false
is_floor (some (pos n)) = nat_eq n (20 * 2 ^ 30)
is_floor (some (negsuc n)) = false

abbrev make : String → List String → ℕ → Reply × ℕ
make title settings n =
    if title == "pvc-1" && is_floor (requested settings)
    then (printed (0 ∷ []), suc n)
    else (exited [] [], n)

abbrev read_args : List String → ℕ → Reply × ℕ
read_args (json ∷ noun ∷ verb ∷ flag ∷ title ∷ settings) n = make title settings n
read_args args n = (printed (n ∷ []), n)

abbrev first_of : List ℕ → ℕ
first_of [] = 0
first_of (n ∷ ns) = n

abbrev tool : Cli ℕ
tool = record {
  exec = λ env args n. read_args args n;
  unmarshal_error = λ out. none;
  decode_error = λ out. none;
  unmarshal_created = λ out. some made;
  unmarshal_deleted = λ out. none;
  unmarshal_page = λ out. some (rooms (first_of out));
  unmarshal_quota = λ out.
      some (record { count_dataroom = 0; max_count_dataroom = none; is_upload_read_only = false });
  unmarshal_auth = λ out. none;
}

abbrev get_claim : String → String → ℕ → Fetch (Dict String) × ℕ
get_claim ns name n = (found ((annotation_uid, "1000") ∷ []), n)

floor-is_floor : (o : Option ℤ) → is_floor o ≡ true → o ≡ some min_dataroom_capacity
floor-is_floor none e = ground arith
floor-is_floor (some (pos n)) e = ap (λ k. some (pos k)) (ground arith)
floor-is_floor (some (negsuc n)) e = ground arith

make_adds :
    (title : String) (settings : List String) (n n' : ℕ) (out : List ℕ)
    → make title settings n ≡ (printed out, n')
    → (n' ≡ suc n) × (title ≡ "pvc-1") × (requested settings ≡ some min_dataroom_capacity)
make_adds title settings n n' out e =
    elim (Bool-cases (title == "pvc-1" && is_floor (requested settings))) [
      | inr f ↦ absurd (ground arith)
      | inl t ↦ (
        ground arith,
        (eq_iff title "pvc-1").0 (ground arith),
        floor-is_floor (requested settings) (ground arith),
      )
    ]

made-id : (r : DataroomCreateResult) → some made ≡ some r → "d1" ≡ r.id
made-id r e = ground arith

backend : Backend tool get_claim (λ env n. rooms n)
backend = record {
  page = λ env n. n ∷ [];
  ls = λ env n. refl;
  ls_page = λ env n. refl;
  quota_reads = λ env n. refl;
  create_adds = λ env settings title n n' out r e same.
      let (more, named, asked) = make_adds title settings n n' out e in
      rw (more, named, asked, sym (made-id r same)) refl;
  claims = λ ns name. found ((annotation_uid, "1000") ∷ []);
  claim_reads = λ ns name n. refl;
}

abbrev server : ControllerServer
server = record { retyc = record { env = [] }; has_kube = true }

abbrev request : CreateVolumeRequest
request = record {
  name = "pvc-1";
  capabilities = record { block = false; mode = single_node_writer } ∷ [];
  parameters = (pvc_name_parameter, "data") ∷ (pvc_namespace_parameter, "apps") ∷ [];
  mutable_parameters = [];
  capacity_range = range;
  secrets = ("RETYC_TOKEN", "t") ∷ ("RETYC_KEY_PASSPHRASE", "p") ∷ [];
}

abbrev volume : Volume
volume = record {
  volume_id = "d1";
  capacity_bytes = min_dataroom_capacity;
  volume_context = (volume_context_pvc_name, "data") ∷ (volume_context_namespace, "apps") ∷ [];
}

created_first : create_volume tool get_claim server request 0 ≡ (ok volume, 1)
unfolding create_volume check_request is_supported_capability is_mount_mode check_parameters
    is_sidecar_key parse_mutable_parameters read_mutable reserved_bytes client has_prefix
    drop_prefix is_digit create_volume_response find_title check_quota check_owner check_claim
    settle provision lookup claim_owner owner_from with_gid parse_id parse_uint32 digits_value
    from_secrets setting_args has_dataroom_quota run create_dataroom list_datarooms quota
    format_size format_units format_int requested digit decimal_from read_size read_number unit_size
    in_unit place
created_first = refl

create_volume_retry_example : create_volume tool get_claim server request 1 ≡ (ok volume, 1)
create_volume_retry_example =
    create_volume_retry tool get_claim (λ env n. rooms n) backend server request 0 1 volume
      created_first
