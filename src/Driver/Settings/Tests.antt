-- ===== src/Driver/Settings/Tests.antt =====
-- Settings read from the annotations of a claim.
use retyc_k8s_csi.Prelude.{
  String, true, false, none, some, [], ◌∷◌, Dict, lookup, insert, pos, ok, ◌≡◌, refl, ◌==◌,
  if◌then◌else◌,
}
use retyc_k8s_csi.Retyc.Codes.{is_digit}
use retyc_k8s_csi.Controller.Requests.{parse_bool}
use retyc_k8s_csi.Driver.Claims.{
  annotation_uid, digits_value, parse_uint32, parse_id, with_gid, owner_from, claim_owner,
}
use retyc_k8s_csi.Driver.Settings.{
  annotation_cache_ttl, annotation_unsafe_write, annotation_mount_memory_limit,
  annotation_local_file, Readers, MountSettings, read_owner, positive_duration, boolean, patterns,
  positive_quantity, read_setting, cache_ttl_setting, boolean_setting, local_file_setting,
  quantity_setting, parse_mount_resources, parse_mount_settings,
}
use retyc_k8s_csi.Driver.Settings.Sound.{IsSaid, parse_mount_settings-IsSaid}

abbrev readers : Readers
readers = record {
  duration = λ raw. if raw == "30s" then some (pos 30) else none;
  quantity = λ raw. if raw == "64Mi" then some (pos 67108864) else none;
  fields = λ raw. raw ∷ [];
}

abbrev annotations : Dict String
annotations =
    (annotation_uid, "1000")
    ∷ (annotation_cache_ttl, "30s")
    ∷ (annotation_unsafe_write, "true")
    ∷ (annotation_local_file, "none")
    ∷ (annotation_mount_memory_limit, "64Mi")
    ∷ []

abbrev settings : MountSettings
settings = record {
  owner = record { uid = 1000; gid = 1000 };
  options = record {
    cache_ttl = 30;
    background_delete = false;
    unsafe_write = true;
    read_only = false;
    local_file = "none" ∷ [];
  };
  resources = record { requests = []; limits = ("memory", 67108864) ∷ [] };
}

reads_settings : parse_mount_settings readers annotations ≡ ok settings
unfolding parse_mount_settings parse_mount_resources cache_ttl_setting boolean_setting
    local_file_setting quantity_setting read_setting positive_duration boolean patterns
    positive_quantity read_owner claim_owner owner_from with_gid parse_id parse_uint32 digits_value
    parse_bool lookup insert is_digit
reads_settings = refl

parse_mount_settings-IsSaid_example : IsSaid readers annotations settings
parse_mount_settings-IsSaid_example =
    parse_mount_settings-IsSaid readers annotations settings reads_settings
