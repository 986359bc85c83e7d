-- ===== src/Driver/Settings.antt =====
-- internal/driver/annotations.go: the settings of a mount pod, read from the annotations of the claim over
-- the attributes of the volume. time.ParseDuration, resource.ParseQuantity and strings.Fields are
-- parameters. A duration is an int64 of nanoseconds, a quantity a number of its smallest unit.
pub mod Sound
mod Tests
use retyc_k8s_csi.Prelude.{
  ℕ, String, Bool, true, false, ◌&&◌, Option, none, some, List, [], ◌∷◌, Dict, lookup, insert,
  length, contains, ltb, ℤ, pos, negsuc, zero, suc, if◌then◌else◌, Result, ok, err, ◌and_then◌,
}
use retyc_k8s_csi.Controller.Requests.{parse_bool}
use retyc_k8s_csi.Mountpod.Spec.{Options, Requirements}
use retyc_k8s_csi.Driver.Claims.{Owner, OwnerError, claim_owner}

abbrev pub annotation_cache_ttl : String
annotation_cache_ttl = "csi.retycfs.com/cache-ttl"

abbrev pub annotation_background_delete : String
annotation_background_delete = "csi.retycfs.com/background-delete"

abbrev pub annotation_unsafe_write : String
annotation_unsafe_write = "csi.retycfs.com/unsafe-write"

abbrev pub annotation_read_only : String
annotation_read_only = "csi.retycfs.com/read-only"

abbrev pub annotation_local_file : String
annotation_local_file = "csi.retycfs.com/local-file"

abbrev pub annotation_mount_cpu_request : String
annotation_mount_cpu_request = "csi.retycfs.com/mount-cpu-request"

abbrev pub annotation_mount_cpu_limit : String
annotation_mount_cpu_limit = "csi.retycfs.com/mount-cpu-limit"

abbrev pub annotation_mount_memory_request : String
annotation_mount_memory_request = "csi.retycfs.com/mount-memory-request"

abbrev pub annotation_mount_memory_limit : String
annotation_mount_memory_limit = "csi.retycfs.com/mount-memory-limit"

-- The libraries' readers: `none` is an error.
pub record Readers : Type 0 where
  pub duration : String → Option ℤ
  pub quantity : String → Option ℤ
  pub fields : String → List String

-- The annotation that is wrong; claimOwner has its own errors.
pub data SettingsError : Type 0 where
  bad_owner : OwnerError → SettingsError
  bad_duration bad_boolean bad_patterns bad_quantity : String → SettingsError

pub record MountSettings : Type 0 where
  pub owner : Owner
  pub options : Options
  pub resources : Requirements

unfoldable pub read_owner : Result OwnerError Owner → Result SettingsError Owner
read_owner (ok owner) = ok owner
read_owner (err e) = err (bad_owner e)

unfoldable pub positive_duration : String → Option ℤ → Result SettingsError ℕ
positive_duration key (some (pos d)) = ok d
positive_duration key (some (negsuc d)) = err (bad_duration key)
positive_duration key none = err (bad_duration key)

unfoldable pub boolean : String → Option Bool → Result SettingsError Bool
boolean key (some b) = ok b
boolean key none = err (bad_boolean key)

-- "none" stands alone.
unfoldable pub patterns : String → List String → Result SettingsError (List String)
patterns key files =
    if ltb 1 (length files) && contains files "none" then err (bad_patterns key) else ok files

unfoldable pub positive_quantity : String → Option ℤ → Result SettingsError (Option ℕ)
positive_quantity key (some (pos (suc q))) = ok (some (suc q))
positive_quantity key (some (pos zero)) = err (bad_quantity key)
positive_quantity key (some (negsuc q)) = err (bad_quantity key)
positive_quantity key none = err (bad_quantity key)

-- An annotation that may be missing, its default then.
unfoldable pub read_setting :
    {A : Type 0} → A → (String → Result SettingsError A) → Option String → Result SettingsError A
read_setting default read none = ok default
read_setting default read (some raw) = read raw

abbrev pub set_quantity : String → Option ℕ → Dict ℕ → Dict ℕ
set_quantity name none quantities = quantities
set_quantity name (some q) quantities = insert name q quantities

module _ (r : Readers) (settings : Dict String) where
  unfoldable pub cache_ttl_setting : Result SettingsError ℕ
  cache_ttl_setting =
      read_setting 0 (λ raw. positive_duration annotation_cache_ttl (r.duration raw))
        (lookup annotation_cache_ttl settings)

  unfoldable pub boolean_setting : String → Result SettingsError Bool
  boolean_setting key =
      read_setting false (λ raw. boolean key (parse_bool raw)) (lookup key settings)

  unfoldable pub local_file_setting : Result SettingsError (List String)
  local_file_setting =
      read_setting [] (λ raw. patterns annotation_local_file (r.fields raw))
        (lookup annotation_local_file settings)

  unfoldable pub quantity_setting : String → Result SettingsError (Option ℕ)
  quantity_setting key =
      read_setting none (λ raw. positive_quantity key (r.quantity raw)) (lookup key settings)

  -- parseMountResources
  unfoldable pub parse_mount_resources : Result SettingsError Requirements
  parse_mount_resources = quantity_setting annotation_mount_cpu_request and_then λ cpu_request.
      quantity_setting annotation_mount_cpu_limit and_then λ cpu_limit.
      quantity_setting annotation_mount_memory_request and_then λ memory_request.
      quantity_setting annotation_mount_memory_limit and_then λ memory_limit. ok (record {
        requests = set_quantity "memory" memory_request (set_quantity "cpu" cpu_request []);
        limits = set_quantity "memory" memory_limit (set_quantity "cpu" cpu_limit []);
      })

  -- parseMountSettings. Go ranges over the three Boolean annotations in any order: which one a
  -- refusal names is open when several are wrong.
  unfoldable pub parse_mount_settings : Result SettingsError MountSettings
  parse_mount_settings = read_owner (claim_owner settings) and_then λ owner.
      cache_ttl_setting and_then λ cache_ttl.
      boolean_setting annotation_background_delete and_then λ background_delete.
      boolean_setting annotation_unsafe_write and_then λ unsafe_write.
      boolean_setting annotation_read_only and_then λ read_only.
      local_file_setting and_then λ local_file. parse_mount_resources and_then λ resources.
      ok (record {
        owner = owner;
        options = record {
          cache_ttl = cache_ttl;
          background_delete = background_delete;
          unsafe_write = unsafe_write;
          read_only = read_only;
          local_file = local_file;
        };
        resources = resources;
      })
