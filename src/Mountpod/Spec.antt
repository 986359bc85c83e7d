-- ===== src/Mountpod/Spec.antt =====
-- pod.go: what a mount pod is built from, and what is built. The paths (path.Join, path.Dir…), the
-- texts of durations, JSON and SHA-256 are the libraries', a parameter. Durations are nanoseconds, a
-- quantity is a number of its smallest unit.
pub mod Label
pub mod Resources
pub mod Build
use Prim.Native.Char.{code}
use Prim.Native.String.{[], ◌∷◌, ◌++◌}
use mathlib.Core.List
use retyc_k8s_csi.Prelude.{
  ℕ, ◌+◌, ◌*◌, ◌^◌, ◌/◌, String, Bool, true, false, not, ◌&&◌, ◌||◌, List, Dict, nat_eq, ◌==◌,
  if◌then◌else◌, Result, ok, err, ltb,
}
use retyc_k8s_csi.Identity.{Credentials}
use retyc_k8s_csi.Retyc.Codes.{codes, has_prefix}
use retyc_k8s_csi.Mountpod.Backoff.{Policy}

-- corev1.ResourceRequirements, the quantities by the name of the resource.
pub record Requirements : Type 0 where
  pub requests : Dict ℕ
  pub limits : Dict ℕ

pub record Cache : Type 0 where
  pub redis_url : String
  pub high_confidentiality : Bool

pub record Options : Type 0 where
  pub cache_ttl : ℕ
  pub background_delete : Bool
  pub unsafe_write : Bool
  pub read_only : Bool
  pub local_file : List String

pub record Spec : Type 0 where
  pub volume_id : String
  pub node_name : String
  pub pvc_name : String
  pub pvc_namespace : String
  pub staging_path : String
  pub credentials : Credentials
  pub cache : Cache
  pub owner_uid : ℕ
  pub owner_gid : ℕ
  pub options : Options
  pub resources : Requirements

-- storedSpec: the part of a Spec recorded on its pod.
pub record StoredSpec : Type 0 where
  pub owner_uid : ℕ
  pub owner_gid : ℕ
  pub options : Options
  pub resources : Requirements

pub record Config : Type 0 where
  pub namespace : String
  pub image : String
  pub cli_version : String
  pub extra_env : Dict String
  pub host_pid : Bool
  pub resources : Requirements
  pub priority_class_name : String
  pub kubelet_dir : String
  pub spool_root : String
  pub drain_timeout : ℕ
  pub metrics_port : ℕ
  pub policy : Policy

-- The libraries: path, time, strconv, encoding/json, crypto/sha256 with encoding/hex, and
-- validation.IsValidLabelValue.
pub record Formats : Type 0 where
  pub join : String → String → String
  pub dir : String → String
  pub base : String → String
  pub clean : String → String
  pub is_abs : String → Bool
  pub duration : ℕ → String
  pub decimal : ℕ → String
  pub digest8 : String → String
  pub digest16 : String → String
  pub marshal_config : Credentials → Cache → ℕ → ℕ → Options → Requirements → String → String
  pub marshal_stored : StoredSpec → String
  pub unmarshal_stored : String → Result (Unit {0}) StoredSpec
  pub is_label : String → Bool

-- strings.ContainsAny(s, "/\x00")
unfoldable pub has_separator : String → Bool
has_separator [] = false
has_separator (c ∷ s) = nat_eq (code c) b'/' || (nat_eq (code c) 0 || has_separator s)

unfoldable pub is_valid_spec : Spec → Bool
is_valid_spec spec =
    not (spec.node_name == "")
    && (not (
          spec.volume_id == ""
          || (spec.volume_id == "." || (spec.volume_id == ".." || has_separator spec.volume_id)))
        && not (spec.credentials.token == "" || spec.credentials.passphrase == ""))

unfoldable pub is_valid_staging : Formats → Config → String → Bool
is_valid_staging f cfg p =
    f.is_abs p
    && (f.clean p == p
        && has_prefix (codes (f.dir p)) (codes (f.join cfg.kubelet_dir "plugins" ++ "/")))

unfoldable pub name_of : Formats → String → String → String
name_of f node_name volume_id = "retycfs-mount-" ++ f.digest8 (node_name ++ "\0" ++ volume_id)

abbrev flag_if : Bool → String → List String
flag_if true flag = List.◌∷◌ flag List.[]
flag_if false flag = List.[]

abbrev flags : List String → List String → List String
flags = List.◌++◌

abbrev local_files : List String → List String
local_files List.[] = List.[]
local_files (List.◌∷◌ p ps) = List.◌∷◌ ("--local-file=" ++ p) (local_files ps)

unfoldable pub mount_args : Formats → Config → Spec → List String
mount_args f cfg spec =
    let o = spec.options in
    List.◌∷◌ "fs" (
      List.◌∷◌ "mount" (
        List.◌∷◌ ("retyc://" ++ spec.volume_id) (
          List.◌∷◌ (f.join "/staging" (f.base spec.staging_path)) (
            List.◌∷◌ "--allow-other" (
              List.◌∷◌ ("--uid=" ++ f.decimal spec.owner_uid) (
                List.◌∷◌ ("--gid=" ++ f.decimal spec.owner_gid) (
                  List.◌∷◌ "--spool-dir=/spool" (
                    List.◌∷◌ ("--metrics-addr=0.0.0.0:" ++ f.decimal cfg.metrics_port) (
                      List.◌∷◌ ("--drain-timeout=" ++ f.duration cfg.drain_timeout) (
                        flags
                          (flag_if (ltb 0 o.cache_ttl) ("--cache-ttl=" ++ f.duration o.cache_ttl))
                          (flags (flag_if o.background_delete "--background-delete") (
                            flags (flag_if o.unsafe_write "--unsafe-write") (
                              flags (flag_if o.read_only "--read-only") (
                                flags (local_files o.local_file) (
                                  flags
                                    (flag_if (not (spec.cache.redis_url == ""))
                                      "--cache-store=redis")
                                    (flag_if
                                      (not (spec.cache.redis_url == "")
                                        && spec.cache.high_confidentiality)
                                      "--cache-redis-high-confidentiality"))))))))))))))))

unfoldable pub spool_host_path : Formats → Config → String → String
spool_host_path f cfg volume_id = f.join cfg.spool_root volume_id
