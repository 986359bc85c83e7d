-- ===== src/Mountpod/Spec/Build.antt =====
-- pod.go: the Secret and the pod made from a spec, without the parts that are the same for all.
use Prim.Native.String.{◌++◌}
use mathlib.Core.List
use retyc_k8s_csi.Prelude.{
  ℕ, ◌+◌, ◌*◌, ◌^◌, ◌/◌, String, Bool, List, [], ◌∷◌, Dict, ◌==◌, if◌then◌else◌, insert,
}
use retyc_k8s_csi.Identity.{token_key, passphrase_key, config_dir_key, keyring_enabled_key}
use retyc_k8s_csi.Mountpod.Pod.{
  label_volume, label_node, label_pvc, label_namespace, annotation_config_hash,
  annotation_cli_version, annotation_secret, annotation_staging_path, annotation_spec,
  finalizer_in_use,
}
use retyc_k8s_csi.Mountpod.Spec.Label.{label_value}
use retyc_k8s_csi.Mountpod.Spec.{
  Requirements, Spec, Config, Formats, name_of, mount_args, spool_host_path,
}
use retyc_k8s_csi.Mountpod.Spec.Resources.{resources}

-- metav1.ObjectMeta
pub record ObjectMeta : Type 0 where
  pub name : String
  pub labels : Dict String
  pub annotations : Dict String
  pub finalizers : List String

-- corev1.Secret; `owners` are the UIDs of its owners.
pub record Secret : Type 0 where
  pub meta : ObjectMeta
  pub owners : List String
  pub content : Dict String

-- corev1.EnvVar: a value, or a key of the pod's Secret.
pub data EnvVar : Type 0 where
  value_var : String → String → EnvVar
  secret_var : String → EnvVar

-- What buildPod sets from the spec and the configuration.
pub record PodTemplate : Type 0 where
  pub meta : ObjectMeta
  pub node_name : String
  pub priority_class_name : String
  pub grace_seconds : ℕ
  pub host_pid : Bool
  pub image : String
  pub args : List String
  pub env : List EnvVar
  pub resources : Requirements
  pub port : ℕ
  pub host_paths : Dict String

-- Manager.ConfigHash
unfoldable pub config_hash : Formats → Config → Spec → String
config_hash f cfg spec = f.digest16 (
    f.marshal_config spec.credentials spec.cache spec.owner_uid spec.owner_gid spec.options
      (resources cfg spec) cfg.image)

unfoldable pub spec_annotation : Formats → Spec → String
spec_annotation f spec = f.marshal_stored (record {
  owner_uid = spec.owner_uid;
  owner_gid = spec.owner_gid;
  options = spec.options;
  resources = spec.resources;
})

unfoldable pub object_meta : Formats → Config → Spec → String → ObjectMeta
object_meta f cfg spec hash = record {
  name = name_of f spec.node_name spec.volume_id;
  labels =
      ("app.kubernetes.io/name", "retycfs-mount")
      ∷ ("app.kubernetes.io/managed-by", "retycfs-k8s-csi")
      ∷ (label_volume, label_value f spec.volume_id)
      ∷ (label_node, label_value f spec.node_name)
      ∷ (label_pvc, label_value f spec.pvc_name)
      ∷ (label_namespace, label_value f spec.pvc_namespace)
      ∷ [];
  annotations =
      (label_volume, spec.volume_id)
      ∷ (label_node, spec.node_name)
      ∷ (label_pvc, spec.pvc_name)
      ∷ (label_namespace, spec.pvc_namespace)
      ∷ (annotation_config_hash, hash)
      ∷ (annotation_cli_version, cfg.cli_version)
      ∷ (annotation_staging_path, spec.staging_path)
      ∷ (annotation_spec, spec_annotation f spec)
      ∷ [];
  finalizers = [];
}

-- The random suffix is drawn by the caller.
unfoldable pub build_secret : Formats → Config → Spec → String → String → Secret
build_secret f cfg spec hash suffix =
    let meta = object_meta f cfg spec hash in
    record {
      meta = record meta { name = meta.name ++ "-" ++ suffix };
      owners = [];
      content =
          (token_key, spec.credentials.token)
          ∷ (passphrase_key, spec.credentials.passphrase)
          ∷ (if spec.cache.redis_url == ""
              then []
              else ("RETYC_CACHE_REDIS_URL", spec.cache.redis_url) ∷ []);
    }

abbrev extra_vars : Dict String → List EnvVar
extra_vars [] = []
extra_vars ((k, v) ∷ vars) = value_var k v ∷ extra_vars vars

abbrev env_vars : List EnvVar → List EnvVar → List EnvVar
env_vars = List.◌++◌

unfoldable pub build_pod : Formats → Config → Spec → String → String → PodTemplate
build_pod f cfg spec hash secret_name =
    let meta = object_meta f cfg spec hash in
    record {
      meta = record meta {
        finalizers = finalizer_in_use ∷ [];
        annotations = insert "karpenter.sh/do-not-disrupt" "true" (
            insert "cluster-autoscaler.kubernetes.io/safe-to-evict" "false"
              (insert annotation_secret secret_name meta.annotations));
      };
      node_name = spec.node_name;
      priority_class_name = cfg.priority_class_name;
      grace_seconds = (cfg.drain_timeout + 10 * 10 ^ 9) / 10 ^ 9;
      host_pid = cfg.host_pid;
      image = cfg.image;
      args = mount_args f cfg spec;
      env =
          secret_var token_key
          ∷ secret_var passphrase_key
          ∷ value_var config_dir_key "/config"
          ∷ value_var keyring_enabled_key "false"
          ∷ env_vars
              (if spec.cache.redis_url == "" then [] else secret_var "RETYC_CACHE_REDIS_URL" ∷ [])
              (extra_vars cfg.extra_env);
      resources = resources cfg spec;
      port = cfg.metrics_port;
      host_paths =
          ("staging", f.dir spec.staging_path)
          ∷ ("spool", spool_host_path f cfg spec.volume_id)
          ∷ ("fuse", "/dev/fuse")
          ∷ [];
    }
