-- ===== src/Main.antt =====
-- main.go: how the node plugin is put together from its flags, its environment and the configuration
-- file, and whose identity is its own. The servers, the Kubernetes client and the flags are not modelled.
mod Tests
use retyc_k8s_csi.Prelude.{
  String, Bool, true, false, not, Option, none, some, List, [], ◌∷◌, ℤ, ◌==◌, if◌then◌else◌, Result,
  ok, err,
}
use retyc_k8s_csi.Identity.{Credentials, from_env, merge_env, keyring_enabled_key}
use retyc_k8s_csi.Mountpod.Spec.{Cache, Config, Formats}
use retyc_k8s_csi.Mountpod.Config.{with_defaults}
use retyc_k8s_csi.Mountpod.Config.File.{FileConfig, ConfigError, parse_config}
use retyc_k8s_csi.Driver.Settings.{Readers}
use retyc_k8s_csi.Driver.Node.{NodeServer}

-- options, the flags that the node plugin reads.
pub record NodeOptions : Type 0 where
  pub node_id : String
  pub mount_config : String
  pub namespace : String

-- The process: os.Getenv, os.Hostname, os.ReadFile, the decoder of the file, and whether there is a client
-- for the cluster; with the libraries that the driver calls.
pub record Process : Type 0 where
  pub getenv : String → String
  pub hostname : Option String
  pub read_file : String → Option String
  pub decode : String → Option FileConfig
  pub in_cluster : Bool
  pub formats : Formats
  pub readers : Readers

pub data StartError : Type 0 where
  no_node_id no_namespace no_file no_client : StartError
  bad_config : ConfigError → StartError

-- The identity in the environment that the process gives its children.
unfoldable pub default_identity : List String → Option Credentials
default_identity environ = from_env (merge_env environ ((keyring_enabled_key, "false") ∷ []))

-- The first text that is not empty.
unfoldable pub first_text : String → String → String
first_text a b = if a == "" then b else a

unfoldable pub node_id_of : Process → NodeOptions → Option String
node_id_of p o =
    let id = first_text o.node_id (first_text (p.getenv "NODE_ID") (p.getenv "NODE_NAME")) in
    if id == "" then p.hostname else some id

unfoldable pub namespace_of : Process → NodeOptions → Option String
namespace_of p o =
    let ns = first_text o.namespace (p.getenv "POD_NAMESPACE") in if ns == "" then none else some ns

-- LoadConfig
unfoldable pub load_config : Process → String → Result StartError (Config × Cache)
load_config p path = parsed (p.read_file path)
  where
    config_or : Result ConfigError (Config × Cache) → Result StartError (Config × Cache)
    config_or (ok c) = ok c
    config_or (err e) = err (bad_config e)

    parsed : Option String → Result StartError (Config × Cache)
    parsed none = err no_file
    parsed (some text) = config_or (parse_config p.decode p.readers.duration text)

-- The node server, and its Manager's configuration with the defaults of New.
unfoldable pub server_from :
    Process → Option Credentials → String → String → Config × Cache → Result StartError NodeServer
server_from p identity node_id namespace (cfg, cache) =
    if p.in_cluster
    then ok (record {
      node_id = node_id;
      formats = p.formats;
      config = with_defaults (record cfg { namespace = namespace });
      readers = p.readers;
      has_kube = true;
      default_credentials = identity;
      cache = record cache {
        redis_url = first_text (p.getenv "RETYC_CACHE_REDIS_URL") cache.redis_url;
      };
    })
    else err no_client

-- nodeServer
unfoldable pub node_server :
    Process → NodeOptions → Option Credentials → Result StartError NodeServer
node_server p o identity = with_node (node_id_of p o) (namespace_of p o)
  where
    configured : String → String → Result StartError (Config × Cache) → Result StartError NodeServer
    configured node_id namespace (err e) = err e
    configured node_id namespace (ok c) = server_from p identity node_id namespace c

    with_node : Option String → Option String → Result StartError NodeServer
    with_node none ns = err no_node_id
    with_node (some id) none = err no_namespace
    with_node (some id) (some ns) = configured id ns (load_config p o.mount_config)
