-- ===== src/Mountpod/Manager/Rebuild.antt =====
-- SpecOf against buildPod and buildSecret: what the recovery rebuilds from a pod is what the pod was
-- built from.
use retyc_k8s_csi.Prelude.{
  ℕ, String, ◌≡◌, ◌≢◌, refl, sym, ap, ◌∙◌, Bool, false, not, ◌||◌, Option, some, List, [], ◌∷◌,
  Dict, text_at, is_empty, insert, lookup, Bool-cases, Option-cases, inl, inr, ◌==◌, ok, arith,
  eq_iff,
}
use retyc_k8s_csi.Identity.{Credentials, token_key, passphrase_key}
use retyc_k8s_csi.Mountpod.Manager.Secrets.{rebuilt, rebuild, spec_of}
use retyc_k8s_csi.Mountpod.Pod.{
  Termination, ContainerStatus, Pod, State, container_name, read_termination, read_status,
  read_statuses, state_of, label_volume, label_node, label_pvc, label_namespace,
  annotation_config_hash, annotation_staging_path, annotation_secret, annotation_spec,
}
use retyc_k8s_csi.Mountpod.Kube.{Kube, Host, attempt}
use retyc_k8s_csi.Mountpod.Spec.{Formats, Config, Cache, Spec, StoredSpec}
use retyc_k8s_csi.Mountpod.Spec.Build.{
  Secret, spec_annotation, object_meta, build_secret, build_pod,
}

-- What a State holds of the metadata of its pod.
pub record Metadata : Type 0 where
  pub pod : Option Pod
  pub volume_id : String
  pub node_name : String
  pub pvc_name : String
  pub pvc_namespace : String
  pub config_hash : String
  pub staging_path : String

pub metadata : State → Metadata
metadata st = record {
  pod = st.pod;
  volume_id = st.volume_id;
  node_name = st.node_name;
  pvc_name = st.pvc_name;
  pvc_namespace = st.pvc_namespace;
  config_hash = st.config_hash;
  staging_path = st.staging_path;
}

metadata-read_termination :
    (t : Termination) (st : State) → metadata (read_termination t st) ≡ metadata st
unfolding read_termination metadata
metadata-read_termination t st =
    elim (Bool-cases (not (t.reason == "") || not (is_empty t.message))) [
      | inl h ↦ rw h refl
      | inr h ↦ rw h refl
    ]

metadata-read_status :
    (cs : ContainerStatus) (st : State) (running : Bool)
    → metadata (read_status cs (st, running)).0 ≡ metadata st
unfolding read_status metadata
metadata-read_status cs st running = elim (Bool-cases (cs.name == container_name)) [
  | inr h ↦ rw h refl
  | inl h ↦ elim (Option-cases cs.terminated) [
    | inr (t, e) ↦ rw (h, e) (metadata-read_termination t st)
    | inl e ↦ elim (Option-cases cs.waiting) [
      | inr (p, g) ↦ rw (h, e, g) refl
      | inl g ↦ rw (h, e, g) refl
    ]
  ]
]

metadata-read_statuses :
    (css : List ContainerStatus) (st : State) (running : Bool)
    → metadata (read_statuses css (st, running)).0 ≡ metadata st
unfolding read_statuses
metadata-read_statuses [] st running = refl
metadata-read_statuses (cs ∷ css) st running =
    let (st', running') = read_status cs (st, running) in
    metadata-read_statuses css st' running' ∙ metadata-read_status cs st running

pub pod-state_of : (now : ℕ) (pod : Pod) → (state_of now pod).pod ≡ some pod
unfolding state_of metadata
pod-state_of now pod =
    ap (λ (m : Metadata). m.pod) (metadata-read_statuses pod.container_statuses _ false)

-- A State read from a pod that has the annotations of the pod built from a spec.
metadata-state_of :
    (f : Formats) (cfg : Config) (spec : Spec) (hash secret : String) (now : ℕ) (pod : Pod)
    → pod.annotations ≡ (build_pod f cfg spec hash secret).meta.annotations
    → metadata (state_of now pod) ≡ record {
      pod = some pod;
      volume_id = spec.volume_id;
      node_name = spec.node_name;
      pvc_name = spec.pvc_name;
      pvc_namespace = spec.pvc_namespace;
      config_hash = hash;
      staging_path = spec.staging_path;
    }
unfolding state_of build_pod object_meta metadata insert lookup
metadata-state_of f cfg spec hash secret now pod e =
    let read : Dict String → Metadata = λ m. record {
      pod = some pod;
      volume_id = text_at label_volume m;
      node_name = text_at label_node m;
      pvc_name = text_at label_pvc m;
      pvc_namespace = text_at label_namespace m;
      config_hash = text_at annotation_config_hash m;
      staging_path = text_at annotation_staging_path m;
    } in
    metadata-read_statuses pod.container_statuses _ false ∙ ap read e

-- A spec put back together from a State, a StoredSpec and the data of a Secret.
abbrev spec_from : Cache → StoredSpec → Credentials → Metadata → Spec
spec_from cache stored credentials m = record {
  volume_id = m.volume_id;
  node_name = m.node_name;
  pvc_name = m.pvc_name;
  pvc_namespace = m.pvc_namespace;
  staging_path = m.staging_path;
  credentials = credentials;
  cache = cache;
  owner_uid = stored.owner_uid;
  owner_gid = stored.owner_gid;
  options = stored.options;
  resources = stored.resources;
}

abbrev pub stored_of : Spec → StoredSpec
stored_of spec = record {
  owner_uid = spec.owner_uid;
  owner_gid = spec.owner_gid;
  options = spec.options;
  resources = spec.resources;
}

abbrev credentials_in : Dict String → Credentials
credentials_in m = record { token = text_at token_key m; passphrase = text_at passphrase_key m }

credentials-build_secret :
    (f : Formats) (cfg : Config) (spec : Spec) (hash suffix : String)
    → credentials_in (build_secret f cfg spec hash suffix).content ≡ spec.credentials
unfolding build_secret lookup
credentials-build_secret f cfg spec hash suffix = refl

not_empty : (t : String) → t ≢ "" → (t == "") ≡ false
not_empty t h = ground (arith, eq_iff t "")

module _ {W : Type 0} (kube : Kube W) (f : Formats) where
  spec_of-found :
      (st : State) (pod : Pod) (stored : StoredSpec) (s : Secret) (cache : Cache) (w : W)
      (h : Host W)
      → st.pod ≡ some pod
      → st.staging_path ≢ ""
      → f.unmarshal_stored (text_at annotation_spec pod.annotations) ≡ ok stored
      → kube.get_secret (text_at annotation_secret pod.annotations) h.world ≡ (ok s, w)
      → spec_of kube f st cache h ≡ (
        ok (spec_from cache stored (credentials_in s.content) (metadata st)),
        record h { world = w },
      )
  unfolding spec_of rebuild rebuilt attempt metadata
  spec_of-found st pod stored s cache w h e staged reads there =
      rw (e, not_empty st.staging_path staged, reads, there) refl

  -- The recovery rebuilds exactly the Spec that a pod was built from, from the State read of the pod at
  -- any time, in any phase, and from the pod's own Secret, with the node's cache settings: if the API
  -- kept the annotations and the data as they were created, JSON reads back what it wrote, and the
  -- staging path is not empty.
  pub spec_of-build_pod :
      (cfg : Config) (spec : Spec) (hash secret suffix : String) (now : ℕ) (pod : Pod) (s : Secret)
      (w : W) (h : Host W)
      → pod.annotations ≡ (build_pod f cfg spec hash secret).meta.annotations
      → s.content ≡ (build_secret f cfg spec hash suffix).content
      → kube.get_secret secret h.world ≡ (ok s, w)
      → f.unmarshal_stored (spec_annotation f spec) ≡ ok (stored_of spec)
      → spec.staging_path ≢ ""
      → spec_of kube f (state_of now pod) spec.cache h ≡ (ok spec, record h { world = w })
  unfolding build_pod object_meta insert lookup metadata
  spec_of-build_pod cfg spec hash secret suffix now pod s w h kept content there reads staged =
      let st = state_of now pod in
      let meta = metadata-state_of f cfg spec hash secret now pod kept in
      let stored = stored_of spec in
      let annotation = ap (text_at annotation_spec) kept in
      let name = ap (text_at annotation_secret) kept in
      spec_of-found st pod stored s spec.cache w h (ap (λ (m : Metadata). m.pod) meta)
        (λ empty. staged (sym (ap (λ (m : Metadata). m.staging_path) meta) ∙ empty))
        (ap f.unmarshal_stored annotation ∙ reads)
        (ap (λ n. kube.get_secret n h.world) name ∙ there)
      ∙ ap (λ c. (ok (spec_from spec.cache stored c (metadata st)), record h { world = w }))
          (ap credentials_in content ∙ credentials-build_secret f cfg spec hash suffix)
      ∙ ap (λ m. (ok (spec_from spec.cache stored spec.credentials m), record h { world = w })) meta
