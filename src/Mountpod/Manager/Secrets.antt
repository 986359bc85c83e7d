-- ===== src/Mountpod/Manager/Secrets.antt =====
-- manager.go: the Secrets of the mount pods, their owner, the finalizer, and SpecOf.
use retyc_k8s_csi.Prelude.{
  String, Bool, not, ◌&&◌, ◌||◌, none, some, List, [], ◌∷◌, keep, is_empty, contains, ◌==◌,
  if◌then◌else◌, Result, ok, err, Exec, pure, raise, ◌>>=◌, ◌>>◌, text_at,
}
use retyc_k8s_csi.Identity.{token_key, passphrase_key}
use retyc_k8s_csi.Mountpod.Pod.{
  Pod, State, annotation_secret, annotation_spec, label_node, label_volume, finalizer_in_use,
}
use retyc_k8s_csi.Mountpod.Kube.{
  ApiError, not_found, already_exists, api_failed, Kube, Host, attempt,
}
use retyc_k8s_csi.Mountpod.Spec.{Formats, Cache, Spec, StoredSpec}
use retyc_k8s_csi.Mountpod.Spec.Build.{Secret}
use retyc_k8s_csi.Mountpod.Manager.{api_error, bad_annotation, Failed}

-- `err != nil && !apierrors.IsNotFound(err)`: a missing object is as good as a deleted one.
unfoldable pub unless_missing :
    {W : Type 0} → State → Result ApiError (Unit {0}) → Exec Failed (Host W) (Unit {0})
unless_missing st (ok u) = pure tt
unless_missing st (err not_found) = pure tt
unless_missing st (err already_exists) = raise (st, api_error already_exists)
unless_missing st (err api_failed) = raise (st, api_error api_failed)

abbrev pub kept_finalizers : Pod → List String
kept_finalizers pod = keep (λ g. not (g == finalizer_in_use)) pod.finalizers

module _ {W : Type 0} (kube : Kube W) where
  -- deleteSecret: a failure is logged.
  unfoldable pub delete_secret : String → Exec Failed (Host W) (Unit {0})
  delete_secret name = attempt {F = Failed} (kube.delete_secret name) >>= λ _. pure tt

  abbrev is_deleted : String → String → Bool → Secret → Bool
  is_deleted node_name volume_id only_orphans s = not (
      not (text_at label_node s.meta.annotations == node_name)
      || (not (text_at label_volume s.meta.annotations == volume_id)
          || (only_orphans && not (is_empty s.owners))))

  unfoldable pub delete_listed : List Secret → Exec Failed (Host W) (Unit {0})
  delete_listed [] = pure tt
  delete_listed (s ∷ secrets) = delete_secret s.meta.name >> delete_listed secrets

  unfoldable pub listed :
      State
      → String
      → String
      → Bool
      → Result ApiError (List Secret)
      → Exec Failed (Host W) (Unit {0})
  listed st node_name volume_id only_orphans (ok secrets) =
      delete_listed (keep (is_deleted node_name volume_id only_orphans) secrets)
  listed st node_name volume_id only_orphans (err e) = raise (st, api_error e)

  -- deleteSecrets; `st` is what the caller returns beside the error.
  unfoldable pub delete_secrets : State → String → String → Bool → Exec Failed (Host W) (Unit {0})
  delete_secrets st node_name volume_id only_orphans =
      attempt (kube.list_secrets node_name volume_id) >>= listed st node_name volume_id only_orphans

  unfoldable pub patched : State → Result ApiError (Unit {0}) → Exec Failed (Host W) (Unit {0})
  patched st (ok u) = pure tt
  patched st (err e) = raise (st, api_error e)

  unfoldable pub take_secret :
      State → Pod → Result ApiError Secret → Exec Failed (Host W) (Unit {0})
  take_secret st pod (ok secret) =
      let patch : Exec Failed (Host W) (Unit {0}) =
        attempt (kube.patch_owner (text_at annotation_secret pod.annotations) pod.uid)
        >>= patched st in
      if contains secret.owners pod.uid then pure tt else patch
  take_secret st pod (err not_found) = pure tt
  take_secret st pod (err already_exists) = raise (st, api_error already_exists)
  take_secret st pod (err api_failed) = raise (st, api_error api_failed)

  -- ownSecret
  unfoldable pub own_secret : State → Pod → Exec Failed (Host W) (Unit {0})
  own_secret st pod =
      let name = text_at annotation_secret pod.annotations in
      let take : Exec Failed (Host W) (Unit {0}) =
        attempt (kube.get_secret name) >>= take_secret st pod in
      if name == "" then pure tt else take

  -- RemoveFinalizer; the pod is changed in place, see `released`.
  unfoldable pub remove_finalizer : State → Pod → Exec Failed (Host W) (Unit {0})
  remove_finalizer st pod =
      let patch : Exec Failed (Host W) (Unit {0}) =
        attempt (kube.patch_finalizers pod.name pod.finalizers (kept_finalizers pod))
        >>= unless_missing st in
      if not (contains pod.finalizers finalizer_in_use) then pure tt else patch

  -- release
  unfoldable pub release : State → Pod → Exec Failed (Host W) (Unit {0})
  release st pod =
      remove_finalizer st pod
      >> (attempt (kube.delete_pod pod.name (some 0) pod.uid) >>= unless_missing st)

  unfoldable pub rebuilt :
      State → Cache → StoredSpec → Result ApiError Secret → Exec Failed (Host W) Spec
  rebuilt st cache stored (err e) = raise (st, api_error e)
  rebuilt st cache stored (ok secret) = pure (record {
    volume_id = st.volume_id;
    node_name = st.node_name;
    pvc_name = st.pvc_name;
    pvc_namespace = st.pvc_namespace;
    staging_path = st.staging_path;
    credentials = record {
      token = text_at token_key secret.content;
      passphrase = text_at passphrase_key secret.content;
    };
    cache = cache;
    owner_uid = stored.owner_uid;
    owner_gid = stored.owner_gid;
    options = stored.options;
    resources = stored.resources;
  })

  unfoldable pub rebuild :
      State → Cache → Pod → Result (Unit {0}) StoredSpec → Exec Failed (Host W) Spec
  rebuild st cache pod (err e) = raise (st, bad_annotation)
  rebuild st cache pod (ok stored) =
      attempt (kube.get_secret (text_at annotation_secret pod.annotations))
      >>= rebuilt st cache stored

  -- SpecOf
  unfoldable pub spec_of : Formats → State → Cache → Exec Failed (Host W) Spec
  spec_of f st cache = elim st.pod [
    | none ↦ raise (st, bad_annotation)
    | some pod ↦
        let stored : Exec Failed (Host W) Spec =
          rebuild st cache pod (f.unmarshal_stored (text_at annotation_spec pod.annotations)) in
        if st.staging_path == "" then raise (st, bad_annotation) else stored
  ]
