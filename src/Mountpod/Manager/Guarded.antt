-- ===== src/Mountpod/Manager/Guarded.antt =====
-- Properties of the world that the calls of the Manager keep. Prepare, which empties the spool of the
-- volume (what a mount process has not sent yet), is held to keep one only right after a read that
-- found no pod.
use retyc_k8s_csi.Prelude.{
  String, ◌≡◌, Bool, true, false, Option, some, List, [], ◌∷◌, contains, if◌then◌else◌, Result, ok,
  err, Exec, pure, continue, ◌>>=◌, text_at, ◌==◌, Bool-cases, inl, inr,
}
use retyc_k8s_csi.Mountpod.Pod.{Pod, State, annotation_secret, finalizer_in_use}
use retyc_k8s_csi.Mountpod.Kube.{
  ApiError, not_found, already_exists, api_failed, Kube, Host, attempt,
}
use retyc_k8s_csi.Mountpod.Spec.{Formats, Spec, name_of}
use retyc_k8s_csi.Mountpod.Spec.Build.{Secret, PodTemplate}
use retyc_k8s_csi.Mountpod.Manager.{Failed}
use retyc_k8s_csi.Mountpod.Manager.Secrets.{
  unless_missing, delete_secret, delete_listed, listed, delete_secrets, patched, take_secret,
  own_secret, remove_finalizer, release,
}

-- A property of the world that every call keeps, Prepare only right after a read that found no pod.
pub record Guarded {W : Type 0} (kube : Kube W) (f : Formats) (P : W → Type 0) : Type 0 where
  pub get_pod : (n : String) (w : W) → P w → P (kube.get_pod n w).1
  pub create_pod : (t : PodTemplate) (w : W) → P w → P (kube.create_pod t w).1
  pub delete_pod :
      (n : String) (g : Option _) (u : String) (w : W) → P w → P (kube.delete_pod n g u w).1
  pub patch_finalizers :
      (n : String) (old new : List String) (w : W) → P w → P (kube.patch_finalizers n old new w).1
  pub get_secret : (n : String) (w : W) → P w → P (kube.get_secret n w).1
  pub create_secret : (s : Secret) (w : W) → P w → P (kube.create_secret s w).1
  pub list_secrets : (n v : String) (w : W) → P w → P (kube.list_secrets n v w).1
  pub patch_owner : (n u : String) (w : W) → P w → P (kube.patch_owner n u w).1
  pub delete_secret : (n : String) (w : W) → P w → P (kube.delete_secret n w).1
  pub prepare :
      (spec : Spec) (w : W)
      → (kube.get_pod (name_of f spec.node_name spec.volume_id) w).0 ≡ err not_found
      → P w
      → P (kube.prepare spec (kube.get_pod (name_of f spec.node_name spec.volume_id) w).1).1

module _ {W : Type 0} (P : W → Type 0) where
  abbrev pub Keeps : {A : Type 0} → Exec Failed (Host W) A → Type 0
  Keeps m = (h : Host W) → P h.world → P (m h).1.world

  pub continue-Keeps :
      {A B : Type 0} (r : Result Failed A) (g : A → Exec Failed (Host W) B)
      → ((a : A) → Keeps (g a))
      → Keeps (continue r g)
  continue-Keeps (ok a) g k h p = k a h p
  continue-Keeps (err e) g k h p = p

  pub if-keeps :
      {A : Type 0} (b : Bool) (x y : Result Failed A × Host W)
      → P x.1.world
      → P y.1.world
      → P (if b then x else y).1.world
  if-keeps true x y p q = p
  if-keeps false x y p q = q

  -- An action that follows another, and one that follows a call.
  pub bind-Keeps :
      {A B : Type 0} (m : Exec Failed (Host W) A) (g : A → Exec Failed (Host W) B)
      → Keeps m
      → ((a : A) → Keeps (g a))
      → Keeps (m >>= g)
  bind-Keeps m g k l h p = continue-Keeps (m h).0 g l (m h).1 (k h p)

  pub call-Keeps :
      {E A B : Type 0} (m : Exec E W A) (g : Result E A → Exec Failed (Host W) B)
      → ((w : W) → P w → P (m w).1)
      → ((r : Result E A) → Keeps (g r))
      → Keeps (attempt m >>= g)
  unfolding attempt
  call-Keeps m g k l h p = l (m h.world).0 (record h { world = (m h.world).1 }) (k h.world p)

module _ {W : Type 0} (kube : Kube W) (f : Formats) (P : W → Type 0)
    (guarded : Guarded kube f P) where
  unless_missing-Keeps :
      (st : State) (r : Result ApiError (Unit {0})) → Keeps P (unless_missing st r)
  unfolding unless_missing
  unless_missing-Keeps st (ok u) h p = p
  unless_missing-Keeps st (err not_found) h p = p
  unless_missing-Keeps st (err already_exists) h p = p
  unless_missing-Keeps st (err api_failed) h p = p

  pub delete_secret-Keeps : (n : String) → Keeps P (delete_secret kube n)
  unfolding delete_secret
  delete_secret-Keeps n =
      call-Keeps P (kube.delete_secret n) (λ r. pure tt) (guarded.delete_secret n) λ r h p. p

  delete_listed-Keeps : (secrets : List Secret) → Keeps P (delete_listed kube secrets)
  unfolding delete_listed
  delete_listed-Keeps [] h p = p
  delete_listed-Keeps (s ∷ secrets) h p =
      bind-Keeps P (delete_secret kube s.meta.name) (λ u. delete_listed kube secrets)
        (delete_secret-Keeps s.meta.name) (λ u. delete_listed-Keeps secrets) h p

  listed-Keeps :
      (st : State) (n v : String) (b : Bool) (r : Result ApiError (List Secret))
      → Keeps P (listed kube st n v b r)
  unfolding listed
  listed-Keeps st n v b (ok secrets) h p = delete_listed-Keeps _ h p
  listed-Keeps st n v b (err e) h p = p

  pub delete_secrets-Keeps :
      (st : State) (n v : String) (b : Bool) → Keeps P (delete_secrets kube st n v b)
  unfolding delete_secrets
  delete_secrets-Keeps st n v b =
      call-Keeps P (kube.list_secrets n v) (listed kube st n v b) (guarded.list_secrets n v)
        (listed-Keeps st n v b)

  patched-Keeps : (st : State) (r : Result ApiError (Unit {0})) → Keeps P (patched kube st r)
  unfolding patched
  patched-Keeps st (ok u) h p = p
  patched-Keeps st (err e) h p = p

  take_secret-Keeps :
      (st : State) (pod : Pod) (r : Result ApiError Secret) → Keeps P (take_secret kube st pod r)
  unfolding take_secret
  take_secret-Keeps st pod (ok secret) h p = elim (Bool-cases (contains secret.owners pod.uid)) [
    | inl t ↦ rw t p
    | inr t ↦ rw t (
        call-Keeps P (kube.patch_owner (text_at annotation_secret pod.annotations) pod.uid)
          (patched kube st) (guarded.patch_owner _ pod.uid) (patched-Keeps st) h p)
  ]
  take_secret-Keeps st pod (err not_found) h p = p
  take_secret-Keeps st pod (err already_exists) h p = p
  take_secret-Keeps st pod (err api_failed) h p = p

  pub own_secret-Keeps : (st : State) (pod : Pod) → Keeps P (own_secret kube st pod)
  unfolding own_secret
  own_secret-Keeps st pod h p =
      let name = text_at annotation_secret pod.annotations in
      elim (Bool-cases (name == "")) [
        | inl t ↦ rw t p
        | inr t ↦ rw t (
            call-Keeps P (kube.get_secret name) (take_secret kube st pod) (guarded.get_secret name)
              (take_secret-Keeps st pod) h p)
      ]

  remove_finalizer-Keeps : (st : State) (pod : Pod) → Keeps P (remove_finalizer kube st pod)
  unfolding remove_finalizer
  remove_finalizer-Keeps st pod h p = elim (Bool-cases (contains pod.finalizers finalizer_in_use)) [
    | inr t ↦ rw t p
    | inl t ↦ rw t (
        call-Keeps P (kube.patch_finalizers pod.name pod.finalizers _) (unless_missing st)
          (guarded.patch_finalizers _ _ _) (unless_missing-Keeps st) h p)
  ]

  pub release-Keeps : (st : State) (pod : Pod) → Keeps P (release kube st pod)
  unfolding release
  release-Keeps st pod =
      bind-Keeps P (remove_finalizer kube st pod) _ (remove_finalizer-Keeps st pod) λ u.
        call-Keeps P (kube.delete_pod pod.name (some 0) pod.uid) (unless_missing st)
          (guarded.delete_pod _ _ _) (unless_missing-Keeps st)
