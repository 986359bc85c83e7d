-- ===== src/Mountpod/Kube.antt =====
-- What the Manager calls: the Kubernetes API of the driver's namespace, the clock, the generator of
-- random numbers, the Prepare hook and the HTTP probe, over the state `W` of the world. They are
-- parameters, and reading the clock or drawing a number is a read of that state.
use retyc_k8s_csi.Prelude.{ℕ, String, Option, List, Dict, Result, ok, Exec}
use retyc_k8s_csi.Mountpod.Backoff.{BackoffEntry}
use retyc_k8s_csi.Mountpod.Pod.{Pod}
use retyc_k8s_csi.Mountpod.Spec.{Spec}
use retyc_k8s_csi.Mountpod.Spec.Build.{Secret, PodTemplate}

-- apierrors.IsNotFound, apierrors.IsAlreadyExists, and the other errors.
pub data ApiError : Type 0 where
  not_found already_exists api_failed : ApiError

-- `delete_pod` takes the grace period, if any, and the UID of the precondition; `patch_finalizers` the
-- list to test and its replacement; `get_ready` answers the HTTP status of /readyz, if anything.
pub record Kube (W : Type 0) : Type 0 where
  pub clock : W → ℕ
  pub draw : W → ℕ
  pub suffix : W → String
  pub get_pod : String → Exec ApiError W Pod
  pub list_pods : String → Exec ApiError W (List Pod)
  pub create_pod : PodTemplate → Exec ApiError W Pod
  pub delete_pod : String → Option ℕ → String → Exec ApiError W (Unit {0})
  pub patch_finalizers : String → List String → List String → Exec ApiError W (Unit {0})
  pub get_secret : String → Exec ApiError W Secret
  pub create_secret : Secret → Exec ApiError W Secret
  pub list_secrets : String → String → Exec ApiError W (List Secret)
  pub patch_owner : String → String → Exec ApiError W (Unit {0})
  pub delete_secret : String → Exec ApiError W (Unit {0})
  pub prepare : Spec → Exec (Unit {0}) W (Unit {0})
  pub get_ready : String → ℕ → Exec (Unit {0}) W ℕ

-- The state that the Manager keeps, in the world.
pub record Host (W : Type 0) : Type 0 where
  pub backoffs : Dict BackoffEntry
  pub world : W

-- A call from the Manager, its result as a value: an error is the caller's to handle.
unfoldable pub attempt : {W E F A : Type 0} → Exec E W A → Exec F (Host W) (Result E A)
attempt m h = let (r, w) = m h.world in (ok r, record h { world = w })
