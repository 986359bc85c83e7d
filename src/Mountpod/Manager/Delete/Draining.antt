-- ===== src/Mountpod/Manager/Delete/Draining.antt =====
-- Delete of a mount pod whose process still runs.
use retyc_k8s_csi.Prelude.{
  String, ◌≡◌, refl, sym, subst, false, none, some, Dict, Result, ok, err, continue, is_some,
  Bool-cases, inl, inr,
}
use retyc_k8s_csi.Mountpod.Backoff.{BackoffEntry}
use retyc_k8s_csi.Mountpod.Pod.{Pod, State, phase_terminating, state_of, finished}
use retyc_k8s_csi.Mountpod.Kube.{
  ApiError, not_found, already_exists, api_failed, Kube, Host, attempt,
}
use retyc_k8s_csi.Mountpod.Spec.{Formats, Config, name_of}
use retyc_k8s_csi.Mountpod.Manager.{Failed, get, read_pod}
use retyc_k8s_csi.Mountpod.Manager.Secrets.{unless_missing}
use retyc_k8s_csi.Mountpod.Manager.Rebuild.{pod-state_of}
use retyc_k8s_csi.Mountpod.Manager.Delete.{delete_running, delete_with, delete_found, delete_mount}

abbrev pub IsDraining : Result Failed State → Type 0
IsDraining (ok st) = st.phase ≡ phase_terminating
IsDraining (err e) = Unit {0}

module _ {W : Type 0} (kube : Kube W) (f : Formats) (cfg : Config) (P : W → Type 0)
    (reads : (n : String) (w : W) → P w → P (kube.get_pod n w).1)
    (asks : (n u : String) (w : W) → P w → P (kube.delete_pod n none u w).1) where
  abbrev Drains : Dict BackoffEntry → Result Failed State × Host W → Type 0
  Drains m (r, h) = IsDraining r × (h.backoffs ≡ m) × P h.world

  asked :
      (st st' : State) (r : Result ApiError (Unit {0})) (m : Dict BackoffEntry) (w : W)
      → st'.phase ≡ phase_terminating
      → P w
      → Drains m (
          continue
            (unless_missing st r (record { backoffs = m; world = w })).0
            (λ u h. (ok st', h))
            (unless_missing st r (record { backoffs = m; world = w })).1)
  unfolding unless_missing
  asked st st' (ok u) m w e p = (e, refl, p)
  asked st st' (err not_found) m w e p = (e, refl, p)
  asked st st' (err already_exists) m w e p = (tt, refl, p)
  asked st st' (err api_failed) m w e p = (tt, refl, p)

  running-Drains :
      (st : State) (pod : Pod) (h : Host W)
      → P h.world
      → Drains h.backoffs (delete_running kube f cfg st pod h)
  unfolding delete_running attempt
  running-Drains st pod h p = elim (Bool-cases (is_some pod.deletion_timestamp)) [
    | inl t ↦ rw t (refl, refl, p)
    | inr t ↦ rw t (
        asked st _ (kube.delete_pod st.name none pod.uid h.world).0 h.backoffs _ refl
          (asks _ _ _ p))
  ]

  found-Drains :
      (n v : String) (st : State) (pod : Pod) (h : Host W)
      → st.pod ≡ some pod
      → finished (kube.clock h.world) pod ≡ false
      → P h.world
      → Drains h.backoffs (delete_found kube f cfg n v st h)
  unfolding delete_found delete_with
  found-Drains n v st pod h e live p =
      subst (λ o. Drains h.backoffs (delete_with kube f cfg n v st o h)) (sym e)
        (rw live (running-Drains st pod h p))

  -- Delete of a pod whose mount process is not gone answers PhaseTerminating or an error, keeps every
  -- restart state, and asks the API for nothing but to read the pod and to delete it with its own grace
  -- period: a property that these two calls keep holds afterwards. The finalizer and the Secret stay.
  pub delete_drains :
      (n v : String) (pod : Pod) (w : W) (h : Host W)
      → kube.get_pod (name_of f n v) h.world ≡ (ok pod, w)
      → finished (kube.clock w) pod ≡ false
      → P h.world
      → IsDraining (delete_mount kube f cfg n v h).0
        × ((delete_mount kube f cfg n v h).1.backoffs ≡ h.backoffs)
        × P (delete_mount kube f cfg n v h).1.world
  unfolding delete_mount get read_pod attempt
  delete_drains n v pod w h there live p = rw there (
      found-Drains n v (state_of (kube.clock w) pod) pod (record h { world = w })
        (pod-state_of (kube.clock w) pod) live (subst (λ r. P r.1) there (reads _ h.world p)))
