-- ===== src/Mountpod/Manager.antt =====
-- manager.go: the calls of the Manager for one volume, each under the caller's lock of the volume. An
-- error comes with the State that the call returns beside it.
pub mod Secrets
pub mod Ensure
pub mod Delete
pub mod Guarded
pub mod Rebuild
mod Tests
use retyc_k8s_csi.Prelude.{
  ℕ, String, Bool, not, Option, none, some, List, [], ◌∷◌, Dict, ◌==◌, if◌then◌else◌, Result, ok,
  err, Exec, pure, raise, ◌>>=◌, ltb, nat_eq, text_at,
}
use retyc_k8s_csi.Mountpod.Backoff.{Backoff, reset_backoff, forget_all}
use retyc_k8s_csi.Mountpod.Pod.{
  Pod, State, no_state, phase_absent, state_of, label_volume, metrics_port,
}
use retyc_k8s_csi.Mountpod.Kube.{
  ApiError, not_found, already_exists, api_failed, Kube, Host, attempt,
}
use retyc_k8s_csi.Mountpod.Spec.Label.{label_value}
use retyc_k8s_csi.Mountpod.Spec.{Formats, Config, name_of}

-- The errors: ErrGaveUp with the restart state, ErrInvalidSpec, an error of the API, of Prepare, of
-- the annotations of a pod, and of the probe.
pub data ManagerError : Type 0 where
  gave_up_error : Backoff → ManagerError
  invalid_spec : ManagerError
  api_error : ApiError → ManagerError
  prepare_failed bad_annotation not_ready : ManagerError

abbrev pub Failed : Type 0
Failed = State × ManagerError

module _ {W : Type 0} (kube : Kube W) (f : Formats) (cfg : Config) where
  unfoldable pub read_pod : String → String → Result ApiError Pod → Exec Failed (Host W) State
  read_pod node_name volume_id (ok pod) h = (ok (state_of (kube.clock h.world) pod), h)
  read_pod node_name volume_id (err not_found) h = (
    ok (record no_state {
      name = name_of f node_name volume_id;
      phase = phase_absent;
      volume_id = volume_id;
      node_name = node_name;
    }),
    h,
  )
  read_pod node_name volume_id (err already_exists) h =
      (err (no_state, api_error already_exists), h)
  read_pod node_name volume_id (err api_failed) h = (err (no_state, api_error api_failed), h)

  -- Get
  unfoldable pub get : String → String → Exec Failed (Host W) State
  get node_name volume_id =
      attempt (kube.get_pod (name_of f node_name volume_id)) >>= read_pod node_name volume_id

  -- The states of the pods of a list that are the node's.
  unfoldable pub states_on : ℕ → String → List Pod → List State
  states_on now node_name [] = []
  states_on now node_name (pod ∷ pods) =
      let rest = states_on now node_name pods in
      let st = state_of now pod in if st.node_name == node_name then st ∷ rest else rest

  unfoldable pub read_pods : String → Result ApiError (List Pod) → Exec Failed (Host W) (List State)
  read_pods node_name (ok pods) h = (ok (states_on (kube.clock h.world) node_name pods), h)
  read_pods node_name (err e) h = (err (no_state, api_error e), h)

  -- List
  unfoldable pub list : String → Exec Failed (Host W) (List State)
  list node_name = attempt (kube.list_pods (label_value f node_name)) >>= read_pods node_name

  unfoldable pub probed : Pod → Result (Unit {0}) ℕ → Exec Failed (Host W) (Unit {0})
  probed pod (err e) h = (err (no_state, not_ready), h)
  probed pod (ok code) h =
      if not (nat_eq code 200)
      then (err (no_state, not_ready), h)
      else let v = text_at label_volume pod.annotations in
        (ok tt, if v == "" then h else record h { backoffs = reset_backoff v h.backoffs })

  -- Ready
  unfoldable pub ready : Option Pod → Exec Failed (Host W) (Unit {0})
  ready none = raise (no_state, not_ready)
  ready (some pod) =
      let probe : Exec Failed (Host W) (Unit {0}) =
        attempt (kube.get_ready pod.pod_ip (metrics_port pod)) >>= probed pod in
      if pod.pod_ip == ""
      then raise (no_state, not_ready)
      else if nat_eq (metrics_port pod) 0
      then raise (no_state, not_ready)
      else probe
