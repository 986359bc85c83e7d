-- ===== src/Mountpod/Manager/Delete.antt =====
-- manager.go: Delete.
pub mod Draining
use retyc_k8s_csi.Prelude.{
  Option, String, false, none, some, Dict, if◌then◌else◌, Result, ok, Exec, pure, ◌>>=◌, ◌>>◌,
  is_some,
}
use retyc_k8s_csi.Mountpod.Backoff.{BackoffEntry, forget, forget_all}
use retyc_k8s_csi.Mountpod.Pod.{Pod, State, phase_terminating, phase_exited, finished}
use retyc_k8s_csi.Mountpod.Kube.{Kube, Host, attempt}
use retyc_k8s_csi.Mountpod.Spec.{Formats, Config}
use retyc_k8s_csi.Mountpod.Manager.{Failed, get}
use retyc_k8s_csi.Mountpod.Manager.Secrets.{
  unless_missing, delete_secrets, kept_finalizers, release,
}

abbrev forgetting :
    {W : Type 0}
    → (String → Dict BackoffEntry → Dict BackoffEntry)
    → String
    → Exec Failed (Host W) (Unit {0})
forgetting drop volume_id h = (ok tt, record h { backoffs = drop volume_id h.backoffs })

-- The pod with the finalizers that `release` left on it.
abbrev released : Pod → Pod
released pod = record pod { finalizers = kept_finalizers pod }

module _ {W : Type 0} (kube : Kube W) (f : Formats) (cfg : Config) where
  unfoldable pub delete_finished : String → String → State → Pod → Exec Failed (Host W) State
  delete_finished node_name volume_id st pod =
      let gone = record st { phase = phase_exited; pod = some (released pod) } in
      release kube st pod
      >> forgetting (if is_some pod.deletion_timestamp then forget_all else forget) volume_id
      >> delete_secrets kube gone node_name volume_id false
      >> pure gone

  unfoldable pub delete_running : State → Pod → Exec Failed (Host W) State
  delete_running st pod =
      let draining = record st { phase = phase_terminating } in
      let ask : Exec Failed (Host W) State =
        (attempt (kube.delete_pod st.name none pod.uid) >>= unless_missing st) >> pure draining in
      if is_some pod.deletion_timestamp then pure draining else ask

  unfoldable pub delete_absent : String → String → State → Exec Failed (Host W) State
  delete_absent node_name volume_id st =
      forgetting forget volume_id >> delete_secrets kube st node_name volume_id false >> pure st

  unfoldable pub delete_with : String → String → State → Option Pod → Exec Failed (Host W) State
  delete_with node_name volume_id st none h = delete_absent node_name volume_id st h
  delete_with node_name volume_id st (some pod) h =
      let over : Result Failed State × Host W = delete_finished node_name volume_id st pod h in
      let live : Result Failed State × Host W = delete_running st pod h in
      if finished (kube.clock h.world) pod then over else live

  -- A State has no pod exactly if it is PhaseAbsent.
  unfoldable pub delete_found : String → String → State → Exec Failed (Host W) State
  delete_found node_name volume_id st = delete_with node_name volume_id st st.pod

  -- Delete
  unfoldable pub delete_mount : String → String → Exec Failed (Host W) State
  delete_mount node_name volume_id =
      get kube f cfg node_name volume_id >>= delete_found node_name volume_id
