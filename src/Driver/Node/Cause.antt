-- ===== src/Driver/Node/Cause.antt =====
-- node.go: the causes of the errors of ensureMounted that are final for kubelet.
use retyc_k8s_csi.Prelude.{Bool, true, false, some, List, ◌==◌, if◌then◌else◌, Result, ok, err, ◌≡◌}
use retyc_k8s_csi.Mountpod.Backoff.{Backoff}
use retyc_k8s_csi.Mountpod.Kube.{Host}
use retyc_k8s_csi.Mountpod.Spec.{Spec}
use retyc_k8s_csi.Mountpod.Pod.{State}
use retyc_k8s_csi.Mountpod.Manager.{Failed, gave_up_error, invalid_spec}
use retyc_k8s_csi.Mountpod.Manager.Ensure.{ensure}
use retyc_k8s_csi.Mountpod.Manager.Delete.{delete_mount}
use retyc_k8s_csi.Driver.Status.{
  Code, Status, invalid_argument, failed_precondition, unavailable, aborted,
}
use retyc_k8s_csi.Driver.Recovery.{MountInfo, top_mount}
use retyc_k8s_csi.Driver.Node.{Calls, NodeServer, NodeState}

module _ {W : Type 0} (calls : Calls W) (server : NodeServer) (spec : Spec) where
  abbrev pub ensure_pod : Host W → Result Failed State × Host W
  ensure_pod = ensure calls.kube server.formats server.config spec

  abbrev pub delete_pod : Host W → Result Failed State × Host W
  delete_pod = delete_mount calls.kube server.formats server.config spec.node_name spec.volume_id

  -- The states in which a call of ensureMounted that starts in `h` asks Ensure: the first one, and those after
  -- an Ensure and a Delete of the pod.
  pub data Asked : Host W → Host W → Type 0 where
    at_first : {h : Host W} → Asked h h
    again : {h k : Host W} → Asked (delete_pod (ensure_pod h).1).1 k → Asked h k

  -- Why a call of ensureMounted that starts in `h` fails with a code in a state: two codes are kubelet's to
  -- retry; the final ones have a cause in the call's last Ensure, whose state it is, that no retry cures.
  pub data Cause (h : Host W) : Code → NodeState W → Type 0 where
    not_yet : {t : NodeState W} → Cause h aborted t
    not_now : {t : NodeState W} → Cause h unavailable t
    gave_up :
        {t : NodeState W} {k : Host W}
        → Asked h k
        → (st : State) (b : Backoff) → ensure_pod k ≡ (err (st, gave_up_error b), t.host)
        → Cause h failed_precondition t
    invalid :
        {t : NodeState W} {k : Host W}
        → Asked h k
        → (st : State) → ensure_pod k ≡ (err (st, invalid_spec), t.host)
        → Cause h invalid_argument t
    mounted_elsewhere :
        {t : NodeState W} {k : Host W}
        → Asked h k
        → (st : State) (infos : List MountInfo) (top : MountInfo) → ensure_pod k ≡ (ok st, t.host)
        → calls.mount_info t.host.world ≡ some infos
        → top_mount infos st.staging_path ≡ some top
        → (st.staging_path == spec.staging_path) ≡ false
        → Cause h failed_precondition t

  abbrev pub FailsFrom : Host W → Result Status (Unit {0}) × NodeState W → Type 0
  FailsFrom h (ok u, t) = Unit
  FailsFrom h (err e, t) = Cause h e.code t

  pub if-FailsFrom :
      (h : Host W) (b : Bool) (x y : Result Status (Unit {0}) × NodeState W)
      → FailsFrom h x
      → FailsFrom h y
      → FailsFrom h (if b then x else y)
  if-FailsFrom h true x y p q = p
  if-FailsFrom h false x y p q = q

  -- A cause from a later round on.
  later-Cause :
      (h : Host W) (c : Code) (t : NodeState W)
      → Cause (delete_pod (ensure_pod h).1).1 c t
      → Cause h c t
  later-Cause h c t not_yet = not_yet
  later-Cause h c t not_now = not_now
  later-Cause h c t (gave_up a st b e) = gave_up (again a) st b e
  later-Cause h c t (invalid a st e) = invalid (again a) st e
  later-Cause h c t (mounted_elsewhere a st infos top e f g m) =
      mounted_elsewhere (again a) st infos top e f g m

  pub later-FailsFrom :
      (h : Host W) (x : Result Status (Unit {0}) × NodeState W)
      → FailsFrom (delete_pod (ensure_pod h).1).1 x
      → FailsFrom h x
  later-FailsFrom h (ok u, t) p = p
  later-FailsFrom h (err e, t) p = later-Cause h e.code t p
