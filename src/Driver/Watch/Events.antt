-- ===== src/Driver/Watch/Events.antt =====
-- watch.go: no end of a mount pod is missed.
use retyc_k8s_csi.Prelude.{
  ℕ, String, Bool, true, false, none, some, List, [], ◌∷◌, any, is_some, text_at, ◌==◌, ◌≡◌, inl,
  inr, refl, arith, Bool-cases, Option-cases,
}
use retyc_k8s_csi.Mountpod.Pod.{
  Pod, ContainerStatus, container_name, label_volume, state_of, termination, terminated, finished,
  phase_of,
}
use retyc_k8s_csi.Driver.Exits.{is_over}
use retyc_k8s_csi.Driver.Node.Ensure.{is_starting}
use retyc_k8s_csi.Driver.Watch.{
  pod_finished, pod_signature, same_signature, is_own_pod, enqueue, on_update,
}

-- A pod whose only container is the mount container.
abbrev pub HasOnlyMount : List ContainerStatus → Type 0
HasOnlyMount [] = Unit
HasOnlyMount (cs ∷ []) = (cs.name == container_name) ≡ true
HasOnlyMount (cs ∷ d ∷ rest) = ⊥

any_terminated :
    (statuses : List ContainerStatus)
    → HasOnlyMount statuses
    → any (λ cs. is_some cs.terminated) statuses ≡ is_some (termination statuses)
unfolding termination
any_terminated [] h = refl
any_terminated (cs ∷ []) h = ground arith
any_terminated (cs ∷ d ∷ rest) h = absurd h

-- What the Manager takes for the end of the mount process, without a deletion and without NodeLost.
finished-pod_finished :
    (now : ℕ) (pod : Pod)
    → HasOnlyMount pod.container_statuses
    → pod.deletion_timestamp ≡ none
    → (pod.reason == "NodeLost") ≡ false
    → pod_finished pod ≡ finished now pod
unfolding pod_finished finished terminated
finished-pod_finished now pod only kept known =
    ground (arith, any_terminated pod.container_statuses only)

live-pod_finished :
    (now : ℕ) (pod : Pod)
    → HasOnlyMount pod.container_statuses
    → finished now pod ≡ false
    → pod_finished pod ≡ false
unfolding pod_finished finished terminated
live-pod_finished now pod only live = ground (arith, any_terminated pod.container_statuses only)

phase_of-live :
    (now : ℕ) (pod : Pod) (running : Bool)
    → is_starting (phase_of now pod running) ≡ true
    → (pod.deletion_timestamp ≡ none) × (finished now pod ≡ false)
unfolding phase_of
phase_of-live now pod running live = elim (Option-cases pod.deletion_timestamp) [
  | inr (at, e) ↦ absurd (ground arith)
  | inl e ↦ (e, ground arith)
]

phase_of-over :
    (now : ℕ) (pod : Pod) (running : Bool)
    → is_over (phase_of now pod running) ≡ true
    → pod.deletion_timestamp ≡ none
    → finished now pod ≡ true
unfolding phase_of
phase_of-over now pod running over kept = ground arith

-- No end of a mount pod is missed: the update from a pod that the Manager takes for pending or running to
-- one that it takes for terminating or exited queues the volume, if the pod is this node's, its only
-- container is the mount container and its reason is not NodeLost.
pub on_update_end :
    (node_id : String) (now later : ℕ) (old new : Pod)
    → HasOnlyMount old.container_statuses
    → HasOnlyMount new.container_statuses
    → is_starting (state_of now old).phase ≡ true
    → is_over (state_of later new).phase ≡ true
    → (new.reason == "NodeLost") ≡ false
    → is_own_pod node_id new ≡ true
    → on_update node_id old new ≡ some (text_at label_volume new.annotations)
unfolding on_update enqueue state_of same_signature pod_signature
on_update_end node_id now later old new only only' live over known own =
    let (kept, going) = phase_of-live now old _ live in
    let off : pod_finished old ≡ false = live-pod_finished now old only going in
    elim (Bool-cases (same_signature (pod_signature old) (pod_signature new))) [
      | inr changed ↦ rw changed (rw own refl)
      | inl same ↦ absurd (differ kept off same)
    ]
  where
    differ :
        old.deletion_timestamp ≡ none
        → pod_finished old ≡ false
        → same_signature (pod_signature old) (pod_signature new) ≡ true
        → ⊥
    differ kept off same = elim (Option-cases new.deletion_timestamp) [
      | inr (at, e) ↦ ground arith
      | inl e ↦
          ground
            (arith, phase_of-over later new _ over e, finished-pod_finished later new only' e known)
    ]
