-- ===== src/Driver/Watch.antt =====
-- internal/driver/watch.go: which events of the informer queue a volume for a repair, and what a worker
-- does with the queue after one. The informer and the work queue (client-go) are third-party code: an event
-- is the pods that it carries, and a call of the queue is a value.
pub mod Events
pub mod Delays
mod Tests
use retyc_k8s_csi.Prelude.{
  ℕ, ◌-◌, String, Bool, true, false, not, ◌&&◌, ◌||◌, Option, none, some, List, [], ◌∷◌, any,
  is_some, text_at, nat_eq, ltb, ◌==◌, if◌then◌else◌,
}
use retyc_k8s_csi.Mountpod.Pod.{Pod, Condition, ContainerStatus, label_node, label_volume}
use retyc_k8s_csi.Driver.Node.{Calls, NodeServer, NodeState}
use retyc_k8s_csi.Driver.Node.Recover.{Recovered, min_retry_delay, recover_volume}

unfoldable pub pod_finished : Pod → Bool
pod_finished pod =
    if pod.phase == "Failed" || pod.phase == "Succeeded"
    then true
    else any (λ cs. is_some cs.terminated) pod.container_statuses

-- The loop of podSignature: the last Ready condition decides.
unfoldable pub last_ready : Bool → List Condition → Bool
last_ready ready [] = ready
last_ready ready (c ∷ rest) =
    last_ready (if c.kind == "Ready" then c.status == "True" else ready) rest

-- podSignature, as the three values that its text shows.
pub record Signature : Type 0 where
  pub deleting : Bool
  pub is_finished : Bool
  pub ready : Bool

unfoldable pub pod_signature : Pod → Signature
pod_signature pod = record {
  deleting = is_some pod.deletion_timestamp;
  is_finished = pod_finished pod;
  ready = last_ready false pod.conditions;
}

abbrev same : Bool → Bool → Bool
same true b = b
same false b = not b

unfoldable pub same_signature : Signature → Signature → Bool
same_signature a b =
    same a.deleting b.deleting && (same a.is_finished b.is_finished && same a.ready b.ready)

-- ownPod
unfoldable pub is_own_pod : String → Pod → Bool
is_own_pod node_id pod =
    text_at label_node pod.annotations == node_id
    && not (text_at label_volume pod.annotations == "")

-- enqueue: the volume that is queued, if any.
unfoldable pub enqueue : String → Pod → Option String
enqueue node_id pod =
    if is_own_pod node_id pod then some (text_at label_volume pod.annotations) else none

-- AddFunc, UpdateFunc and DeleteFunc of watchPods, of pods.
unfoldable pub on_add : String → Pod → Option String
on_add node_id pod =
    if is_some pod.deletion_timestamp || pod_finished pod then enqueue node_id pod else none

unfoldable pub on_update : String → Pod → Pod → Option String
on_update node_id old new =
    if same_signature (pod_signature old) (pod_signature new) then none else enqueue node_id new

unfoldable pub on_delete : String → Pod → Option String
on_delete = enqueue

-- The calls of the queue that a worker makes for a volume.
pub data QueueCall : Type 0 where
  add_rate_limited done forget : String → QueueCall
  add_after : String → ℕ → QueueCall

abbrev pub larger : ℕ → ℕ → ℕ
larger a b = if ltb a b then b else a

-- The switch of repairWorker: a failed repair, one to look at again, and one that is over.
unfoldable pub outcome : {W : Type 0} → Calls W → String → Recovered → W → List QueueCall
outcome calls volume_id answer w =
    if is_some answer.failure
    then add_rate_limited volume_id ∷ done volume_id ∷ []
    else if not (nat_eq answer.retry_at 0)
    then forget volume_id
      ∷ add_after volume_id (larger (answer.retry_at - calls.kube.clock w) min_retry_delay)
      ∷ done volume_id
      ∷ []
    else forget volume_id ∷ done volume_id ∷ []

-- repair, under the lock of the volume.
unfoldable pub repair :
    {W : Type 0} → Calls W → NodeServer → String → NodeState W → Recovered × NodeState W
repair calls server volume_id = recover_volume calls server volume_id false

-- A turn of repairWorker on a volume of the queue. The lock is given back in between: `meanwhile` is what
-- happens to the state, the clock included, between the end of the repair and the worker's look at the
-- clock.
unfoldable pub work :
    {W : Type 0}
    → Calls W
    → NodeServer
    → (NodeState W → NodeState W)
    → String
    → NodeState W
    → List QueueCall × NodeState W
work calls server meanwhile volume_id s =
    let (answer, t) = repair calls server volume_id s in
    let u = meanwhile t in (outcome calls volume_id answer u.host.world, u)
