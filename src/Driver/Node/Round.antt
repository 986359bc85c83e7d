-- ===== src/Driver/Node/Round.antt =====
-- recovery.go and metrics.go: a round of Recover over the mount pods of the node. The repairs of different
-- volumes run at once, each under the lock of its volume; here they follow one another.
pub mod Kept
use retyc_k8s_csi.Prelude.{
  ℕ, suc, ◌+◌, ◌-◌, ◌*◌, ◌^◌, String, Bool, true, false, not, ◌&&◌, ◌||◌, Option, none, some, List,
  [], ◌∷◌, map, length, keep, Dict, lookup, delete, contains, ltb, ◌==◌, if◌then◌else◌, Result, ok,
  err,
}
use retyc_k8s_csi.Mountpod.Backoff.{volumes}
use retyc_k8s_csi.Mountpod.Pod.{Phase, State}
use retyc_k8s_csi.Mountpod.Manager.{Failed, get, list}
use retyc_k8s_csi.Driver.Recovery.{
  MetricState, state_pending, state_running, state_ready, state_terminating, state_exited,
}
use retyc_k8s_csi.Driver.Node.{Calls, NodeServer, NodeState, is_busy, clear_gave_up}
use retyc_k8s_csi.Driver.Node.Stage.{forget_volume}
use retyc_k8s_csi.Driver.Node.Rebind.{RecoverError}
use retyc_k8s_csi.Driver.Node.Recover.{Recovered, is_absent, kubelet_staged, recover_volume}

-- NodeMetrics: the gauges of the mount pods by state, and of those of another CLI version.
pub record NodeMetrics : Type 0 where
  pub pods : MetricState → ℕ
  pub outdated : ℕ

abbrev same_state : MetricState → MetricState → Bool
same_state state_pending state_pending = true
same_state state_running state_running = true
same_state state_ready state_ready = true
same_state state_terminating state_terminating = true
same_state state_exited state_exited = true
same_state _ _ = false

abbrev pub is_in : MetricState → Option MetricState → Bool
is_in state none = false
is_in state (some other) = same_state state other

unfoldable pub count_state : MetricState → List (Option MetricState) → ℕ
count_state state [] = 0
count_state state (r ∷ results) =
    let n = count_state state results in if is_in state r then suc n else n

-- update, of metrics that may be nil.
unfoldable pub update : List (Option MetricState) → ℕ → Option NodeMetrics → Option NodeMetrics
update results outdated none = none
update results outdated (some m) =
    some (record { pods = λ state. count_state state results; outdated = outdated })

-- 30 minutes.
abbrev pub orphan_grace : ℕ
orphan_grace = 1800 * 10 ^ 9

-- Whether a give-up was last seen less than orphanGrace ago.
unfoldable pub is_kept : ℕ → Option ℕ → Bool
is_kept now none = false
is_kept now (some at) = ltb (now - at) orphan_grace

module _ {W : Type 0} (calls : Calls W) (server : NodeServer) where
  unfoldable pub forget_gone : String → NodeState W → NodeState W
  forget_gone volume_id s =
      (clear_gave_up {E = RecoverError} volume_id (forget_volume calls server volume_id s)).1

  unfoldable pub prune_found : String → Result Failed State → NodeState W → NodeState W
  prune_found volume_id (err e) s = s
  prune_found volume_id (ok st) s =
      let gone = forget_gone volume_id s in if is_absent st.phase then gone else s

  -- A volume with a restart state, in pruneBackoffs.
  unfoldable pub prune_one : String → String → NodeState W → NodeState W
  prune_one volume_id staging s =
      let w = s.host.world in
      let (r, h) = get calls.kube server.formats server.config server.node_id volume_id s.host in
      let looked = prune_found volume_id r (record s { host = h }) in
      if is_busy (calls.now w) volume_id s || kubelet_staged calls server staging w
      then s
      else if is_kept (calls.kube.clock w) (lookup volume_id s.gave_up)
      then s
      else looked

  unfoldable pub prune_all : List String → Dict String → NodeState W → NodeState W
  prune_all known [] s = s
  prune_all known ((volume_id, staging) ∷ rest) s =
      prune_all known rest (if contains known volume_id then s else prune_one volume_id staging s)

  -- pruneBackoffs
  unfoldable pub prune_backoffs : List State → NodeState W → NodeState W
  prune_backoffs states s = prune_all (map (λ st. st.volume_id) states) (volumes s.host.backoffs) s

  unfoldable pub recover_each : List State → NodeState W → List (Option MetricState) × NodeState W
  recover_each [] s = ([], s)
  recover_each (st ∷ states) s =
      let (answer, s') = recover_volume calls server st.volume_id false s in
      let (results, t) = recover_each states s' in (answer.metric ∷ results, t)

  abbrev pub outdated_of : List State → ℕ
  outdated_of states =
      length (keep (λ st. not (st.cli_version == server.config.cli_version)) states)

  unfoldable pub recover_listed :
      Result Failed (List State)
      → Option NodeMetrics
      → NodeState W
      → Option NodeMetrics × NodeState W
  recover_listed (err e) metrics s = (metrics, s)
  recover_listed (ok states) metrics s =
      let (results, t) = recover_each states s in
      (update results (outdated_of states) metrics, prune_backoffs states t)

  -- Recover; the warnings on volumes without a pod are logs.
  unfoldable pub recover : Option NodeMetrics → NodeState W → Option NodeMetrics × NodeState W
  recover metrics s =
      let (r, h) = list calls.kube server.formats server.config server.node_id s.host in
      recover_listed r metrics (record s { host = h })
