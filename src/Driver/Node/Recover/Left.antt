-- ===== src/Driver/Node/Recover/Left.antt =====
-- recovery.go and node.go: a volume that kubelet stages or unstages is left to it.
use retyc_k8s_csi.Prelude.{
  ◌+◌, ◌-◌, ◌<◌, String, true, false, not, ◌||◌, Option, none, some, List, lookup, ltb, ◌==◌,
  if◌then◌else◌, Result, ok, err, ◌≡◌, refl, ◌∙◌, ap, arith, Bool-cases, inl, inr, lt→ltb, subst,
}
use retyc_k8s_csi.Mountpod.Kube.{Host}
use retyc_k8s_csi.Mountpod.Pod.{State}
use retyc_k8s_csi.Mountpod.Manager.{Failed, get}
use retyc_k8s_csi.Driver.Status.{Status}
use retyc_k8s_csi.Driver.Recovery.{MountInfo}
use retyc_k8s_csi.Driver.Node.{
  Calls, NodeServer, NodeState, busy_for, busy_since, is_busy, is_aborted,
}
use retyc_k8s_csi.Driver.Node.StageSpec.{StageRequest}
use retyc_k8s_csi.Driver.Node.Stage.{is_supported, node_stage_volume}
use retyc_k8s_csi.Driver.Node.Busy.Marks.{left_mark, busy_while_aborted, Leaves}
use retyc_k8s_csi.Driver.Node.Recover.{is_absent, with_table, recover_found, recover_volume}

module _ {W : Type 0} (calls : Calls W) (server : NodeServer) where
  abbrev pub read_pod : String → NodeState W → Result Failed State × Host W
  read_pod volume_id s = get calls.kube server.formats server.config server.node_id volume_id s.host

  -- The recovery of a volume that is busy reads its pod, and does nothing else.
  recover_volume-busy :
      (v : String) (s : NodeState W)
      → is_busy (calls.now (read_pod v s).1.world) v s ≡ true
      → (recover_volume calls server v false s).1 ≡ record s { host = (read_pod v s).1 }
  unfolding recover_volume recover_found with_table is_busy
  recover_volume-busy v s busy = of_pod (read_pod v s).0
    where
      after : NodeState W
      after = record s { host = (read_pod v s).1 }

      of_table :
          (st : State) (o : Option (List MountInfo))
          → (with_table calls server v false st o after).1 ≡ after
      of_table st none = refl
      of_table st (some infos) = rw busy refl

      of_pod : (r : Result Failed State) → (recover_found calls server v false r after).1 ≡ after
      of_pod (err e) = refl
      of_pod (ok st) = elim (Bool-cases (is_absent st.phase)) [
        | inl t ↦ rw t refl
        | inr t ↦ rw t (of_table st (calls.mount_info after.host.world))
      ]

  -- After a stage that answers Aborted, a recovery of the volume, begun within 10 minutes of the start of
  -- the stage, reads the mount pod and does nothing else: kubelet's retry finds everything as it was.
  pub aborted_stage_left :
      (req : StageRequest) (e : Status) (s t : NodeState W)
      → (req.volume_id == "" || req.staging_target_path == "") ≡ false
      → is_supported req.capability ≡ true
      → node_stage_volume calls server req s ≡ (err e, t)
      → is_aborted e.code ≡ true
      → calls.now (read_pod req.volume_id t).1.world < calls.now s.host.world + busy_for
      → (recover_volume calls server req.volume_id false t).1
        ≡ record t { host = (read_pod req.volume_id t).1 }
  unfolding is_busy busy_since
  aborted_stage_left req e s t named supported run is_ab soon =
      recover_volume-busy req.volume_id t (ap (busy_since _) marked ∙ recent)
    where
      accepted :
          (req.volume_id == ""
            || req.staging_target_path == ""
            || not (is_supported req.capability))
          ≡ false
      accepted = ground arith

      marked : lookup req.volume_id t.busy ≡ some (calls.now s.host.world)
      marked =
          subst (λ x. lookup req.volume_id x.1.busy ≡ left_mark (calls.now s.host.world) x.0) run
            (subst
              (λ b. Leaves calls server b req.volume_id s (node_stage_volume calls server req s))
              accepted (busy_while_aborted calls server req s).0)
          ∙ ap (λ b. if b then some (calls.now s.host.world) else none) is_ab

      recent :
          ltb (calls.now (read_pod req.volume_id t).1.world - calls.now s.host.world) busy_for
          ≡ true
      recent = lt→ltb _ _ (omega arith)
