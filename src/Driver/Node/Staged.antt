-- ===== src/Driver/Node/Staged.antt =====
-- What kubelet can rely on when a stage or an unstage answers OK.
use retyc_k8s_csi.Prelude.{
  String, false, not, ◌||◌, Option, none, some, List, Dict, lookup, delete, lookup-delete, ◌==◌,
  if◌then◌else◌, Result, ok, err, Exec, ◌>>◌, bind-ok, ok_injective, passed-ok, refused-ok, ◌≡◌,
  refl, sym, ◌∙◌, ap, arith, eq_iff, ==_refl,
}
use retyc_k8s_csi.Mountpod.Backoff.{forget_all}
use retyc_k8s_csi.Mountpod.Pod.{State}
use retyc_k8s_csi.Mountpod.Manager.{Failed}
use retyc_k8s_csi.Mountpod.Manager.Delete.{delete_mount}
use retyc_k8s_csi.Mount.{MountError, MountState, mount_state, unpublish}
use retyc_k8s_csi.Driver.Status.{Status, status, invalid_argument, internal, aborted}
use retyc_k8s_csi.Driver.Recovery.{MountInfo, mount_source, top_mount}
use retyc_k8s_csi.Driver.Node.{
  Calls, NodeServer, NodeState, manage, on_mounts, mark_busy, clear_busy, while_busy, clear_gave_up,
}
use retyc_k8s_csi.Driver.Node.StageSpec.{StageRequest, stage_spec}
use retyc_k8s_csi.Driver.Node.Ensure.{report, is_terminating, ensure_mounted}
use retyc_k8s_csi.Driver.Node.Stage.{
  is_supported, answers, top_is, staged_in, check_staged, stage, node_stage_volume, unpublished,
  forget_volume, after_pod, stopped, unstage, node_unstage_volume,
}

lookup-deleted : {V : Type 0} (key : String) (m : Dict V) → lookup key (delete key m) ≡ none
lookup-deleted key m =
    lookup-delete key key m ∙ ap (λ b. if b then none else lookup key m) (==_refl key)

module _ {W : Type 0} (calls : Calls W) (server : NodeServer) where
  -- The mount of a volume on its staging path, as the node plugin sees it in a state of the world: the top
  -- layer is the volume's, and a look at it is answered.
  pub record IsStaged (volume_id staging : String) (w : W) : Type 0 where
    pub infos : List MountInfo
    pub top : MountInfo
    pub seen : MountState
    pub reads : calls.mount_info w ≡ some infos
    pub is_top : top_mount infos staging ≡ some top
    pub is_ours : top.source ≡ mount_source volume_id
    pub looks : (mount_state calls.mounts staging w).0 ≡ ok seen
    pub alive : seen.corrupted ≡ false

  abbrev pub after_look : String → W → W
  after_look staging w = (mount_state calls.mounts staging w).1

  answers-alive :
      (r : Result MountError MountState) (s t : NodeState W)
      → answers calls server r s ≡ (ok tt, t)
      → (m : MountState) × (r ≡ ok m) × (m.corrupted ≡ false) × (t ≡ s)
  unfolding answers
  answers-alive (err e) s t h = absurd (ground arith)
  answers-alive (ok m) s t h =
      let (alive, done) = refused-ok m.corrupted (ok tt, s) (status internal) s t tt h in
      (m, refl, alive, sym (ap (λ x. x.1) done))

  check_staged-IsStaged :
      (volume_id staging : String) (s t : NodeState W)
      → check_staged calls server volume_id staging s ≡ (ok tt, t)
      → IsStaged volume_id staging s.host.world × (t.host.world ≡ after_look staging s.host.world)
  unfolding check_staged staged_in top_is on_mounts
  check_staged-IsStaged volume_id staging s t h = from_table (calls.mount_info s.host.world) refl h
    where
      from_top :
          (infos : List MountInfo) (top : Option MountInfo)
          → calls.mount_info s.host.world ≡ some infos
          → top_mount infos staging ≡ top
          → top_is calls server volume_id staging top s ≡ (ok tt, t)
          → IsStaged volume_id staging s.host.world
            × (t.host.world ≡ after_look staging s.host.world)
      from_top infos none e f h = absurd (ground arith)
      from_top infos (some top) e f h =
          let (ours, look) =
            passed-ok (top.source == mount_source volume_id) _ (status internal) s t tt h in
          let (r, looked, g) =
            bind-ok (on_mounts (mount_state calls.mounts staging)) (answers calls server) s t tt
              look in
          let (seen, q, alive, done) = answers-alive r _ t g in
          (
            record {
              infos = infos;
              top = top;
              seen = seen;
              reads = e;
              is_top = f;
              is_ours = (eq_iff top.source (mount_source volume_id)).0 ours;
              looks = ok_injective looked ∙ q;
              alive = alive;
            },
            ap (λ x. x.host.world) done,
          )

      from_table :
          (o : Option (List MountInfo))
          → calls.mount_info s.host.world ≡ o
          → staged_in calls server volume_id staging o s ≡ (ok tt, t)
          → IsStaged volume_id staging s.host.world
            × (t.host.world ≡ after_look staging s.host.world)
      from_table none e h = absurd (ground arith)
      from_table (some infos) e h = from_top infos (top_mount infos staging) e refl h

  -- The body of a call that is marked busy, and what the mark is when it answers OK.
  while_busy-ok :
      {A : Type 0} (volume_id : String) (body : Exec Status (NodeState W) A) (s t : NodeState W)
      (a : A)
      → while_busy calls volume_id body s ≡ (ok a, t)
      → (u : NodeState W) × (body (mark_busy (calls.now s.host.world) volume_id s) ≡ (ok a, u))
        × (t ≡ record u { busy = delete volume_id u.busy })
  unfolding while_busy clear_busy
  while_busy-ok {A} volume_id body s t a h =
      from_answer (body (mark_busy (calls.now s.host.world) volume_id s)) refl h
    where
      from_answer :
          (x : Result Status A × NodeState W)
          → body (mark_busy (calls.now s.host.world) volume_id s) ≡ x
          → ◌≡◌ {A = Result Status A × NodeState W} (x.0, clear_busy volume_id x.0 x.1) (ok a, t)
          → (u : NodeState W) × (body (mark_busy (calls.now s.host.world) volume_id s) ≡ (ok a, u))
            × (t ≡ record u { busy = delete volume_id u.busy })
      from_answer (ok b, u) e h = (u, e ∙ ap (λ r. (r, u)) (ap (λ x. x.0) h), sym (ap (λ x. x.1) h))
      from_answer (err b, u) e h = absurd (ground arith)

  -- A stage that answers OK has looked at the staging path as its last call, and has found the volume's
  -- mount there, the top layer and alive; the volume is then neither busy nor given up.
  pub node_stage_volume-IsStaged :
      (req : StageRequest) (s t : NodeState W)
      → node_stage_volume calls server req s ≡ (ok tt, t)
      → record {
        world : W;
        staged : IsStaged req.volume_id req.staging_target_path world;
        last : t.host.world ≡ after_look req.staging_target_path world;
        not_busy : lookup req.volume_id t.busy ≡ none;
        not_given_up : lookup req.volume_id t.gave_up ≡ none;
      }
  unfolding node_stage_volume stage clear_gave_up
  node_stage_volume-IsStaged req s t h =
      let v = req.volume_id in
      let staging = req.staging_target_path in
      let run = while_busy calls v (stage calls server req) s in
      let bad = status invalid_argument in
      let fails : Result Status (Unit {0}) × NodeState W = (err bad, s) in
      let unsupported = not (is_supported req.capability) in
      let (_, named) =
        refused-ok (v == "" || staging == "") (if unsupported then fails else run) bad s t tt h in
      let (_, ran) = refused-ok unsupported run bad s t tt named in
      let (s1, done, cleared) = while_busy-ok v (stage calls server req) s t tt ran in
      let s0 = mark_busy (calls.now s.host.world) v s in
      let ((spec, claim), _, g1) = bind-ok (stage_spec calls server req) _ s0 s1 tt done in
      let s2 = (stage_spec calls server req s0).1 in
      let mounted = ensure_mounted calls server spec claim in
      let looked = mounted >> check_staged calls server v staging in
      let (_, q2, g2) = bind-ok looked (λ _. clear_gave_up v) s2 s1 tt g1 in
      let (_, _, g3) =
        bind-ok mounted (λ _. check_staged calls server v staging) s2 (looked s2).1 tt
          (ap (λ r. (r, (looked s2).1)) q2) in
      let s3 = (mounted s2).1 in
      let (is_staged, last) = check_staged-IsStaged v staging s3 (looked s2).1 g3 in
      let ended : t ≡ record (looked s2).1 {
        busy = delete v (looked s2).1.busy;
        gave_up = delete v (looked s2).1.gave_up;
      } =
        cleared ∙ ap (λ x. record (x.1) { busy = delete v x.1.busy }) (sym g2) in
      record {
        world = s3.host.world;
        staged = is_staged;
        last = ap (λ x. x.host.world) ended ∙ last;
        not_busy = ap (λ x. lookup v x.busy) ended ∙ lookup-deleted v (looked s2).1.busy;
        not_given_up = ap (λ x. lookup v x.gave_up) ended ∙ lookup-deleted v (looked s2).1.gave_up;
      }

  pub unpublished-ok :
      (r : Result MountError (Unit {0})) (s t : NodeState W)
      → unpublished calls server r s ≡ (ok tt, t)
      → (r ≡ ok tt) × (t ≡ s)
  unfolding unpublished
  unpublished-ok (ok tt) s t h = (refl, sym (ap (λ x. x.1) h))
  unpublished-ok (err e) s t h = absurd (ground arith)

  after_pod-ok :
      (v staging : String) (st : State) (s t : NodeState W)
      → after_pod calls server v staging st s ≡ (ok tt, t)
      → (unpublish calls.mounts staging s.host.world ≡ (ok tt, t.host.world))
        × (lookup v t.gave_up ≡ none)
        × (lookup v t.host.backoffs ≡ none)
  unfolding after_pod clear_gave_up forget_volume forget_all on_mounts report
  after_pod-ok v staging st s t h =
      let (r, q, g) =
        bind-ok (on_mounts (unpublish calls.mounts staging)) (unpublished calls server) _ t tt h in
      let (is_ok, same) = unpublished-ok r _ t g in
      (
        ap (λ x. (x, (unpublish calls.mounts staging s.host.world).1)) (ok_injective q ∙ is_ok)
            ∙ ap (λ x. (ok tt, x.host.world)) (sym same),
        ap (λ x. lookup v x.gave_up) same ∙ lookup-deleted v s.gave_up,
        ap (λ x. lookup v x.host.backoffs) same ∙ lookup-deleted v s.host.backoffs,
      )

  -- An unstage that answers OK has deleted the mount pod, which is no longer terminating, and then has
  -- unpublished the staging path as its last call, with success; the volume is then neither busy nor given
  -- up, and has no restart state.
  pub node_unstage_volume-ok :
      (v staging : String) (s t : NodeState W)
      → node_unstage_volume calls server v staging s ≡ (ok tt, t)
      → let deleted =
          delete_mount calls.kube server.formats server.config server.node_id v s.host in
        record {
          pod : State;
          answered : deleted.0 ≡ ok pod;
          is_gone : is_terminating pod.phase ≡ false;
          unmounted : unpublish calls.mounts staging deleted.1.world ≡ (ok tt, t.host.world);
          not_busy : lookup v t.busy ≡ none;
          not_given_up : lookup v t.gave_up ≡ none;
          no_backoff : lookup v t.host.backoffs ≡ none;
        }
  unfolding node_unstage_volume unstage stopped manage mark_busy
  node_unstage_volume-ok v staging s t h =
      let run = while_busy calls v (unstage calls server v staging) s in
      let (_, ran) = refused-ok (v == "" || staging == "") run (status invalid_argument) s t tt h in
      let (s1, done, cleared) = while_busy-ok v (unstage calls server v staging) s t tt ran in
      let s0 = mark_busy (calls.now s.host.world) v s in
      let delete_pod : Exec Status (NodeState W) (Result Failed State) =
        manage (delete_mount calls.kube server.formats server.config server.node_id v) in
      let (r, q, g1) = bind-ok delete_pod (stopped calls server v staging) s0 s1 tt done in
      let (pod, is_ok, gone, rest) = stopped-ok v staging r (delete_pod s0).1 s1 g1 in
      let (unmounted, not_given_up, no_backoff) =
        after_pod-ok v staging pod (delete_pod s0).1 s1 rest in
      record {
        pod = pod;
        answered = ok_injective q ∙ is_ok;
        is_gone = gone;
        unmounted = unmounted ∙ ap (λ x. (ok tt, x.host.world)) (sym cleared);
        not_busy = ap (λ x. lookup v x.busy) cleared ∙ lookup-deleted v s1.busy;
        not_given_up = ap (λ x. lookup v x.gave_up) cleared ∙ not_given_up;
        no_backoff = ap (λ x. lookup v x.host.backoffs) cleared ∙ no_backoff;
      }
    where
      stopped-ok :
          (v staging : String) (r : Result Failed State) (s t : NodeState W)
          → stopped calls server v staging r s ≡ (ok tt, t)
          → (pod : State) × (r ≡ ok pod)
            × (is_terminating pod.phase ≡ false)
            × (after_pod calls server v staging pod s ≡ (ok tt, t))
      stopped-ok v staging (err e) s t h = absurd (ground arith)
      stopped-ok v staging (ok pod) s t h =
          let (gone, rest) =
            refused-ok (is_terminating pod.phase) (after_pod calls server v staging pod s)
              (status aborted) s t tt h in
          (pod, refl, gone, rest)
