-- ===== src/Driver/Node/Publish/Sound.antt =====
-- What holds when NodePublishVolume answers OK.
use retyc_k8s_csi.Prelude.{
  String, Bool, true, false, not, ◌||◌, Option, none, some, ◌==◌, if◌then◌else◌, Result, ok, err,
  Exec, pure, ◌>>=◌, bind-ok, ok_injective, refused-ok, ◌≡◌, refl, sym, ◌∙◌, ap, arith,
}
use retyc_k8s_csi.Mountpod.Pod.{State}
use retyc_k8s_csi.Mountpod.Manager.{Failed, get}
use retyc_k8s_csi.Mount.{MountError, MountState, mount_state, bind_mount}
use retyc_k8s_csi.Driver.Status.{status, invalid_argument}
use retyc_k8s_csi.Driver.Node.{Calls, NodeServer, NodeState, manage, on_mounts}
use retyc_k8s_csi.Driver.Node.Stage.{unpublished}
use retyc_k8s_csi.Driver.Node.Staged.{unpublished-ok}
use retyc_k8s_csi.Driver.Node.Rebind.{RecoverError}
use retyc_k8s_csi.Driver.Node.Recover.{is_absent, recover_volume}
use retyc_k8s_csi.Driver.Node.Publish.{
  RepairError, no_mount_pod, other_staging_path, PublishRequest, is_healthy, health_of, healthy,
  looked_again, look_again, recovered_then, repair_pod, repair_locked, repair_staging, publish,
  node_publish_volume,
}

module _ {W : Type 0} (calls : Calls W) (server : NodeServer) where
  -- The last thing that was done is a look at the staging path, which found it mounted and alive.
  pub record IsUp (staging : String) (after : W) : Type 0 where
    pub before : W
    pub seen : MountState
    pub looks : mount_state calls.mounts staging before ≡ (ok seen, after)
    pub up : is_healthy seen ≡ true

  healthy-IsUp :
      (staging : String) (s t : NodeState W)
      → healthy calls server staging s ≡ (ok true, t)
      → IsUp staging t.host.world
  unfolding healthy on_mounts health_of
  healthy-IsUp staging s t h = seen (mount_state calls.mounts staging s.host.world) refl h
    where
      seen :
          (x : Result MountError MountState × W)
          → mount_state calls.mounts staging s.host.world ≡ x
          → ◌≡◌ {A = Result RepairError Bool × NodeState W}
              (health_of x.0, record s { host = record s.host { world = x.1 } })
              (ok true, t)
          → IsUp staging t.host.world
      seen (err e, w) q h = absurd (ground arith)
      seen (ok m, w) q h = record {
        before = s.host.world;
        seen = m;
        looks = q ∙ ap (λ x. (ok m, x.1.host.world)) h;
        up = ok_injective (ap (λ x. x.0) h);
      }

  look_again-IsUp :
      (staging : String) (s t : NodeState W)
      → look_again calls server staging s ≡ (ok tt, t)
      → IsUp staging t.host.world
  unfolding look_again looked_again
  look_again-IsUp staging s t h = looked (healthy calls server staging s) refl h
    where
      looked :
          (x : Result RepairError Bool × NodeState W)
          → healthy calls server staging s ≡ x
          → ◌≡◌ {A = Result RepairError (Unit {0}) × NodeState W} (looked_again x.0, x.1) (ok tt, t)
          → IsUp staging t.host.world
      looked (err e, u) q h = absurd (ground arith)
      looked (ok false, u) q h = absurd (ground arith)
      looked (ok true, u) q h = healthy-IsUp staging s t (q ∙ ap (λ x. (ok true, x.1)) h)

  -- A look that ends the call when the path is up, and what it goes on with when it is not.
  unless_up :
      (staging : String) (repair : Exec RepairError (NodeState W) (Unit {0})) (s t : NodeState W)
      → ((u : NodeState W) → repair u ≡ (ok tt, t) → IsUp staging t.host.world)
      → (healthy calls server staging >>= λ up. if up then pure tt else repair) s ≡ (ok tt, t)
      → IsUp staging t.host.world
  unless_up staging repair s t repaired h =
      let (up, q, g) =
        bind-ok (healthy calls server staging) (λ up. if up then pure tt else repair) s t tt h in
      went_on up q g
    where
      after : NodeState W
      after = (healthy calls server staging s).1

      went_on :
          (up : Bool)
          → (healthy calls server staging s).0 ≡ ok up
          → (if up then pure tt else repair) after ≡ (ok tt, t)
          → IsUp staging t.host.world
      went_on true q g =
          healthy-IsUp staging s t (ap (λ r. (r, after)) q ∙ ap (λ x. (ok true, x.1)) g)
      went_on false q g = repaired after g

  repair_pod-IsUp :
      (v staging : String) (r : Result Failed State) (s t : NodeState W)
      → repair_pod calls server v staging r s ≡ (ok tt, t)
      → IsUp staging t.host.world
  unfolding repair_pod recovered_then
  repair_pod-IsUp v staging (err e) s t h = absurd (ground arith)
  repair_pod-IsUp v staging (ok st) s t h =
      let run = recover_volume calls server v true s in
      let repaired = recovered_then calls server staging run.0.failure run.1 in
      let moved = not (st.staging_path == staging) in
      let (_, there) =
        refused-ok (is_absent st.phase) (if moved then (err other_staging_path, s) else repaired)
          no_mount_pod s t tt h in
      let (_, done) = refused-ok moved repaired other_staging_path s t tt there in
      after_recovery run.0.failure run.1 done
    where
      after_recovery :
          (failure : Option RecoverError) (s : NodeState W)
          → recovered_then calls server staging failure s ≡ (ok tt, t)
          → IsUp staging t.host.world
      after_recovery (some e) s h = absurd (ground arith)
      after_recovery none s h = look_again-IsUp staging s t h

  repair_staging-IsUp :
      (v staging : String) (s t : NodeState W)
      → repair_staging calls server v staging s ≡ (ok tt, t)
      → IsUp staging t.host.world
  unfolding repair_staging repair_locked
  repair_staging-IsUp v staging s t =
      let read : Exec RepairError (NodeState W) (Result Failed State) =
        manage (get calls.kube server.formats server.config server.node_id v) in
      unless_up staging (repair_locked calls server v staging) s t λ u.
        unless_up staging (read >>= repair_pod calls server v staging) u t λ x h.
          let (r, _, g) = bind-ok read (repair_pod calls server v staging) x t tt h in
          repair_pod-IsUp v staging r (read x).1 t g

  -- When NodePublishVolume answers OK, its last look at the staging path found it mounted and alive, and
  -- the bind mount of that path on the target, begun right after that look, succeeded.
  pub node_publish_volume-IsUp :
      (req : PublishRequest) (s t : NodeState W)
      → node_publish_volume calls server req s ≡ (ok tt, t)
      → (w : W) × IsUp req.staging_target_path w
        × (bind_mount calls.mounts req.staging_target_path req.target_path req.readonly w
            ≡ (ok tt, t.host.world))
  unfolding node_publish_volume publish on_mounts
  node_publish_volume-IsUp req s t h =
      let staging = req.staging_target_path in
      let run = repair_staging calls server req.volume_id staging s in
      let (_, ran) =
        refused-ok (staging == "" || (req.target_path == "" || req.volume_id == ""))
          (publish calls server req run.0 run.1) (status invalid_argument) s t tt h in
      published run.0 run.1 refl ran
    where
      published :
          (r : Result RepairError (Unit {0})) (u : NodeState W)
          → repair_staging calls server req.volume_id req.staging_target_path s ≡ (r, u)
          → publish calls server req r u ≡ (ok tt, t)
          → (w : W) × IsUp req.staging_target_path w
            × (bind_mount calls.mounts req.staging_target_path req.target_path req.readonly w
                ≡ (ok tt, t.host.world))
      published (err e) u q h = absurd (ground arith)
      published (ok tt) u q h =
          let bind = bind_mount calls.mounts req.staging_target_path req.target_path req.readonly in
          let (r, bound, g) = bind-ok (on_mounts bind) (unpublished calls server) u t tt h in
          let (is_ok, same) = unpublished-ok calls server r _ t g in
          (
            u.host.world,
            repair_staging-IsUp req.volume_id req.staging_target_path s u q,
            ap (λ x. (x, (bind u.host.world).1)) (ok_injective bound ∙ is_ok)
                ∙ ap (λ x. (ok tt, x.host.world)) (sym same),
          )
