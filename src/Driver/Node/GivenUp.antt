-- ===== src/Driver/Node/GivenUp.antt =====
-- node.go: kubelet's retries of a stage whose volume gave up.
use retyc_k8s_csi.Prelude.{
  ℕ, zero, suc, String, true, ◌&&◌, Option, none, some, lookup, insert, lookup-insert_self, is_some,
  ◌==◌, if◌then◌else◌, err, ◌≡◌, refl, ◌∙◌, ap, Bool-cases, inl, inr, ==_refl,
}
use retyc_k8s_csi.Mountpod.Backoff.{
  BackoffEntry, fresh_entry, entry_for, entry as entry_of, backoff_state,
}
use retyc_k8s_csi.Mountpod.Kube.{not_found, Host, attempt}
use retyc_k8s_csi.Mountpod.Spec.{Spec, name_of, is_valid_spec, is_valid_staging}
use retyc_k8s_csi.Mountpod.Spec.Build.{config_hash}
use retyc_k8s_csi.Mountpod.Manager.{gave_up_error}
use retyc_k8s_csi.Mountpod.Manager.Ensure.{ensure, ensure_after, start, absent}
use retyc_k8s_csi.Driver.Status.{status, failed_precondition}
use retyc_k8s_csi.Driver.Node.{Claim, Calls, NodeServer, gave_up_notice, NodeState, manage, notify}
use retyc_k8s_csi.Driver.Node.Ensure.{stage_gave_up, after_ensure, ensure_rounds, ensure_mounted}

module _ {W : Type 0} (calls : Calls W) (server : NodeServer) (spec : Spec) (entry : BackoffEntry)
    (next : W → W) where
  abbrev hash : String
  hash = config_hash server.formats server.config spec

  -- The pods of the volume gave up with the credentials and settings of the spec, and as long as nobody
  -- starts one there is no pod: a read of it finds none, and only the world moves on.
  pub record HasGivenUp (s : NodeState W) : Type 0 where
    pub valid :
        (is_valid_spec spec && is_valid_staging server.formats server.config spec.staging_path)
        ≡ true
    pub no_pod :
        (w : W)
        → calls.kube.get_pod (name_of server.formats spec.node_name spec.volume_id) w
          ≡ (err not_found, next w)
    pub known : lookup spec.volume_id s.host.backoffs ≡ some entry
    pub same_config : entry.hash ≡ hash
    pub gave_up : entry.backoff.gave_up ≡ true

  -- The restart states and the world that Ensure leaves.
  abbrev kept : NodeState W → Host W
  kept s = record {
    backoffs = insert spec.volume_id entry s.host.backoffs;
    world = next s.host.world;
  }

  known-entry :
      (s : NodeState W) → HasGivenUp s → entry_of s.host.backoffs spec.volume_id hash ≡ entry
  unfolding entry_of entry_for
  known-entry s g =
      ap (λ o. entry_for o hash) g.known
      ∙ ap (λ b. if b then entry else fresh_entry hash)
          (ap (λ h. h == hash) g.same_config ∙ ==_refl hash)

  ensure-gave_up :
      (s : NodeState W) (g : HasGivenUp s)
      → ensure calls.kube server.formats server.config spec s.host
        ≡ (err (absent server.formats spec entry.backoff, gave_up_error entry.backoff), kept s)
  unfolding ensure ensure_after start attempt backoff_state
  ensure-gave_up s g = rw (g.valid, g.no_pod s.host.world, known-entry s g, g.gave_up) refl

  stage_gave_up-told :
      (claim : Option Claim) (u : NodeState W)
      → let t = stage_gave_up calls server claim spec u in
        (t.host ≡ u.host)
        × (lookup spec.volume_id t.gave_up ≡ some (calls.kube.clock u.host.world))
        × (t.notices ≡ (
            if is_some (lookup spec.volume_id u.gave_up)
            then u.notices
            else (notify claim (gave_up_notice spec.volume_id) u).notices))
  unfolding stage_gave_up notify
  stage_gave_up-told claim u = elim (Bool-cases (is_some (lookup spec.volume_id u.gave_up))) [
    | inl seen ↦ rw seen (refl, lookup-insert_self _ _ u.gave_up, refl)
    | inr first ↦ rw first (told claim)
  ]
    where
      seen_now : NodeState W
      seen_now = record u {
        gave_up = insert spec.volume_id (calls.kube.clock u.host.world) u.gave_up;
      }

      told :
          (claim : Option Claim)
          → let t = notify claim (gave_up_notice spec.volume_id) seen_now in
            (t.host ≡ u.host)
            × (lookup spec.volume_id t.gave_up ≡ some (calls.kube.clock u.host.world))
            × (t.notices ≡ (notify claim (gave_up_notice spec.volume_id) u).notices)
      told none = (refl, lookup-insert_self _ _ u.gave_up, refl)
      told (some claim) = (refl, lookup-insert_self _ _ u.gave_up, refl)

  notify-host :
      (claim : Option Claim) (s : NodeState W) (h : Host W)
      → (if is_some (lookup spec.volume_id s.gave_up)
          then s.notices
          else (notify claim (gave_up_notice spec.volume_id) (record s { host = h })).notices)
        ≡ (if is_some (lookup spec.volume_id s.gave_up)
            then s.notices
            else (notify claim (gave_up_notice spec.volume_id) s).notices)
  unfolding notify
  notify-host none s h = refl
  notify-host (some claim) s h = refl

  given_up_once :
      (claim : Option Claim) (s : NodeState W) (g : HasGivenUp s)
      → let (answer, t) = ensure_mounted calls server spec claim s in
        (answer ≡ err (status failed_precondition))
        × (t.host.world ≡ next s.host.world)
        × (lookup spec.volume_id t.host.backoffs ≡ some entry)
        × (lookup spec.volume_id t.gave_up ≡ some (calls.kube.clock (next s.host.world)))
        × (t.notices ≡ (
            if is_some (lookup spec.volume_id s.gave_up)
            then s.notices
            else (notify claim (gave_up_notice spec.volume_id) s).notices))
  unfolding ensure_mounted ensure_rounds manage after_ensure
  given_up_once claim s g =
      let (same, seen, told) = stage_gave_up-told claim (record s { host = kept s }) in
      rw (ensure-gave_up s g) (
        refl,
        ap (λ h. h.world) same,
        ap (λ h. lookup spec.volume_id h.backoffs) same
            ∙ lookup-insert_self spec.volume_id entry s.host.backoffs,
        seen,
        told ∙ notify-host claim s (kept s),
      )

  -- The state after a number of stages.
  unfoldable pub staged_again : Option Claim → ℕ → NodeState W → NodeState W
  staged_again claim zero s = s
  staged_again claim (suc n) s = staged_again claim n (ensure_mounted calls server spec claim s).1

  given_up-HasGivenUp :
      (claim : Option Claim) (s : NodeState W)
      → HasGivenUp s
      → HasGivenUp (ensure_mounted calls server spec claim s).1
  given_up-HasGivenUp claim s g = record {
    valid = g.valid;
    no_pod = g.no_pod;
    known = (given_up_once claim s g).2;
    same_config = g.same_config;
    gave_up = g.gave_up;
  }

  -- Kubelet's retries of the stage of a volume that gave up, however many came before: ensureMounted fails
  -- with FailedPrecondition, asks the cluster only for the pod and starts none, and keeps the give-up, as
  -- long as no pod is there; and MountGaveUp has been sent to the claim once in all, at the first of them,
  -- or not at all if the give-up had been seen before.
  pub given_up_stage :
      (claim : Option Claim) (n : ℕ) (s : NodeState W)
      → HasGivenUp s
      → let before = staged_again claim n s in
        let (answer, t) = ensure_mounted calls server spec claim before in
        (answer ≡ err (status failed_precondition))
        × (t.host.world ≡ next before.host.world)
        × (lookup spec.volume_id t.host.backoffs ≡ some entry)
        × (t.notices ≡ (
            if is_some (lookup spec.volume_id s.gave_up)
            then s.notices
            else (notify claim (gave_up_notice spec.volume_id) s).notices))
  unfolding staged_again
  given_up_stage claim zero s g =
      let (answer, world, known, seen, told) = given_up_once claim s g in
      (answer, world, known, told)
  given_up_stage claim (suc n) s g =
      let (_, _, _, seen, told) = given_up_once claim s g in
      let (answer, world, known, same) =
        given_up_stage claim n (ensure_mounted calls server spec claim s).1
          (given_up-HasGivenUp claim s g) in
      (
        answer,
        world,
        known,
        same
            ∙ ap
                (λ o.
                  if is_some o
                  then (ensure_mounted calls server spec claim s).1.notices
                  else (notify claim (gave_up_notice spec.volume_id)
                      (ensure_mounted calls server spec claim s).1).notices)
                seen
            ∙ told,
      )
