-- ===== src/Mountpod/Manager/Ensure/Spool.antt =====
-- Ensure and what the Prepare hook clears. Prepare empties the spool of the volume, the files that a
-- mount process has not sent yet.
use retyc_k8s_csi.Prelude.{
  String, ◌≡◌, refl, subst, sym, arith, Bool, true, false, ◌&&◌, Option, none, some, Result, ok,
  err, ltb, Bool-cases, inl, inr,
}
use retyc_k8s_csi.Mountpod.Backoff.{backoff_state}
use retyc_k8s_csi.Mountpod.Pod.{
  Pod, Phase, no_phase, phase_absent, phase_pending, phase_running, phase_terminating, phase_exited,
  State, no_state,
}
use retyc_k8s_csi.Mountpod.Kube.{
  ApiError, not_found, already_exists, api_failed, Kube, Host, attempt,
}
use retyc_k8s_csi.Mountpod.Spec.{Formats, Config, Spec, name_of, is_valid_spec, is_valid_staging}
use retyc_k8s_csi.Mountpod.Spec.Build.{Secret, config_hash}
use retyc_k8s_csi.Mountpod.Manager.Secrets.{delete_secret, delete_secrets, own_secret, release}
use retyc_k8s_csi.Mountpod.Manager.Guarded.{
  Guarded, Keeps, if-keeps, bind-Keeps, call-Keeps, delete_secret-Keeps, delete_secrets-Keeps,
  own_secret-Keeps, release-Keeps,
}
use retyc_k8s_csi.Mountpod.Manager.Ensure.{
  count_exit, settle_backoff, examine, replace, keep_pod, by_phase, ensure_existing, created,
  with_secret, new_secret, prepared, create_after, create, start, unless_kept, ensure_after, ensure,
}

module _ {W : Type 0} (kube : Kube W) (f : Formats) (cfg : Config) (P : W → Type 0)
    (guarded : Guarded kube f P) where
  world-examine :
      (spec : Spec) (hash : String) (pod : Pod) (h : Host W)
      → (examine kube f cfg spec hash pod h).1.world ≡ h.world
  unfolding examine settle_backoff count_exit
  world-examine spec hash pod h = ground arith

  replace-Keeps : (st : State) (pod : Pod) → Keeps P (replace kube f cfg st pod)
  unfolding replace
  replace-Keeps st pod h p =
      let due =
        bind-Keeps P (release kube st pod) _ (release-Keeps kube f P guarded st pod) (λ u h p. p) h
          p in
      if-keeps P st.backoff.gave_up _ _ p (if-keeps P _ _ _ p due)

  keep_pod-Keeps : (st : State) (pod : Pod) → Keeps P (keep_pod kube f cfg st pod)
  unfolding keep_pod
  keep_pod-Keeps st pod =
      bind-Keeps P (own_secret kube st pod) _ (own_secret-Keeps kube f P guarded st pod) λ u h p. p

  by_phase-Keeps :
      (phase : Phase) (b : Bool) (st : State) (pod : Pod)
      → Keeps P (by_phase kube f cfg phase b st pod)
  unfolding by_phase
  by_phase-Keeps phase_terminating false st pod h p = p
  by_phase-Keeps phase_terminating true st pod h p = replace-Keeps st pod h p
  by_phase-Keeps phase_exited b st pod h p = replace-Keeps st pod h p
  by_phase-Keeps no_phase b st pod h p = keep_pod-Keeps st pod h p
  by_phase-Keeps phase_absent b st pod h p = keep_pod-Keeps st pod h p
  by_phase-Keeps phase_pending b st pod h p = keep_pod-Keeps st pod h p
  by_phase-Keeps phase_running b st pod h p = keep_pod-Keeps st pod h p

  ensure_existing-Keeps :
      (spec : Spec) (hash : String) (pod : Pod) → Keeps P (ensure_existing kube f cfg spec hash pod)
  unfolding ensure_existing
  ensure_existing-Keeps spec hash pod h p =
      let (st, h') = examine kube f cfg spec hash pod h in
      by_phase-Keeps st.phase _ st pod h' (subst P (sym (world-examine spec hash pod h)) p)

  created-Keeps :
      (spec : Spec) (hash name : String) (r : Result ApiError Pod)
      → Keeps P (created kube f cfg spec hash name r)
  unfolding created
  created-Keeps spec hash name (ok pod) h p =
      bind-Keeps P (own_secret kube _ pod) _ (own_secret-Keeps kube f P guarded _ pod) (λ u h p. p)
        _ p
  created-Keeps spec hash name (err already_exists) h p =
      bind-Keeps P (delete_secret kube name) _ (delete_secret-Keeps kube f P guarded name)
        (λ u h p. p) h p
  created-Keeps spec hash name (err not_found) h p =
      bind-Keeps P (delete_secret kube name) _ (delete_secret-Keeps kube f P guarded name)
        (λ u h p. p) h p
  created-Keeps spec hash name (err api_failed) h p =
      bind-Keeps P (delete_secret kube name) _ (delete_secret-Keeps kube f P guarded name)
        (λ u h p. p) h p

  with_secret-Keeps :
      (spec : Spec) (hash : String) (r : Result ApiError Secret)
      → Keeps P (with_secret kube f cfg spec hash r)
  unfolding with_secret
  with_secret-Keeps spec hash (err e) h p = p
  with_secret-Keeps spec hash (ok secret) h p =
      call-Keeps P (kube.create_pod _) (created kube f cfg spec hash secret.meta.name)
        (guarded.create_pod _) (created-Keeps spec hash secret.meta.name) h p

  new_secret-Keeps : (spec : Spec) (hash : String) → Keeps P (new_secret kube f cfg spec hash)
  unfolding new_secret
  new_secret-Keeps spec hash h p =
      call-Keeps P (kube.create_secret _) (with_secret kube f cfg spec hash)
        (guarded.create_secret _) (with_secret-Keeps spec hash) h p

  prepared-Keeps :
      (spec : Spec) (hash : String) (r : Result (Unit {0}) (Unit {0}))
      → Keeps P (prepared kube f cfg spec hash r)
  unfolding prepared
  prepared-Keeps spec hash (err e) h p = p
  prepared-Keeps spec hash (ok u) h p =
      bind-Keeps P (delete_secrets kube no_state spec.node_name spec.volume_id true) _
        (delete_secrets-Keeps kube f P guarded no_state spec.node_name spec.volume_id true)
        (λ v. new_secret-Keeps spec hash) h p

  -- After the read `r` of the pod in the world `w`.
  create_after-Keeps :
      (spec : Spec) (hash : String) (w : W) (m : _) (r : Result ApiError Pod)
      → (kube.get_pod (name_of f spec.node_name spec.volume_id) w).0 ≡ r
      → P w
      → let w' = (kube.get_pod (name_of f spec.node_name spec.volume_id) w).1 in
        P (create_after kube f cfg spec hash r (record { backoffs = m; world = w' })).1.world
  unfolding create_after attempt
  create_after-Keeps spec hash w m (ok pod) e p = guarded.get_pod _ w p
  create_after-Keeps spec hash w m (err not_found) e p =
      prepared-Keeps spec hash _ _ (guarded.prepare spec w e p)
  create_after-Keeps spec hash w m (err already_exists) e p = guarded.get_pod _ w p
  create_after-Keeps spec hash w m (err api_failed) e p = guarded.get_pod _ w p

  create-Keeps : (spec : Spec) (hash : String) → Keeps P (create kube f cfg spec hash)
  unfolding create attempt
  create-Keeps spec hash h p = create_after-Keeps spec hash h.world h.backoffs _ refl p

  start-Keeps : (spec : Spec) (hash : String) → Keeps P (start kube f cfg spec hash)
  unfolding start
  start-Keeps spec hash h p =
      let (b, m) = backoff_state spec.volume_id hash h.backoffs in
      let made = create-Keeps spec hash (record { backoffs = m; world = h.world }) p in
      elim (Bool-cases b.gave_up) [
        | inl g ↦ rw g p
        | inr g ↦ elim (Bool-cases (ltb (kube.clock h.world) b.next_restart)) [
          | inl t ↦ rw (g, t) p
          | inr t ↦ rw (g, t) made
        ]
      ]

  unless_kept-Keeps :
      (spec : Spec) (hash : String) (o : Option State)
      → Keeps P (unless_kept kube f cfg spec hash o)
  unfolding unless_kept
  unless_kept-Keeps spec hash none h p = start-Keeps spec hash h p
  unless_kept-Keeps spec hash (some st) h p = p

  ensure_after-Keeps :
      (spec : Spec) (hash : String) (r : Result ApiError Pod)
      → Keeps P (ensure_after kube f cfg spec hash r)
  unfolding ensure_after
  ensure_after-Keeps spec hash (ok pod) h p =
      bind-Keeps P (ensure_existing kube f cfg spec hash pod) (unless_kept kube f cfg spec hash)
        (ensure_existing-Keeps spec hash pod) (unless_kept-Keeps spec hash) h p
  ensure_after-Keeps spec hash (err not_found) h p = start-Keeps spec hash h p
  ensure_after-Keeps spec hash (err already_exists) h p = p
  ensure_after-Keeps spec hash (err api_failed) h p = p

  -- Ensure runs Prepare, which clears the spool of the volume, only right after a read that found no
  -- pod: a property of the world that Prepare keeps there, and that every other call keeps, holds after
  -- Ensure if it held before, on every branch and after any failure.
  pub ensure_guarded : (spec : Spec) (h : Host W) → P h.world → P (ensure kube f cfg spec h).1.world
  unfolding ensure
  ensure_guarded spec h p =
      let hash = config_hash f cfg spec in
      let run =
        call-Keeps P (kube.get_pod (name_of f spec.node_name spec.volume_id))
          (ensure_after kube f cfg spec hash) (guarded.get_pod _) (ensure_after-Keeps spec hash) h
          p in
      elim (Bool-cases (is_valid_spec spec && is_valid_staging f cfg spec.staging_path)) [
        | inl t ↦ rw t run
        | inr t ↦ rw t p
      ]
