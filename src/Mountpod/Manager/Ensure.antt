-- ===== src/Mountpod/Manager/Ensure.antt =====
-- manager.go: Ensure. The State and the error of a failed call are raised together.
pub mod Spool
use retyc_k8s_csi.Prelude.{
  ℕ, ◌-◌, String, Bool, true, false, not, ◌&&◌, Option, none, some, Dict, ◌==◌, if◌then◌else◌,
  Result, ok, err, Exec, pure, raise, ◌>>=◌, ◌>>◌, ltb, pos, negsuc, ℤ, is_some, text_at,
}
use retyc_k8s_csi.Mountpod.Backoff.{
  Backoff, BackoffEntry, PodExit, record_exit, backoff_state, start_over,
}
use retyc_k8s_csi.Mountpod.Pod.{
  Pod, Phase, no_phase, phase_absent, phase_pending, phase_running, phase_terminating, phase_exited,
  Termination, State, no_state, state_of, terminated, finished,
}
use retyc_k8s_csi.Mountpod.Kube.{
  ApiError, not_found, already_exists, api_failed, Kube, Host, attempt,
}
use retyc_k8s_csi.Mountpod.Spec.{Formats, Config, Spec, name_of, is_valid_spec, is_valid_staging}
use retyc_k8s_csi.Mountpod.Spec.Build.{Secret, config_hash, build_secret, build_pod}
use retyc_k8s_csi.Mountpod.Manager.{
  ManagerError, gave_up_error, invalid_spec, prepare_failed, api_error, Failed,
}
use retyc_k8s_csi.Mountpod.Manager.Secrets.{delete_secret, delete_secrets, own_secret, release}

-- How long the container of a termination ran: 0 if it says not when it started, or a later start
-- than its end, where Go has a negative duration; both are below StableAfter.
unfoldable pub ran : Option Termination → ℕ
ran none = 0
ran (some t) = if ltb 0 t.started_at then t.finished_at - t.started_at else 0

abbrev code_of : Option ℤ → ℤ
code_of none = negsuc 0
code_of (some code) = code

unfoldable pub exit_of : Pod → State → PodExit
exit_of pod st = record {
  uid = pod.uid;
  staging = st.staging_path;
  code = code_of st.exit_code;
  message = st.exit_message;
  ran = ran (terminated (some pod));
}

module _ (f : Formats) where
  unfoldable pub absent : Spec → Backoff → State
  absent spec b = record no_state {
    name = name_of f spec.node_name spec.volume_id;
    phase = phase_absent;
    volume_id = spec.volume_id;
    node_name = spec.node_name;
    pvc_name = spec.pvc_name;
    pvc_namespace = spec.pvc_namespace;
    staging_path = spec.staging_path;
    backoff = b;
  }

module _ {W : Type 0} (kube : Kube W) (f : Formats) (cfg : Config) where
  -- countExit
  unfoldable pub count_exit : Spec → String → Pod → State → Host W → Host W
  count_exit spec hash pod st h =
      if st.config_hash == hash
      then record h {
        backoffs =
            record_exit cfg.policy (kube.clock h.world) (kube.draw h.world) spec.volume_id hash
              (exit_of pod st) h.backoffs;
      }
      else h

  -- backoffState, kept in the state of the node.
  abbrev pub fetch_backoff : String → String → Host W → Backoff × Host W
  fetch_backoff volume_id hash h =
      let (b, m) = backoff_state volume_id hash h.backoffs in (b, record h { backoffs = m })

  -- A give-up whose exited pod was deleted by hand starts over.
  unfoldable pub settle_backoff : Spec → String → Pod → Host W → Backoff × Host W
  settle_backoff spec hash pod h =
      let (b, h') = fetch_backoff spec.volume_id hash h in
      if b.gave_up && (is_some pod.deletion_timestamp && finished (kube.clock h.world) pod)
      then fetch_backoff spec.volume_id hash
          (record h' { backoffs = start_over spec.volume_id hash h'.backoffs })
      else (b, h')

  -- The State of a pod that exists, its exit counted.
  unfoldable pub examine : Spec → String → Pod → Host W → State × Host W
  examine spec hash pod h =
      let now = kube.clock h.world in
      let read = state_of now pod in
      let st = record read { config_changed = not (read.config_hash == hash) } in
      let (b, h') =
        settle_backoff spec hash pod
          (if finished now pod then count_exit spec hash pod st h else h) in
      (record st { backoff = b }, h')

  -- A pod whose mount process is gone: `none` once it is released.
  unfoldable pub replace : State → Pod → Exec Failed (Host W) (Option State)
  replace st pod h =
      let due : Exec Failed (Host W) (Option State) = release kube st pod >> pure none in
      if st.backoff.gave_up
      then (err (st, gave_up_error st.backoff), h)
      else if ltb (kube.clock h.world) st.backoff.next_restart
      then (ok (some st), h)
      else due h

  unfoldable pub keep_pod : State → Pod → Exec Failed (Host W) (Option State)
  keep_pod st pod = own_secret kube st pod >> pure (some st)

  unfoldable pub by_phase : Phase → Bool → State → Pod → Exec Failed (Host W) (Option State)
  by_phase phase_terminating false st pod = pure (some st)
  by_phase phase_terminating true st pod = replace st pod
  by_phase phase_exited is_finished st pod = replace st pod
  by_phase no_phase is_finished st pod = keep_pod st pod
  by_phase phase_absent is_finished st pod = keep_pod st pod
  by_phase phase_pending is_finished st pod = keep_pod st pod
  by_phase phase_running is_finished st pod = keep_pod st pod

  -- ensureExisting
  unfoldable pub ensure_existing : Spec → String → Pod → Exec Failed (Host W) (Option State)
  ensure_existing spec hash pod h =
      let (st, h') = examine spec hash pod h in
      by_phase st.phase (finished (kube.clock h.world) pod) st pod h'

  unfoldable pub created : Spec → String → String → Result ApiError Pod → Exec Failed (Host W) State
  created spec hash secret_name (ok pod) h =
      let (b, h') = fetch_backoff spec.volume_id hash h in
      let st = record (state_of (kube.clock h.world) pod) { backoff = b } in
      (own_secret kube st pod >> pure st) h'
  created spec hash secret_name (err already_exists) h =
      (delete_secret kube secret_name
          >> pure (record no_state {
            name = name_of f spec.node_name spec.volume_id;
            phase = phase_terminating;
            volume_id = spec.volume_id;
            node_name = spec.node_name;
          }))
        h
  created spec hash secret_name (err not_found) h =
      (delete_secret kube secret_name >> raise (no_state, api_error not_found)) h
  created spec hash secret_name (err api_failed) h =
      (delete_secret kube secret_name >> raise (no_state, api_error api_failed)) h

  unfoldable pub with_secret : Spec → String → Result ApiError Secret → Exec Failed (Host W) State
  with_secret spec hash (err e) = raise (no_state, api_error e)
  with_secret spec hash (ok secret) =
      attempt (kube.create_pod (build_pod f cfg spec hash secret.meta.name))
      >>= created spec hash secret.meta.name

  unfoldable pub new_secret : Spec → String → Exec Failed (Host W) State
  new_secret spec hash h =
      (attempt (kube.create_secret (build_secret f cfg spec hash (kube.suffix h.world)))
          >>= with_secret spec hash)
        h

  unfoldable pub prepared :
      Spec → String → Result (Unit {0}) (Unit {0}) → Exec Failed (Host W) State
  prepared spec hash (err e) = raise (no_state, prepare_failed)
  prepared spec hash (ok u) =
      delete_secrets kube no_state spec.node_name spec.volume_id true >> new_secret spec hash

  -- What create does after its read of the pod.
  unfoldable pub create_after : Spec → String → Result ApiError Pod → Exec Failed (Host W) State
  create_after spec hash (ok pod) h =
      let st = state_of (kube.clock h.world) pod in
      (ok (record st { config_changed = not (st.config_hash == hash) }), h)
  create_after spec hash (err not_found) h = (attempt (kube.prepare spec) >>= prepared spec hash) h
  create_after spec hash (err already_exists) h = (err (no_state, api_error already_exists), h)
  create_after spec hash (err api_failed) h = (err (no_state, api_error api_failed), h)

  unfoldable pub create : Spec → String → Exec Failed (Host W) State
  create spec hash =
      attempt (kube.get_pod (name_of f spec.node_name spec.volume_id)) >>= create_after spec hash

  -- No pod, or a released one.
  unfoldable pub start : Spec → String → Exec Failed (Host W) State
  start spec hash h =
      let (b, h') = fetch_backoff spec.volume_id hash h in
      let made : Result Failed State × Host W = create spec hash h' in
      if b.gave_up
      then (err (absent f spec b, gave_up_error b), h')
      else if ltb (kube.clock h'.world) b.next_restart
      then (ok (absent f spec b), h')
      else made

  unfoldable pub unless_kept : Spec → String → Option State → Exec Failed (Host W) State
  unless_kept spec hash none = start spec hash
  unless_kept spec hash (some st) = pure st

  unfoldable pub ensure_after : Spec → String → Result ApiError Pod → Exec Failed (Host W) State
  ensure_after spec hash (ok pod) = ensure_existing spec hash pod >>= unless_kept spec hash
  ensure_after spec hash (err not_found) = start spec hash
  ensure_after spec hash (err already_exists) = raise (no_state, api_error already_exists)
  ensure_after spec hash (err api_failed) = raise (no_state, api_error api_failed)

  -- Ensure
  unfoldable pub ensure : Spec → Exec Failed (Host W) State
  ensure spec =
      let hash = config_hash f cfg spec in
      let run : Exec Failed (Host W) State =
        attempt (kube.get_pod (name_of f spec.node_name spec.volume_id))
        >>= ensure_after spec hash in
      if is_valid_spec spec && is_valid_staging f cfg spec.staging_path
      then run
      else raise (no_state, invalid_spec)
