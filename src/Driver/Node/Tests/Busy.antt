-- ===== src/Driver/Node/Tests/Busy.antt =====
-- A volume whose mount pod runs and has not mounted it yet: the stage answers Aborted. And one that gave up.
use retyc_k8s_csi.Prelude.{
  ◌≡◌, refl, ap, true, false, none, some, [], ◌∷◌, err, arith, lookup, insert, delete, is_some,
  if◌then◌else◌,
}
use retyc_k8s_csi.Mountpod.Backoff.{
  BackoffEntry, fresh, entry_for, entry, backoff_state, reset_backoff,
}
use retyc_k8s_csi.Mountpod.Pod.{
  termination, terminated, finished, was_ready, started, ready_since, read_status, read_statuses,
  phase_of, state_of, port_named, metrics_port_in, metrics_port,
}
use retyc_k8s_csi.Mountpod.Kube.{attempt, not_found}
use retyc_k8s_csi.Mountpod.Spec.{name_of, has_separator, is_valid_spec, is_valid_staging}
use retyc_k8s_csi.Mountpod.Sample.{spec}
use retyc_k8s_csi.Mount.{state_from, mount_state}
use retyc_k8s_csi.Controller.Requests.{is_mount_mode, is_supported_capability}
use retyc_k8s_csi.Identity.{from_secrets}
use retyc_k8s_csi.Driver.Status.{status, aborted, failed_precondition}
use retyc_k8s_csi.Driver.Claims.{
  digits_value, parse_uint32, parse_id, with_gid, owner_from, claim_owner,
}
use retyc_k8s_csi.Driver.Recovery.{mount_source, last_on, top_mount}
use retyc_k8s_csi.Driver.Node.{
  Claim, Calls, NodeState, manage, on_mounts, mark_busy, clear_busy, while_busy, clear_gave_up,
  gave_up_notice, notify,
}
use retyc_k8s_csi.Driver.Node.StageSpec.{
  claim_namespace, is_namespace_name, is_complete, complete, read_claim, identity_of, stage_spec,
  spec_from,
}
use retyc_k8s_csi.Driver.Node.Stage.{
  node_stage_volume, is_supported, answers, top_is, staged_in, check_staged, stage,
  node_unstage_volume,
}
use retyc_k8s_csi.Driver.Node.Ensure.{
  report, probed_ready, check_ready, starting, by_state, after_ensure, ensure_rounds,
  ensure_mounted,
}
use retyc_k8s_csi.Driver.Settings.{
  read_owner, read_setting, cache_ttl_setting, boolean_setting, local_file_setting,
  quantity_setting, parse_mount_resources, parse_mount_settings,
}
use retyc_k8s_csi.Retyc.Codes.{is_digit, drop_prefix, has_prefix}
use retyc_k8s_csi.Mountpod.Manager.{probed, ready}
use retyc_k8s_csi.Mountpod.Manager.Ensure.{
  settle_backoff, examine, keep_pod, by_phase, ensure_existing, unless_kept, ensure_after, ensure,
}
use retyc_k8s_csi.Mountpod.Manager.Secrets.{own_secret}
use retyc_k8s_csi.Mountpod.Spec.Build.{config_hash}
use retyc_k8s_csi.Mountpod.Spec.Resources.{overlay, lower_all, resources}
use retyc_k8s_csi.Driver.Node.Sample.{World, staging, kube, calls, server, node_with, request}
use retyc_k8s_csi.Driver.Node.Busy.Marks.{left_mark, busy_while_aborted}
use retyc_k8s_csi.Driver.Node.GivenUp.{HasGivenUp, staged_again, given_up_stage}
use retyc_k8s_csi.Driver.Node.Cause.{Cause}
use retyc_k8s_csi.Driver.Node.Final.{ensure_mounted-Cause}
use retyc_k8s_csi.Driver.Node.Recover.{recover_volume}
use retyc_k8s_csi.Driver.Node.Recover.Left.{read_pod, aborted_stage_left}

abbrev mounting : NodeState World
mounting = node_with (0, true) []

supported : is_supported request.capability ≡ true
unfolding is_supported is_supported_capability is_mount_mode
supported = refl

busy_while_aborted_example :
    let staged = node_stage_volume calls server request mounting in
    let unstaged = node_unstage_volume calls server "d1" staging mounting in
    (lookup "d1" staged.1.busy ≡ left_mark 100 staged.0)
    × (lookup "d1" unstaged.1.busy ≡ left_mark 100 unstaged.0)
unfolding is_supported is_supported_capability is_mount_mode
busy_while_aborted_example = busy_while_aborted calls server request mounting

abbrev waiting : NodeState World
waiting = (node_stage_volume calls server request mounting).1

aborts : (node_stage_volume calls server request mounting).0 ≡ err (status aborted)
unfolding manage on_mounts mark_busy clear_busy while_busy clear_gave_up claim_namespace
    is_namespace_name is_complete complete read_claim identity_of stage_spec spec_from report
    probed_ready check_ready starting by_state after_ensure ensure_rounds ensure_mounted
    is_supported answers top_is staged_in check_staged stage node_stage_volume read_owner
    read_setting cache_ttl_setting boolean_setting local_file_setting quantity_setting
    parse_mount_resources parse_mount_settings digits_value parse_uint32 parse_id with_gid
    owner_from claim_owner is_mount_mode is_supported_capability is_digit drop_prefix has_prefix
    from_secrets probed ready settle_backoff examine keep_pod by_phase ensure_existing unless_kept
    ensure_after ensure own_secret termination terminated finished was_ready started ready_since
    read_status read_statuses phase_of state_of port_named metrics_port_in metrics_port
    has_separator is_valid_spec is_valid_staging name_of config_hash overlay lower_all resources
    entry_for entry backoff_state reset_backoff attempt state_from mount_state mount_source last_on
    top_mount lookup insert delete
aborts = refl

aborted_stage_left_example :
    (recover_volume calls server "d1" false waiting).1
    ≡ record waiting { host = (read_pod calls server "d1" waiting).1 }
aborted_stage_left_example =
    aborted_stage_left calls server request (status aborted) mounting waiting refl supported
      (ap (λ r. (r, waiting)) aborts) refl (omega arith)

-- Three exits with unusable credentials.
abbrev refused : BackoffEntry
refused = record {
  backoff = record fresh { gave_up = true };
  hash = "retyc-cli:1";
  last_pod = "u1";
  staging = staging;
}

abbrev given_up : NodeState World
given_up = node_with (0, false) (("d1", refused) ∷ [])

-- A cluster without pods.
abbrev empty_calls : Calls World
empty_calls = record calls { kube = record kube { get_pod = λ n w. (err not_found, w) } }

abbrev stayed : World → World
stayed w = w

gave_up_there : HasGivenUp empty_calls server spec refused stayed given_up
unfolding is_valid_spec is_valid_staging has_separator has_prefix drop_prefix name_of config_hash
    resources overlay lower_all lookup
gave_up_there = record {
  valid = refl;
  no_pod = λ w. refl;
  known = refl;
  same_config = refl;
  gave_up = refl;
}

abbrev volume_claim : Claim
volume_claim = record { annotations = []; volume_name = "pv-1" }

-- The third stage in a row.
given_up_stage_example :
    let before =
      staged_again empty_calls server spec refused stayed (some volume_claim) 2 given_up in
    let (answer, t) = ensure_mounted empty_calls server spec (some volume_claim) before in
    (answer ≡ err (status failed_precondition))
    × (t.host.world ≡ before.host.world)
    × (lookup "d1" t.host.backoffs ≡ some refused)
    × (t.notices ≡ (
        if is_some (lookup "d1" given_up.gave_up)
        then []
        else (notify (some volume_claim) (gave_up_notice "d1") given_up).notices))
given_up_stage_example =
    given_up_stage empty_calls server spec refused stayed (some volume_claim) 2 given_up
      gave_up_there

abbrev refusing : NodeState World
refusing = (ensure_mounted empty_calls server spec none given_up).1

refuses :
    (ensure_mounted empty_calls server spec none given_up).0 ≡ err (status failed_precondition)
unfolding staged_again
refuses = (given_up_stage empty_calls server spec refused stayed none 0 given_up gave_up_there).0

ensure_mounted-Cause_example :
    Cause empty_calls server spec given_up.host failed_precondition refusing
ensure_mounted-Cause_example =
    ensure_mounted-Cause empty_calls server spec none given_up refusing (status failed_precondition)
      (ap (λ r. (r, refusing)) refuses)
