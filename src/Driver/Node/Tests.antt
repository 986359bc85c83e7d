-- ===== src/Driver/Node/Tests.antt =====
-- A stage and an unstage of the volume of the sample.
mod Unstage
mod Busy
mod Recovery
use retyc_k8s_csi.Prelude.{
  ℕ, zero, suc, ◌+◌, ◌-◌, ◌*◌, ◌^◌, ◌≤◌, ◌<◌, ◌≡◌, refl, ap, Bool, true, false, Option, none, some,
  List, [], ◌∷◌, String, Dict, pos, Result, ok, err, Exec, arith, lookup, insert, delete, ltb,
}
use retyc_k8s_csi.Mountpod.Backoff.{
  Backoff, BackoffEntry, fresh, entry_for, entry, backoff_state, reset_backoff,
}
use retyc_k8s_csi.Mountpod.Pod.{
  Pod, State, container_name, metrics_port_name, label_volume, label_node, annotation_config_hash,
  annotation_staging_path, termination, terminated, finished, was_ready, started, ready_since,
  read_status, read_statuses, phase_of, state_of, port_named, metrics_port_in, metrics_port,
}
use retyc_k8s_csi.Mountpod.Kube.{ApiError, not_found, Kube, Host, attempt}
use retyc_k8s_csi.Mountpod.Spec.{Spec, name_of, has_separator, is_valid_spec, is_valid_staging}
use retyc_k8s_csi.Mountpod.Sample.{spec, config, formats}
use retyc_k8s_csi.Mount.{
  StatError, no_such_path, UnmountError, says_not_mounted, Mounts, MountState, state_from,
  mount_state,
}
use retyc_k8s_csi.Mount.Layers.{Stack}
use retyc_k8s_csi.Controller.Requests.{
  multi_node_multi_writer, is_mount_mode, is_supported_capability,
}
use retyc_k8s_csi.Identity.{token_key, passphrase_key, from_secrets}
use retyc_k8s_csi.Driver.Status.{missing}
use retyc_k8s_csi.Driver.Claims.{
  annotation_uid, digits_value, parse_uint32, parse_id, with_gid, owner_from, claim_owner,
}
use retyc_k8s_csi.Driver.Recovery.{MountInfo, mount_source, last_on, top_mount}
use retyc_k8s_csi.Driver.Node.{
  Calls, NodeServer, NodeState, manage, on_mounts, mark_busy, clear_busy, while_busy, clear_gave_up,
}
use retyc_k8s_csi.Driver.Node.StageSpec.{
  StageRequest, claim_namespace, is_namespace_name, is_complete, complete, read_claim, identity_of,
  stage_spec, spec_from,
}
use retyc_k8s_csi.Driver.Node.Stage.{
  node_stage_volume, is_supported, answers, top_is, staged_in, check_staged, stage,
}
use retyc_k8s_csi.Driver.Node.Staged.{IsStaged, after_look, node_stage_volume-IsStaged}
use retyc_k8s_csi.Driver.Node.Ensure.{
  report, probed_ready, check_ready, starting, by_state, after_ensure, ensure_rounds,
  ensure_mounted,
}
use retyc_k8s_csi.Driver.Settings.{
  read_owner, read_setting, cache_ttl_setting, boolean_setting, local_file_setting,
  quantity_setting, parse_mount_resources, parse_mount_settings,
}
use retyc_k8s_csi.Retyc.Codes.{is_digit, drop_prefix, has_prefix}
use retyc_k8s_csi.Mountpod.Manager.{probed, ready}
use retyc_k8s_csi.Mountpod.Manager.Ensure.{
  settle_backoff, examine, keep_pod, by_phase, ensure_existing, unless_kept, ensure_after, ensure,
}
use retyc_k8s_csi.Mountpod.Manager.Secrets.{own_secret}
use retyc_k8s_csi.Mountpod.Spec.Build.{config_hash}
use retyc_k8s_csi.Mountpod.Spec.Resources.{overlay, lower_all, resources}
use retyc_k8s_csi.Driver.Node.Sample.{
  World, staging, pod, find, served, kube, look, umount, mounts, fuse, table, calls, server,
  node_with, request, mounted,
}

stages : (node_stage_volume calls server request mounted).0 ≡ ok tt
unfolding manage on_mounts mark_busy clear_busy while_busy clear_gave_up claim_namespace
    is_namespace_name is_complete complete read_claim identity_of stage_spec spec_from report
    probed_ready check_ready starting by_state after_ensure ensure_rounds ensure_mounted
    is_supported answers top_is staged_in check_staged stage node_stage_volume read_owner
    read_setting cache_ttl_setting boolean_setting local_file_setting quantity_setting
    parse_mount_resources parse_mount_settings digits_value parse_uint32 parse_id with_gid
    owner_from claim_owner is_mount_mode is_supported_capability is_digit drop_prefix has_prefix
    from_secrets probed ready settle_backoff examine keep_pod by_phase ensure_existing unless_kept
    ensure_after ensure own_secret termination terminated finished was_ready started ready_since
    read_status read_statuses phase_of state_of port_named metrics_port_in metrics_port
    has_separator is_valid_spec is_valid_staging name_of config_hash overlay lower_all resources
    entry_for entry backoff_state reset_backoff attempt state_from mount_state mount_source last_on
    top_mount lookup insert delete
stages = refl

abbrev staged_node : NodeState World
staged_node = (node_stage_volume calls server request mounted).1

node_stage_volume-IsStaged_example : record {
  world : World;
  staged : IsStaged calls server "d1" staging world;
  last : staged_node.host.world ≡ after_look calls server staging world;
  not_busy : lookup "d1" staged_node.busy ≡ none;
  not_given_up : lookup "d1" staged_node.gave_up ≡ none;
}
node_stage_volume-IsStaged_example =
    node_stage_volume-IsStaged calls server request mounted staged_node
      (ap (λ r. (r, staged_node)) stages)
