-- ===== src/Driver/Node/Tests/Unstage.antt =====
-- An unstage of the volume of the sample, its pod gone.
use retyc_k8s_csi.Prelude.{◌≡◌, refl, ap, false, [], ok, lookup, delete}
use retyc_k8s_csi.Mountpod.Backoff.{forget, forget_all}
use retyc_k8s_csi.Mountpod.Kube.{attempt}
use retyc_k8s_csi.Mountpod.Spec.{name_of}
use retyc_k8s_csi.Mountpod.Manager.{get, read_pod}
use retyc_k8s_csi.Mountpod.Manager.Secrets.{delete_listed, listed, delete_secrets}
use retyc_k8s_csi.Mountpod.Manager.Delete.{delete_absent, delete_with, delete_found, delete_mount}
use retyc_k8s_csi.Mount.{
  state_from, mount_state, after_unmount, unmount_layer, remove_after, unmount_turns, unpublish,
}
use retyc_k8s_csi.Driver.Exits.{report_exit}
use retyc_k8s_csi.Driver.Node.{
  NodeState, manage, on_mounts, mark_busy, clear_busy, while_busy, clear_gave_up,
}
use retyc_k8s_csi.Driver.Node.Ensure.{report}
use retyc_k8s_csi.Driver.Node.Stage.{
  unpublished, forget_volume, after_pod, stopped, unstage, node_unstage_volume,
}
use retyc_k8s_csi.Driver.Node.Unmounted.{unstage_unmounts}
use retyc_k8s_csi.Driver.Node.Sample.{World, staging, calls, server, node_with, layers_of}

-- A mount is left on the path.
abbrev left : NodeState World
left = node_with (1, false) []

abbrev unstaged : NodeState World
unstaged = (node_unstage_volume calls server "d1" staging left).1

unstages : (node_unstage_volume calls server "d1" staging left).0 ≡ ok tt
unfolding node_unstage_volume while_busy mark_busy clear_busy unstage manage stopped after_pod
    clear_gave_up forget_volume forget_all on_mounts unpublished report report_exit delete_mount get
    attempt read_pod delete_found delete_with delete_absent forget delete_secrets listed
    delete_listed name_of unpublish unmount_turns mount_state state_from unmount_layer after_unmount
    remove_after lookup delete
unstages = refl

unstage_unmounts_example : unstaged.host.world.0 ≡ 0
unstage_unmounts_example =
    unstage_unmounts calls server staging (λ w. w.0) layers_of "d1" left unstaged
      (ap (λ r. (r, unstaged)) unstages)
