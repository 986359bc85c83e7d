-- ===== src/Driver/Node/Tests/Recovery.antt =====
-- Publishing, rebinding, forgetting and measuring the volume of the sample.
use retyc_k8s_csi.Prelude.{
  ℕ, zero, suc, ◌*◌, ◌≤◌, ◌≡◌, refl, ap, true, false, some, List, [], ◌∷◌, ok, lookup, arith, inr,
}
use retyc_k8s_csi.Mountpod.Backoff.{BackoffEntry, fresh_entry, volumes}
use retyc_k8s_csi.Mount.{state_from, mount_state, bind_mount, bind_over, bind_unless}
use retyc_k8s_csi.Driver.Recovery.{MountInfo, layers}
use retyc_k8s_csi.Driver.Node.{NodeState, on_mounts, busy_since}
use retyc_k8s_csi.Driver.Node.Stage.{unpublished}
use retyc_k8s_csi.Driver.Node.Publish.{
  PublishRequest, health_of, healthy, repair_staging, publish, node_publish_volume,
}
use retyc_k8s_csi.Driver.Node.Publish.Sound.{IsUp, node_publish_volume-IsUp}
use retyc_k8s_csi.Driver.Node.Rebind.{unstack}
use retyc_k8s_csi.Driver.Node.Rebind.Bottom.{unstack_keeps_bottom}
use retyc_k8s_csi.Driver.Node.Recover.{kubelet_staged}
use retyc_k8s_csi.Driver.Node.Round.{prune_backoffs}
use retyc_k8s_csi.Driver.Node.Round.Kept.{memory, prune_backoffs-keeps}
use retyc_k8s_csi.Driver.Node.Stats.{Statfs, bytes_of, inodes_of, to_int64}
use retyc_k8s_csi.Driver.Node.Sample.{
  World, staging, table, mounts, calls, server, node_with, mounted, layers_of,
}

abbrev to_publish : PublishRequest
to_publish = record {
  volume_id = "d1";
  staging_target_path = staging;
  target_path = "/k/pods/p1/mount";
  readonly = false;
}

abbrev published : NodeState World
published = (node_publish_volume calls server to_publish mounted).1

publishes : (node_publish_volume calls server to_publish mounted).0 ≡ ok tt
unfolding node_publish_volume repair_staging healthy health_of on_mounts publish unpublished
    mount_state state_from bind_mount bind_over bind_unless
publishes = refl

node_publish_volume-IsUp_example :
    (w : World) × IsUp calls server staging w
    × (bind_mount mounts staging "/k/pods/p1/mount" false w ≡ (ok tt, published.host.world))
node_publish_volume-IsUp_example =
    node_publish_volume-IsUp calls server to_publish mounted published
      (ap (λ r. (r, published)) publishes)

layers-table : (n : ℕ) → layers (table n) staging ≡ n
unfolding layers
layers-table zero = refl
layers-table (suc n) = ground (arith, layers-table n)

counted :
    (w : World) (infos : List MountInfo)
    → calls.mount_info w ≡ some infos
    → layers infos staging ≡ w.0
counted w infos e = ground (arith, layers-table w.0)

unstack_keeps_bottom_example : 1 ≤ (unstack calls server staging (5, true)).1.0
unstack_keeps_bottom_example =
    unstack_keeps_bottom calls server staging (λ w. w.0) layers_of counted (5, true) (omega arith)

-- The volume has a restart state, and kubelet holds it staged.
abbrev staged_entry : BackoffEntry
staged_entry = record (fresh_entry "h") { staging = staging }

abbrev remembering : NodeState World
remembering = node_with (1, true) (("d1", staged_entry) ∷ [])

prune_backoffs-keeps_example :
    memory calls server "d1" (prune_backoffs calls server [] remembering)
    ≡ memory calls server "d1" remembering
unfolding volumes busy_since kubelet_staged lookup
prune_backoffs-keeps_example =
    prune_backoffs-keeps calls server "d1" [] remembering (inr ((λ _ w. refl), tt))

abbrev disk : Statfs
disk = record {
  block_size = 4096;
  blocks = 1000;
  blocks_free = 250;
  blocks_available = 200;
  files = 50;
  files_free = 20;
}

disk_used : (bytes_of disk).used ≡ 750 * 4096
unfolding bytes_of to_int64
disk_used = refl

inodes_used : (inodes_of disk).used ≡ 30
unfolding inodes_of to_int64
inodes_used = refl
