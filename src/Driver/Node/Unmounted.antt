-- ===== src/Driver/Node/Unmounted.antt =====
-- node.go with internal/mount/bind.go: an unstage that answers OK leaves nothing mounted.
use retyc_k8s_csi.Prelude.{ℕ, String, ok, ◌≡◌}
use retyc_k8s_csi.Mount.Failing.{Tracks, unpublish-empties}
use retyc_k8s_csi.Driver.Node.{Calls, NodeServer, NodeState}
use retyc_k8s_csi.Driver.Node.Stage.{node_unstage_volume}
use retyc_k8s_csi.Driver.Node.Staged.{node_unstage_volume-ok}

module _ {W : Type 0} (calls : Calls W) (server : NodeServer) (staging : String) (depth : W → ℕ)
    (tracks : Tracks calls.mounts staging depth) where
  -- An unstage that answers OK leaves nothing mounted on the staging path, however many layers were on it
  -- and whichever calls failed: a look that answers says whether a layer is there, and a look and the
  -- removal of the directory change no layer.
  pub unstage_unmounts :
      (v : String) (s t : NodeState W)
      → node_unstage_volume calls server v staging s ≡ (ok tt, t)
      → depth t.host.world ≡ 0
  unstage_unmounts v s t h =
      unpublish-empties calls.mounts staging depth tracks _ t.host.world
        (node_unstage_volume-ok calls server v staging s t h).unmounted
