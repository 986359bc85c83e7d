-- ===== src/Driver/Node/Rebind/Bottom.antt =====
-- recovery.go: unstack takes dead layers away and leaves the bottom one, which containers hold a copy of.
use retyc_k8s_csi.Prelude.{
  ℕ, zero, suc, ◌≤◌, String, Bool, true, false, Option, none, some, List, if◌then◌else◌, Exec, pure,
  Result, ok, err, continue, ◌>>◌, ◌≡◌, refl, arith,
}
use retyc_k8s_csi.Mount.{mount_state, unmount_or_detach}
use retyc_k8s_csi.Mount.Failing.{Tracks, mount_state-depth, unmount_or_detach-depth}
use retyc_k8s_csi.Driver.Recovery.{MountInfo, layers}
use retyc_k8s_csi.Driver.Node.{Calls, NodeServer}
use retyc_k8s_csi.Driver.Node.Rebind.{
  RecoverError, mounting, is_unstacked, unstack_turn, unstack_turns, unstack,
}

-- A property of the state that an action starts in, if what follows keeps it from there.
continue-at :
    {E S A B : Type 0} (P : S → Type 0) (r : Result E A) (f : A → Exec E S B) (u : S)
    → P u
    → ((a : A) → P (f a u).1)
    → P (continue r f u).1
continue-at P (ok a) f u p k = k a
continue-at P (err e) f u p k = p

module _ {W : Type 0} (calls : Calls W) (server : NodeServer) (mnt : String) (depth : W → ℕ)
    (tracks : Tracks calls.mounts mnt depth)
    (counts : (w : W) (infos : List MountInfo)
      → calls.mount_info w ≡ some infos
      → layers infos mnt ≡ depth w) where
  -- The path still has a layer.
  abbrev Holds : W → Type 0
  Holds w = 1 ≤ depth w

  unstack_turn-keeps :
      (next : Exec RecoverError W (Unit {0})) (w : W)
      → ((u : W) → Holds u → Holds (next u).1)
      → Holds w
      → Holds (unstack_turn calls server next mnt (calls.mount_info w) w).1
  unfolding unstack_turn mounting is_unstacked
  unstack_turn-keeps next w keeps h = of_table (calls.mount_info w) refl
    where
      looked : W
      looked = (mount_state calls.mounts mnt w).1

      same : depth looked ≡ depth w
      same = mount_state-depth calls.mounts mnt depth tracks w

      detached : 2 ≤ depth w → Holds (unmount_or_detach calls.mounts mnt looked).1
      detached more =
          omega (arith, same, unmount_or_detach-depth calls.mounts mnt depth tracks looked)

      of_layer :
          (unstacks : Bool)
          → (unstacks ≡ true → 2 ≤ depth w)
          → Holds
              ((if unstacks
                  then mounting (unmount_or_detach calls.mounts mnt) >> next
                  else pure {E = RecoverError} tt)
                looked).1
      of_layer false more = omega (arith, same)
      of_layer true more =
          continue-at Holds (mounting (unmount_or_detach calls.mounts mnt) looked).0 (λ _. next) _
            (detached (more refl)) (λ _. keeps _ (detached (more refl)))

      of_table :
          (o : Option (List MountInfo))
          → calls.mount_info w ≡ o
          → Holds (unstack_turn calls server next mnt o w).1
      of_table none e = h
      of_table (some infos) e =
          continue-at Holds (mounting (mount_state calls.mounts mnt) w).0
            (λ m.
              if is_unstacked m (layers infos mnt)
              then mounting (unmount_or_detach calls.mounts mnt) >> next
              else pure tt)
            looked (omega (arith, same))
            (λ m.
              of_layer (is_unstacked m (layers infos mnt)) (λ u. ground (arith, counts w infos e)))

  unstack_turns-keep :
      (turns : ℕ) (w : W) → Holds w → Holds (unstack_turns calls server turns mnt w).1
  unfolding unstack_turns
  unstack_turns-keep zero w h = h
  unstack_turns-keep (suc turns) w h =
      unstack_turn-keeps (unstack_turns calls server turns mnt) w (unstack_turns-keep turns) h

  -- unstack leaves at least one layer on a target path that has one, however it ends and whichever of its
  -- calls fail: a mount table that is read lists the layers of the path, an unmount and a detach that
  -- succeed take the top one away, and failed ones and looks none.
  pub unstack_keeps_bottom : (w : W) → 1 ≤ depth w → 1 ≤ depth (unstack calls server mnt w).1
  unfolding unstack
  unstack_keeps_bottom = unstack_turns-keep 8
