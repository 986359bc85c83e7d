-- ===== src/Mount/Tests.antt =====
-- A path with stacked mounts, of which umount refuses each second one.
use retyc_k8s_csi.Prelude.{
  ℕ, zero, suc, ◌+◌, ◌-◌, ◌≤◌, String, ◌≡◌, refl, Bool, true, false, ltb, ok, err, Exec, arith,
}
use retyc_k8s_csi.Mount.{
  StatError, no_such_path, corrupted_mount, UnmountError, unmount_refused, says_not_mounted, Mounts,
  still_mounted, MountState, state_from, unpublish, unmount_all,
}
use retyc_k8s_csi.Mount.Layers.{Stack, unpublish_unmounts, unpublish_limit, unmount_all_unmounts}

-- The world: the number of layers; the layer at the bottom is alive, the others are dead. umount
-- refuses every layer but the one at the bottom.
abbrev look : String → Exec StatError ℕ Bool
look target zero = (err no_such_path, zero)
look target (suc zero) = (ok true, suc zero)
look target (suc (suc n)) = (err corrupted_mount, suc (suc n))

abbrev umount : String → Exec UnmountError ℕ (Unit {0})
umount target zero = (err says_not_mounted, zero)
umount target (suc zero) = (ok tt, zero)
umount target (suc (suc n)) = (err unmount_refused, suc (suc n))

abbrev node : Mounts ℕ
node = record {
  is_mount_point = look;
  unmount = umount;
  detach = λ target n. (ok tt, n - 1);
  remove = λ target n. (ok tt, n);
  mkdir_all = λ target n. (ok tt, n);
  mount = λ source target options n. (ok tt, n + 1);
}

look-reads : (n : ℕ) → (look "/t" n).1 ≡ n
look-reads zero = refl
look-reads (suc zero) = refl
look-reads (suc (suc n)) = refl

look-readable :
    (n : ℕ) → (s : MountState) × (state_from (look "/t" n).0 ≡ ok s) × (s.mounted ≡ ltb 0 n)
unfolding state_from
look-readable zero = (record { mounted = false; corrupted = false }, refl, refl)
look-readable (suc zero) = (record { mounted = true; corrupted = false }, refl, refl)
look-readable (suc (suc n)) = (record { mounted = true; corrupted = true }, refl, ground arith)

umount-pops : (n : ℕ) → (umount "/t" n).1 ≡ (elim (umount "/t" n).0 [ ok _ ↦ n - 1 | err _ ↦ n ])
umount-pops zero = refl
umount-pops (suc zero) = refl
umount-pops (suc (suc n)) = refl

abbrev layers : Stack node "/t" (λ n. n)
layers = record {
  reads = look-reads;
  readable = look-readable;
  unmounts = umount-pops;
  detaches = λ n. refl;
  detached = λ n. refl;
  removes = λ n. refl;
  removed = λ n. refl;
}

five : 5 ≤ 31
five = omega arith

limit : 32 ≤ 32
limit = omega arith

eight : 8 ≤ 8
eight = omega arith

unpublish_unmounts_example : ((unpublish node "/t" 5).0 ≡ ok tt) × ((unpublish node "/t" 5).1 ≡ 0)
unpublish_unmounts_example = unpublish_unmounts node "/t" (λ n. n) layers 5 five

unpublish_limit_example :
    ((unpublish node "/t" 32).0 ≡ err still_mounted) × ((unpublish node "/t" 32).1 ≡ 32 - 32)
unpublish_limit_example = unpublish_limit node "/t" (λ n. n) layers 32 limit

unmount_all_unmounts_example :
    ((unmount_all node "/t" 8).0 ≡ ok tt) × ((unmount_all node "/t" 8).1 ≡ 0)
unmount_all_unmounts_example = unmount_all_unmounts node "/t" (λ n. n) layers 8 eight
