-- ===== src/Mount/Layers.antt =====
-- Unmounting a path whose mounts are stacked, against what umount(8), umount2(2) and the mount table
-- promise: each unmount that succeeds, and each detach, takes the layer on top away.
use retyc_k8s_csi.Prelude.{
  ℕ, zero, suc, ◌-◌, ◌≤◌, ◌<◌, String, ◌≡◌, refl, Bool, true, false, ltb, Result, ok, err, arith,
  lt→ltb, ap, inl, inr, ◌⊎◌, ◌∙◌,
}
use retyc_k8s_csi.Mount.{
  UnmountError, says_not_mounted, unmount_refused, Mounts, still_mounted, MountState, state_from,
  mount_state, lazy_unmount, detach_still, after_unmount, unmount_layer, remove_after,
  unmount_turns, unpublish, detach_refused, unmount_or_detach, former_turns, last_look, unmount_all,
}

-- The number of layers on the path, which reads, a refused umount and the removal of the directory
-- leave as it is. Neither a detach nor the removal fails, and the mount table can be read.
pub record Stack {W : Type 0} (mounts : Mounts W) (target : String) (depth : W → ℕ) : Type 0 where
  pub reads : (w : W) → depth (mounts.is_mount_point target w).1 ≡ depth w
  pub readable :
      (w : W)
      → (s : MountState) × (state_from (mounts.is_mount_point target w).0 ≡ ok s)
        × (s.mounted ≡ ltb 0 (depth w))
  pub unmounts :
      (w : W)
      → depth (mounts.unmount target w).1
        ≡ (elim (mounts.unmount target w).0 [ ok _ ↦ depth w - 1 | err _ ↦ depth w ])
  pub detaches : (w : W) → (mounts.detach target w).0 ≡ ok tt
  pub detached : (w : W) → depth (mounts.detach target w).1 ≡ depth w - 1
  pub removes : (w : W) → (mounts.remove target w).0 ≡ ok tt
  pub removed : (w : W) → depth (mounts.remove target w).1 ≡ depth w

zero_or_more : (n : ℕ) → (n ≡ 0) ⊎ (0 < n)
zero_or_more zero = inl refl
zero_or_more (suc n) = inr (omega arith)

module _ {W : Type 0} (mounts : Mounts W) (target : String) (depth : W → ℕ)
    (stack : Stack mounts target depth) where
  lazy_unmount-pops :
      (w : W)
      → ((lazy_unmount mounts target w).0 ≡ ok tt)
        × (depth (lazy_unmount mounts target w).1 ≡ depth w - 1)
  unfolding lazy_unmount
  lazy_unmount-pops w = (rw (stack.detaches w) refl, stack.detached w)

  -- What a look at the path answers, and leaves.
  pub mount_state-reads :
      (w : W)
      → (s : MountState) × ((mount_state mounts target w).0 ≡ ok s)
        × (s.mounted ≡ ltb 0 (depth w))
        × (depth (mount_state mounts target w).1 ≡ depth w)
  unfolding mount_state
  mount_state-reads w = let (s, read, there) = stack.readable w in (s, read, there, stack.reads w)

  detach_still-pops :
      (s : MountState) (w : W)
      → s.mounted ≡ true
      → ((detach_still mounts target (ok s) w).0 ≡ ok tt)
        × (depth (detach_still mounts target (ok s) w).1 ≡ depth w - 1)
  unfolding detach_still
  detach_still-pops s w t = rw t (lazy_unmount-pops w)

  after_unmount-pops :
      (r : Result UnmountError (Unit {0})) (w : W) (d : ℕ)
      → 0 < d
      → depth w ≡ (elim r [ ok _ ↦ d - 1 | err _ ↦ d ])
      → ((after_unmount mounts target r w).0 ≡ ok tt)
        × (depth (after_unmount mounts target r w).1 ≡ d - 1)
  unfolding after_unmount
  after_unmount-pops (ok u) w d h e = (refl, e)
  after_unmount-pops (err says_not_mounted) w d h e =
      let (s, read, there, same) = mount_state-reads w in
      let w' = (mount_state mounts target w).1 in
      let (done, popped) = detach_still-pops s w' (there ∙ lt→ltb 0 (depth w) (omega arith)) in
      (rw read done, rw read (popped ∙ ap (λ n. n - 1) (same ∙ e)))
  after_unmount-pops (err unmount_refused) w d h e =
      let (done, popped) = lazy_unmount-pops w in (done, popped ∙ ap (λ n. n - 1) e)

  unmount_layer-pops :
      (w : W)
      → 0 < depth w
      → ((unmount_layer mounts target w).0 ≡ ok tt)
        × (depth (unmount_layer mounts target w).1 ≡ depth w - 1)
  unfolding unmount_layer
  unmount_layer-pops w h =
      after_unmount-pops (mounts.unmount target w).0 _ (depth w) h (stack.unmounts w)

  remove_after-done :
      (first : Bool) (w : W)
      → ((remove_after mounts first target w).0 ≡ ok tt)
        × (depth (remove_after mounts first target w).1 ≡ depth w)
  unfolding remove_after
  remove_after-done true w = (refl, refl)
  remove_after-done false w = (rw (stack.removes w) refl, stack.removed w)

  -- A turn with nothing mounted, and one with a layer mounted.
  turn-none :
      (turns : ℕ) (first : Bool) (w : W)
      → depth w ≡ 0
      → unmount_turns mounts (suc turns) first target w
        ≡ remove_after mounts first target (mount_state mounts target w).1
  unfolding unmount_turns
  turn-none turns first w h =
      let (s, read, there, same) = mount_state-reads w in rw (read, there ∙ ap (ltb 0) h) refl

  turn-layer :
      (turns : ℕ) (first : Bool) (w : W)
      → 0 < depth w
      → (w' : W) × (depth w' ≡ depth w - 1)
        × (unmount_turns mounts (suc turns) first target w
            ≡ unmount_turns mounts turns false target w')
  unfolding unmount_turns
  turn-layer turns first w h =
      let (s, read, there, same) = mount_state-reads w in
      let w₁ = (mount_state mounts target w).1 in
      let (done, popped) = unmount_layer-pops w₁ (omega arith) in
      (
        (unmount_layer mounts target w₁).1,
        popped ∙ ap (λ n. n - 1) same,
        rw (read, there ∙ lt→ltb 0 (depth w) h, done) refl,
      )

  unmount_turns-done :
      (turns : ℕ) (first : Bool) (w : W)
      → depth w < turns
      → ((unmount_turns mounts turns first target w).0 ≡ ok tt)
        × (depth (unmount_turns mounts turns first target w).1 ≡ 0)
  unmount_turns-done zero first w h = absurd (omega arith)
  unmount_turns-done (suc turns) first w h = elim (zero_or_more (depth w)) [
    | inl none_left ↦
        let w' = (mount_state mounts target w).1 in
        let (done, same) = remove_after-done first w' in
        let (s, read, there, kept) = mount_state-reads w in
        rw (turn-none turns first w none_left) (done, same ∙ kept ∙ none_left)
    | inr more ↦
        let (w', fewer, same) = turn-layer turns first w more in
        rw same (unmount_turns-done turns false w' (omega arith))
  ]

  unmount_turns-exhausted :
      (turns : ℕ) (first : Bool) (w : W)
      → turns ≤ depth w
      → ((unmount_turns mounts turns first target w).0 ≡ err still_mounted)
        × (depth (unmount_turns mounts turns first target w).1 ≡ depth w - turns)
  unfolding unmount_turns
  unmount_turns-exhausted zero first w h = (refl, omega arith)
  unmount_turns-exhausted (suc turns) first w h =
      let (w', fewer, same) = turn-layer turns first w (omega arith) in
      let (failed, left) = unmount_turns-exhausted turns false w' (omega arith) in
      (ap (λ p. p.0) same ∙ failed, ap (λ p. depth p.1) same ∙ left ∙ omega arith)

  -- Unpublish takes every layer of a target path away and succeeds, whether umount refuses a layer or
  -- not, if at most 31 are stacked on it, the mount table can be read and no detach nor the removal of
  -- the directory fails.
  pub unpublish_unmounts :
      (w : W)
      → depth w ≤ 31
      → ((unpublish mounts target w).0 ≡ ok tt) × (depth (unpublish mounts target w).1 ≡ 0)
  unfolding unpublish
  unpublish_unmounts w h = unmount_turns-done 32 true w (omega arith)

  -- From 32 layers on, Unpublish takes 32 away and fails with "still mounted": also with exactly 32,
  -- where nothing is left mounted; the mount table being readable and no detach failing.
  pub unpublish_limit :
      (w : W)
      → 32 ≤ depth w
      → ((unpublish mounts target w).0 ≡ err still_mounted)
        × (depth (unpublish mounts target w).1 ≡ depth w - 32)
  unfolding unpublish
  unpublish_limit w h = unmount_turns-exhausted 32 true w h

  detach_refused-pops :
      (r : Result UnmountError (Unit {0})) (w : W) (d : ℕ)
      → depth w ≡ (elim r [ ok _ ↦ d - 1 | err _ ↦ d ])
      → ((detach_refused mounts target r w).0 ≡ ok tt)
        × (depth (detach_refused mounts target r w).1 ≡ d - 1)
  unfolding detach_refused
  detach_refused-pops (ok u) w d e = (refl, e)
  detach_refused-pops (err x) w d e =
      let (done, popped) = lazy_unmount-pops w in (done, popped ∙ ap (λ n. n - 1) e)

  pub unmount_or_detach-pops :
      (w : W)
      → ((unmount_or_detach mounts target w).0 ≡ ok tt)
        × (depth (unmount_or_detach mounts target w).1 ≡ depth w - 1)
  unfolding unmount_or_detach
  unmount_or_detach-pops w =
      detach_refused-pops (mounts.unmount target w).0 _ (depth w) (stack.unmounts w)

  former_turns-done :
      (turns : ℕ) (w : W)
      → depth w ≤ turns
      → ((former_turns mounts turns target w).0 ≡ ok tt)
        × (depth (former_turns mounts turns target w).1 ≡ 0)
  unfolding former_turns last_look
  former_turns-done zero w h =
      let (s, read, there, same) = mount_state-reads w in
      let empty : depth w ≡ 0 = omega arith in
      (rw (read, there ∙ ap (ltb 0) empty) refl, same ∙ empty)
  former_turns-done (suc turns) w h =
      let (s, read, there, same) = mount_state-reads w in
      let w₁ = (mount_state mounts target w).1 in
      elim (zero_or_more (depth w)) [
        | inl none_left ↦ rw (read, there ∙ ap (ltb 0) none_left) (refl, same ∙ none_left)
        | inr more ↦
            let (done, popped) = unmount_or_detach-pops w₁ in
            rw (read, there ∙ lt→ltb 0 (depth w) more, done)
              (former_turns-done turns _ (omega (arith, popped, same)))
      ]

  -- unmountAll, which readies a staging path, succeeds with nothing left mounted on it if at most 8
  -- layers are stacked on it: as many as it has turns, since it looks once more after the last. The
  -- mount table can be read and no detach fails.
  pub unmount_all_unmounts :
      (w : W)
      → depth w ≤ 8
      → ((unmount_all mounts target w).0 ≡ ok tt) × (depth (unmount_all mounts target w).1 ≡ 0)
  unfolding unmount_all
  unmount_all_unmounts w h = former_turns-done 8 w h
