-- ===== src/Mount/Failing.antt =====
-- Unmounting a path whose mounts are stacked where any call may fail: what the calls that succeed do, and
-- that the others change nothing.
use retyc_k8s_csi.Prelude.{
  ℕ, zero, suc, ◌-◌, ◌≤◌, String, ◌≡◌, refl, Bool, true, false, ltb, Bool, ok_injective, sym, ◌∙◌,
  Result, ok, err, arith, ap, ◌>>◌, if◌then◌else◌, bind-ok,
}
use retyc_k8s_csi.Mount.{
  UnmountError, StatError, no_such_path, corrupted_mount, stat_failed, Mounts, MountState,
  state_from, mount_state, unmount_layer, remove_after, unmount_turns, unpublish, lazy_unmount,
  detach_refused, unmount_or_detach,
}

-- What an answer of IsMountPoint tells of the layers on the path, nothing if the look fails.
abbrev pub Tells : Result StatError Bool → ℕ → Type 0
Tells (ok mounted) layers = mounted ≡ ltb 0 layers
Tells (err no_such_path) layers = layers ≡ 0
Tells (err corrupted_mount) layers = 1 ≤ layers
Tells (err stat_failed) layers = Unit

-- The number of layers on the path: a look that answers says whether there is one, an unmount and a detach
-- that succeed take the top one away, and failed calls, looks and the removal leave them all.
pub record Tracks {W : Type 0} (mounts : Mounts W) (target : String) (depth : W → ℕ) : Type 0 where
  pub reads : (w : W) → depth (mounts.is_mount_point target w).1 ≡ depth w
  pub tells : (w : W) → Tells (mounts.is_mount_point target w).0 (depth w)
  pub unmounts :
      (w : W)
      → depth (mounts.unmount target w).1
        ≡ (elim (mounts.unmount target w).0 [ ok _ ↦ depth w - 1 | err _ ↦ depth w ])
  pub detaches :
      (w : W)
      → depth (mounts.detach target w).1
        ≡ (elim (mounts.detach target w).0 [ ok _ ↦ depth w - 1 | err _ ↦ depth w ])
  pub removed : (w : W) → depth (mounts.remove target w).1 ≡ depth w

state_from-mounted :
    (r : Result StatError Bool) (layers : ℕ) (s : MountState)
    → Tells r layers
    → state_from r ≡ ok s
    → s.mounted ≡ ltb 0 layers
unfolding state_from
state_from-mounted (ok mounted) layers s told e =
    sym (ap (λ (m : MountState). m.mounted) (ok_injective e)) ∙ told
state_from-mounted (err no_such_path) layers s told e =
    sym (ap (λ (m : MountState). m.mounted) (ok_injective e)) ∙ ground arith
state_from-mounted (err corrupted_mount) layers s told e =
    sym (ap (λ (m : MountState). m.mounted) (ok_injective e)) ∙ ground arith
state_from-mounted (err stat_failed) layers s told e = absurd (ground arith)

module _ {W : Type 0} (mounts : Mounts W) (target : String) (depth : W → ℕ)
    (tracks : Tracks mounts target depth) where
  remove_after-depth :
      (first : Bool) (w : W) → depth (remove_after mounts first target w).1 ≡ depth w
  unfolding remove_after
  remove_after-depth true w = refl
  remove_after-depth false w = tracks.removed w

  unmount_turns-empties :
      (turns : ℕ) (first : Bool) (w w' : W)
      → unmount_turns mounts turns first target w ≡ (ok tt, w')
      → depth w' ≡ 0
  unfolding unmount_turns mount_state
  unmount_turns-empties zero first w w' h = absurd (ground arith)
  unmount_turns-empties (suc turns) first w w' h =
      let next = unmount_layer mounts target >> unmount_turns mounts turns false target in
      let (s, answered, rest) =
        bind-ok (mount_state mounts target)
          (λ s. if s.mounted then next else remove_after mounts first target) w w' tt h in
      ends (λ u. unmount_turns-empties turns false u w') s answered s.mounted refl rest
    where
      looked : W
      looked = (mounts.is_mount_point target w).1

      ends :
          ((u : W) → unmount_turns mounts turns false target u ≡ (ok tt, w') → depth w' ≡ 0)
          → (s : MountState) → state_from (mounts.is_mount_point target w).0 ≡ ok s
          → (there : Bool) → s.mounted ≡ there
          → (if there
                then unmount_layer mounts target >> unmount_turns mounts turns false target
                else remove_after mounts first target)
              looked
            ≡ (ok tt, w')
          → depth w' ≡ 0
      ends again s answered true e g =
          let (_, _, rest) =
            bind-ok (unmount_layer mounts target) (λ _. unmount_turns mounts turns false target)
              looked w' tt g in
          again _ rest
      ends again s answered false e g =
          let kept = remove_after-depth first looked in
          let there = state_from-mounted _ (depth w) s (tracks.tells w) answered in
          let same = tracks.reads w in let last = ap (λ x. depth x.1) g in ground arith

  -- An Unpublish that succeeds leaves nothing mounted.
  pub unpublish-empties : (w w' : W) → unpublish mounts target w ≡ (ok tt, w') → depth w' ≡ 0
  unfolding unpublish
  unpublish-empties w w' h = unmount_turns-empties 32 true w w' h

  -- A look, and an unmount that is tried both ways, whatever they answer.
  pub mount_state-depth : (w : W) → depth (mount_state mounts target w).1 ≡ depth w
  unfolding mount_state
  mount_state-depth = tracks.reads

  lazy_unmount-depth : (w : W) → depth w - 1 ≤ depth (lazy_unmount mounts target w).1
  unfolding lazy_unmount
  lazy_unmount-depth w = popped (mounts.detach target w).0 (tracks.detaches w)
    where
      popped :
          {E : Type 0} (r : Result E (Unit {0}))
          → depth (mounts.detach target w).1 ≡ (elim r [ ok _ ↦ depth w - 1 | err _ ↦ depth w ])
          → depth w - 1 ≤ depth (mounts.detach target w).1
      popped (ok u) e = omega arith
      popped (err x) e = omega arith

  detach_refused-depth :
      (r : Result UnmountError (Unit {0})) (w : W) (d : ℕ)
      → depth w ≡ (elim r [ ok _ ↦ d - 1 | err _ ↦ d ])
      → d - 1 ≤ depth (detach_refused mounts target r w).1
  unfolding detach_refused
  detach_refused-depth (ok u) w d e = omega arith
  detach_refused-depth (err x) w d e = omega (arith, lazy_unmount-depth w)

  pub unmount_or_detach-depth : (w : W) → depth w - 1 ≤ depth (unmount_or_detach mounts target w).1
  unfolding unmount_or_detach
  unmount_or_detach-depth w =
      detach_refused-depth (mounts.unmount target w).0 _ (depth w) (tracks.unmounts w)
