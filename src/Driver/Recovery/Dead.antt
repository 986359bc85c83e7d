-- ===== src/Driver/Recovery/Dead.antt =====
-- The targets that rebind works on.
use retyc_k8s_csi.Prelude.{
  ℕ, String, ◌≡◌, refl, sym, ap, ◌∙◌, subst, ◌⊎◌, inl, inr, Bool, true, false, Option, none, some,
  List, [], ◌∷◌, Dict, lookup, lookup-insert, is_some, ◌==◌, eq_iff, if◌then◌else◌, arith,
  Bool-cases,
}
use retyc_k8s_csi.Driver.Recovery.{
  MountInfo, last_on, top_mount, is_dead, append, note, collect_one, collect, keep_dead, dead_among,
  dead_targets,
}

-- What is promised of a target to bind anew.
pub record IsDeadTarget (is_target : String → Bool) (infos : List MountInfo) (volume_id : String)
    (alive : ℕ × ℕ) (info : MountInfo) : Type 0 where
  pub target : is_target info.mount_point ≡ true
  pub on_top : top_mount infos info.mount_point ≡ some info
  pub dead : is_dead volume_id alive info ≡ true

last_on-place :
    (path : String) (infos : List MountInfo) (top : Option MountInfo) (info : MountInfo)
    → last_on path infos top ≡ some info
    → (top ≡ some info) ⊎ (info.mount_point ≡ path)
unfolding last_on
last_on-place path [] top info h = inl h
last_on-place path (i ∷ infos) top info h = elim (Bool-cases (i.mount_point == path)) [
  | inl t ↦ elim (last_on-place path infos (some i) info (rw t at h)) [
    | inl e ↦ inr (
        subst (λ o. (elim o [ none ↦ path | some x ↦ x.mount_point ]) ≡ path) e
          ((eq_iff i.mount_point path).0 t))
    | inr e ↦ inr e
  ]
  | inr f ↦ last_on-place path infos top info (rw f at h)
]

module _ (is_target : String → Bool) where
  abbrev AllTargets : List String → Type 0
  AllTargets [] = Unit {0}
  AllTargets (path ∷ paths) = (is_target path ≡ true) × AllTargets paths

  AllTargets-append :
      (paths : List String) (path : String)
      → AllTargets paths
      → is_target path ≡ true
      → AllTargets (append paths path)
  AllTargets-append [] path h p = (p, tt)
  AllTargets-append (q ∷ paths) path (h, hs) p = (h, AllTargets-append paths path hs p)

  elsewhere :
      (other path : String)
      → is_target path ≡ true
      → is_target other ≡ false
      → (other == path) ≡ false
  elsewhere other path t f = elim (Bool-cases (other == path)) [
    | inr g ↦ g
    | inl e ↦ absurd (ground (arith, ap is_target ((eq_iff other path).0 e)))
  ]

  top-note :
      (b seen : Bool) (path : String) (i : MountInfo) (order : List String) (top : Dict MountInfo)
      → is_target path ≡ true
      → is_target i.mount_point ≡ b
      → lookup path (note b seen i order top).1
        ≡ (if i.mount_point == path then some i else lookup path top)
  unfolding note
  top-note false seen path i order top t f = rw (elsewhere i.mount_point path t f) refl
  top-note true false path i order top t s = lookup-insert i.mount_point path i top
  top-note true true path i order top t s = lookup-insert i.mount_point path i top

  top-collect :
      (path : String) (infos : List MountInfo) (order : List String) (top : Dict MountInfo)
      → is_target path ≡ true
      → lookup path (collect is_target infos (order, top)).1 ≡ last_on path infos (lookup path top)
  unfolding collect collect_one last_on
  top-collect path [] order top t = refl
  top-collect path (i ∷ infos) order top t =
      let (order', top') = collect_one is_target i (order, top) in
      top-collect path infos order' top' t
      ∙ ap (last_on path infos)
          (top-note _ (is_some (lookup i.mount_point top)) path i order top t refl)

  AllTargets-note :
      (b seen : Bool) (i : MountInfo) (order : List String) (top : Dict MountInfo)
      → is_target i.mount_point ≡ b
      → AllTargets order
      → AllTargets (note b seen i order top).0
  unfolding note
  AllTargets-note false seen i order top f h = h
  AllTargets-note true false i order top t h = AllTargets-append order i.mount_point h t
  AllTargets-note true true i order top t h = h

  AllTargets-collect :
      (infos : List MountInfo) (order : List String) (top : Dict MountInfo)
      → AllTargets order
      → AllTargets (collect is_target infos (order, top)).0
  unfolding collect collect_one
  AllTargets-collect [] order top h = h
  AllTargets-collect (i ∷ infos) order top h =
      let (order', top') = collect_one is_target i (order, top) in
      AllTargets-collect infos order' top'
        (AllTargets-note _ (is_some (lookup i.mount_point top)) i order top refl h)

  module _ (infos : List MountInfo) (v : String) (alive : ℕ × ℕ)
      (somewhere : is_target "" ≡ false) where
    abbrev pub AllDead : List MountInfo → Type 0
    AllDead [] = Unit {0}
    AllDead (info ∷ rest) = IsDeadTarget is_target infos v alive info × AllDead rest

    empty_elsewhere : (path : String) → is_target path ≡ true → (path == "") ≡ false
    empty_elsewhere path t = elim (Bool-cases (path == "")) [
      | inr g ↦ g
      | inl e ↦ absurd (ground (arith, ap is_target ((eq_iff path "").0 e)))
    ]

    -- The top layer of a target, found dead.
    found-top :
        (path : String) (info : MountInfo)
        → is_target path ≡ true
        → last_on path infos none ≡ some info
        → (is_target info.mount_point ≡ true) × (top_mount infos info.mount_point ≡ some info)
    unfolding top_mount
    found-top path info t e = elim (last_on-place path infos none info e) [
      | inl absent ↦ absurd (ground arith)
      | inr place ↦
          subst (λ q. (is_target q ≡ true) × (top_mount infos q ≡ some info)) (sym place)
            (t, rw (empty_elsewhere path t) e)
    ]

    keep_dead-AllDead :
        (path : String) (o : Option MountInfo) (rest : List MountInfo)
        → is_target path ≡ true
        → last_on path infos none ≡ o
        → AllDead rest
        → AllDead (keep_dead v alive o rest)
    unfolding keep_dead
    keep_dead-AllDead path none rest t e h = h
    keep_dead-AllDead path (some info) rest t e h = elim (Bool-cases (is_dead v alive info)) [
      | inr f ↦ rw f h
      | inl d ↦
          let (target, top) = found-top path info t e in
          rw d (record { target = target; on_top = top; dead = d }, h)
    ]

    dead_among-AllDead :
        (top : Dict MountInfo) (order : List String)
        → AllTargets order
        → ((path : String) → is_target path ≡ true → lookup path top ≡ last_on path infos none)
        → AllDead (dead_among is_target v alive top order)
    unfolding dead_among
    dead_among-AllDead top [] h same = tt
    dead_among-AllDead top (path ∷ order) (t, h) same =
        keep_dead-AllDead path (lookup path top) _ t (sym (same path t))
          (dead_among-AllDead top order h same)

    -- Every mount that rebind works on is the top layer of its mount point, which is a pod target path,
    -- and is a mount of the root of the volume from another device than the live one: no live mount, no
    -- path of another volume and none outside the pod target paths is bound anew. The empty path is no
    -- target.
    pub dead_targets-IsDeadTarget : AllDead (dead_targets is_target infos v alive)
    unfolding dead_targets lookup
    dead_targets-IsDeadTarget =
        dead_among-AllDead (collect is_target infos ([], [])).1 (collect is_target infos ([], [])).0
          (AllTargets-collect infos [] [] tt) λ path t. top-collect path infos [] [] t
