-- ===== src/Driver/Node/Round/Kept.antt =====
-- recovery.go: which volumes pruneBackoffs leaves their restart state and their give-up.
use retyc_k8s_csi.Prelude.{
  ℕ, String, Bool, true, false, ◌||◌, Option, none, List, [], ◌∷◌, map, All, Dict, lookup,
  lookup-delete, contains, ◌==◌, if◌then◌else◌, Result, ok, err, ◌≡◌, ◌⊎◌, subst, refl, sym, ◌∙◌,
  ap, arith, eq_iff, Bool-cases, inl, inr,
}
use mathlib.Core.Path.{ap₂}
use retyc_k8s_csi.Mountpod.Backoff.{BackoffEntry, volumes, forget_all}
use retyc_k8s_csi.Mountpod.Kube.{ApiError, not_found, already_exists, api_failed, attempt}
use retyc_k8s_csi.Mountpod.Pod.{Pod, State}
use retyc_k8s_csi.Mountpod.Manager.{Failed, get, read_pod}
use retyc_k8s_csi.Mountpod.Spec.{name_of}
use retyc_k8s_csi.Driver.Node.{Calls, NodeServer, NodeState, busy_since, is_busy, clear_gave_up}
use retyc_k8s_csi.Driver.Node.Stage.{forget_volume}
use retyc_k8s_csi.Driver.Node.Recover.{is_absent, kubelet_staged}
use retyc_k8s_csi.Driver.Node.Round.{
  is_kept, forget_gone, prune_found, prune_one, prune_all, prune_backoffs,
}

abbrev pub Memory : Type 0
Memory = Option BackoffEntry × Option ℕ × Option ℕ

module _ {W : Type 0} (calls : Calls W) (server : NodeServer) (v : String) where
  -- What the service remembers of a volume.
  abbrev pub memory : NodeState W → Memory
  memory s = (lookup v s.host.backoffs, lookup v s.gave_up, lookup v s.busy)

  -- A volume that is busy, that kubelet holds staged, or whose give-up was seen less than half an hour ago,
  -- whenever the clocks are read and kubelet's files are looked at.
  abbrev pub IsHeld : String → Option ℕ → Option ℕ → Type 0
  IsHeld staging gave_up busy =
      (w : W)
      → (busy_since (calls.now w) busy
          || (kubelet_staged calls server staging w || is_kept (calls.kube.clock w) gave_up))
        ≡ true

  abbrev Remembers : Memory → NodeState W → Type 0
  Remembers m s = memory s ≡ m

  if-Remembers :
      (m : Memory) (b : Bool) (x y : NodeState W)
      → Remembers m x
      → Remembers m y
      → Remembers m (if b then x else y)
  if-Remembers m true x y p q = p
  if-Remembers m false x y p q = q

  -- Get reads.
  get-Remembers :
      (m : Memory) (u : String) (s : NodeState W)
      → Remembers m s
      → Remembers m (record s {
        host = (get calls.kube server.formats server.config server.node_id u s.host).1;
      })
  unfolding get attempt read_pod
  get-Remembers m u s p =
      answered (calls.kube.get_pod (name_of server.formats server.node_id u) s.host.world).0 _
    where
      answered :
          (r : Result ApiError Pod) (w : W)
          → Remembers m (record s {
            host =
                (read_pod calls.kube server.formats server.config server.node_id u r
                  (record s.host { world = w })).1;
          })
      answered (ok pod) w = p
      answered (err not_found) w = p
      answered (err already_exists) w = p
      answered (err api_failed) w = p

  -- Another volume is forgotten.
  forget_gone-other :
      (m : Memory) (u : String) (s : NodeState W)
      → (u == v) ≡ false
      → Remembers m s
      → Remembers m (forget_gone calls server u s)
  unfolding forget_gone forget_volume clear_gave_up forget_all
  forget_gone-other m u s other p =
      ap₂ (λ x y. (x, y, lookup v s.busy))
        (lookup-delete u v s.host.backoffs
          ∙ ap (λ b. if b then none else lookup v s.host.backoffs) other)
        (lookup-delete u v s.gave_up ∙ ap (λ b. if b then none else lookup v s.gave_up) other)
      ∙ p

  -- The two tests of prune_one before it looks for a pod.
  tested-Remembers :
      (m : Memory) (held kept : Bool) (s x : NodeState W)
      → Remembers m s
      → (held ≡ false → kept ≡ false → Remembers m x)
      → Remembers m (if held then s else if kept then s else x)
  tested-Remembers m true kept s x p q = p
  tested-Remembers m false true s x p q = p
  tested-Remembers m false false s x p q = q refl refl

  abbrev looked_for : String → NodeState W → NodeState W
  looked_for u s =
      let (r, h) = get calls.kube server.formats server.config server.node_id u s.host in
      prune_found calls server u r (record s { host = h })

  prune_one-Remembers :
      (m : Memory) (u staging : String) (s : NodeState W)
      → Remembers m s
      → (is_busy (calls.now s.host.world) u s || kubelet_staged calls server staging s.host.world
            ≡ false
          → is_kept (calls.kube.clock s.host.world) (lookup u s.gave_up) ≡ false
          → Remembers m (looked_for u s))
      → Remembers m (prune_one calls server u staging s)
  unfolding prune_one
  prune_one-Remembers m u staging s p q =
      tested-Remembers m
        (is_busy (calls.now s.host.world) u s || kubelet_staged calls server staging s.host.world)
        (is_kept (calls.kube.clock s.host.world) (lookup u s.gave_up)) s (looked_for u s) p q

  looked_for-other :
      (m : Memory) (u : String) (s : NodeState W)
      → (u == v) ≡ false
      → Remembers m s
      → Remembers m (looked_for u s)
  unfolding prune_found
  looked_for-other m u s other p =
      found (get calls.kube server.formats server.config server.node_id u s.host).0 _
        (get-Remembers m u s p)
    where
      found :
          (r : Result Failed State) (s : NodeState W)
          → Remembers m s
          → Remembers m (prune_found calls server u r s)
      found (err e) s p = p
      found (ok st) s p =
          if-Remembers m (is_absent st.phase) (forget_gone calls server u s) s
            (forget_gone-other m u s other p) p

  prune_one-held :
      (m : Memory) (staging : String) (s : NodeState W)
      → IsHeld staging m.1 m.2
      → Remembers m s
      → Remembers m (prune_one calls server v staging s)
  unfolding is_busy
  prune_one-held m staging s held p =
      prune_one-Remembers m v staging s p
        λ free old. absurd (ground (arith, held s.host.world, ap (λ x. x.1) p, ap (λ x. x.2) p))

  -- Whether the volume has a pod, or is held at each of the staging paths that it is listed with.
  abbrev pub IsSafe : Memory → List String → Dict String → Type 0
  IsSafe m known rest =
      (contains known v ≡ true) ⊎ All (λ p. (p.0 == v) ≡ true → IsHeld p.1 m.1 m.2) rest

  prune_step-Remembers :
      (m : Memory) (known : List String) (u staging : String) (rest : Dict String) (s : NodeState W)
      → IsSafe m known ((u, staging) ∷ rest)
      → Remembers m s
      → Remembers m (if contains known u then s else prune_one calls server u staging s)
  prune_step-Remembers m known u staging rest s safe p = elim (Bool-cases (u == v)) [
    | inr other ↦
        if-Remembers m (contains known u) s (prune_one calls server u staging s) p
          (prune_one-Remembers m u staging s p (λ _ _. looked_for-other m u s other p))
    | inl same ↦
        subst
          (λ x. Remembers m (if contains known x then s else prune_one calls server x staging s))
          (sym ((eq_iff u v).0 same)) (held_or_known safe same)
  ]
    where
      held_or_known :
          IsSafe m known ((u, staging) ∷ rest)
          → (u == v) ≡ true
          → Remembers m (if contains known v then s else prune_one calls server v staging s)
      held_or_known (inl has_pod) same = rw has_pod p
      held_or_known (inr (held, later)) same =
          if-Remembers m (contains known v) s (prune_one calls server v staging s) p
            (prune_one-held m staging s (held same) p)

  prune_all-Remembers :
      (m : Memory) (known : List String) (rest : Dict String) (s : NodeState W)
      → IsSafe m known rest
      → Remembers m s
      → Remembers m (prune_all calls server known rest s)
  unfolding prune_all
  prune_all-Remembers m known [] s safe p = p
  prune_all-Remembers m known ((u, staging) ∷ rest) s (inl has_pod) p =
      prune_all-Remembers m known rest _ (inl has_pod)
        (prune_step-Remembers m known u staging rest s (inl has_pod) p)
  prune_all-Remembers m known ((u, staging) ∷ rest) s (inr (held, later)) p =
      prune_all-Remembers m known rest _ (inr later)
        (prune_step-Remembers m known u staging rest s (inr (held, later)) p)

  -- pruneBackoffs leaves a volume its restart state, a give-up included, its time of the give-up and its
  -- busy mark, if it has a mount pod in the list, or if all along it is busy, kubelet holds the staging path
  -- of its last pod staged, or its give-up was seen less than half an hour before.
  pub prune_backoffs-keeps :
      (states : List State) (s : NodeState W)
      → IsSafe (memory s) (map (λ st. st.volume_id) states) (volumes s.host.backoffs)
      → memory (prune_backoffs calls server states s) ≡ memory s
  unfolding prune_backoffs
  prune_backoffs-keeps states s safe =
      prune_all-Remembers (memory s) (map (λ st. st.volume_id) states) (volumes s.host.backoffs) s
        safe refl
