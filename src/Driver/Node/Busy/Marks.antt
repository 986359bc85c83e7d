-- ===== src/Driver/Node/Busy/Marks.antt =====
-- node.go: the busy mark that a call sets, and what is left of it.
use retyc_k8s_csi.Prelude.{
  ℕ, String, Bool, true, false, not, ◌||◌, Option, none, some, Dict, lookup, insert,
  lookup-insert_self, lookup-delete, ◌==◌, if◌then◌else◌, Result, ok, err, Exec, Stays, ◌≡◌, refl,
  ap, arith, ==_refl,
}
use retyc_k8s_csi.Driver.Status.{Status, status, invalid_argument}
use retyc_k8s_csi.Driver.Node.{
  Calls, NodeServer, NodeState, is_aborted, mark_busy, clear_busy, while_busy,
}
use retyc_k8s_csi.Driver.Node.StageSpec.{StageRequest}
use retyc_k8s_csi.Driver.Node.Stage.{
  is_supported, stage, node_stage_volume, unstage, node_unstage_volume,
}
use retyc_k8s_csi.Driver.Node.Busy.{Marked, stage-Stays, unstage-Stays}

-- What a call leaves of the mark that it set: it stays exactly while kubelet retries.
abbrev pub left_mark : {A : Type 0} → ℕ → Result Status A → Option ℕ
left_mark now (ok a) = none
left_mark now (err e) = if is_aborted e.code then some now else none

module _ {W : Type 0} (calls : Calls W) (server : NodeServer) where
  while_busy-mark :
      {A : Type 0} (v : String) (body : Exec Status (NodeState W) A) (s : NodeState W)
      → ((marks : Dict ℕ) → Stays (Marked calls server marks) body)
      → lookup v (while_busy calls v body s).1.busy
        ≡ left_mark (calls.now s.host.world) (while_busy calls v body s).0
  unfolding while_busy mark_busy clear_busy
  while_busy-mark {A} v body s stays =
      cleared (body (mark_busy now v s)) (stays (insert v now s.busy) (mark_busy now v s) refl)
    where
      now : ℕ
      now = calls.now s.host.world

      cleared :
          (x : Result Status A × NodeState W)
          → x.1.busy ≡ insert v now s.busy
          → lookup v (clear_busy v x.0 x.1).busy ≡ left_mark now x.0
      cleared (ok a, t) e = ground (arith, lookup-delete v v t.busy, ==_refl v)
      cleared (err x, t) e = ground (
        arith,
        lookup-delete v v t.busy,
        ==_refl v,
        ap (lookup v) e,
        lookup-insert_self v now s.busy,
      )

  -- A call leaves the state as it was if it is refused at once, or the mark of its volume.
  abbrev pub Leaves : Bool → String → NodeState W → Result Status (Unit {0}) × NodeState W → Type 0
  Leaves true v s x = x ≡ (err (status invalid_argument), s)
  Leaves false v s x = lookup v x.1.busy ≡ left_mark (calls.now s.host.world) x.0

  stage-Leaves :
      (req : StageRequest) (s : NodeState W) (unnamed unsupported : Bool)
      → let run = while_busy calls req.volume_id (stage calls server req) s in
        let bad : Result Status (Unit {0}) × NodeState W = (err (status invalid_argument), s) in
        Leaves
          (unnamed || unsupported)
          req.volume_id
          s
          (if unnamed then bad else if unsupported then bad else run)
  stage-Leaves req s true unsupported = refl
  stage-Leaves req s false true = refl
  stage-Leaves req s false false =
      while_busy-mark req.volume_id (stage calls server req) s
        (λ marks. stage-Stays calls server marks req)

  unstage-Leaves :
      (v staging : String) (s : NodeState W) (unnamed : Bool)
      → let run = while_busy calls v (unstage calls server v staging) s in
        Leaves unnamed v s (if unnamed then (err (status invalid_argument), s) else run)
  unstage-Leaves v staging s true = refl
  unstage-Leaves v staging s false =
      while_busy-mark v (unstage calls server v staging) s
        (λ marks. unstage-Stays calls server marks v staging)

  -- A stage without a volume, a staging path or a supported capability, and an unstage without a volume or a
  -- path, are refused with InvalidArgument and change nothing, no mark either. Every other stage and
  -- unstage leaves its volume marked busy, with the time of its start, exactly if it answers Aborted, which
  -- kubelet retries; after any other answer the volume has no mark.
  pub busy_while_aborted :
      (req : StageRequest) (s : NodeState W)
      → let v = req.volume_id in
        let staging = req.staging_target_path in
        let unnamed = v == "" || staging == "" in
        Leaves
          (unnamed || not (is_supported req.capability))
          v
          s
          (node_stage_volume calls server req s)
        × Leaves unnamed v s (node_unstage_volume calls server v staging s)
  unfolding node_stage_volume node_unstage_volume
  busy_while_aborted req s =
      let v = req.volume_id in
      let staging = req.staging_target_path in
      (
        stage-Leaves req s (v == "" || staging == "") (not (is_supported req.capability)),
        unstage-Leaves v staging s (v == "" || staging == ""),
      )
