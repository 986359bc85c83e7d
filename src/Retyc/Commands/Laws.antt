-- ===== src/Retyc/Commands/Laws.antt =====
-- What a successful call of the client says of the CLI.
use retyc_k8s_csi.Prelude.{
  ℕ, String, ◌≡◌, ap, List, ◌∷◌, Option, some, Option-cases, inl, inr, ok, arith,
}
use retyc_k8s_csi.Retyc.Commands.{Cli, Client, Reply, printed, exited, decoded, run}

module _ {W A : Type 0} (tool : Cli W) (c : Client) (decode : List ℕ → Option A)
    (args : List String) where
  -- The subprocess printed a text that decodes to the value.
  abbrev pub Printed : Reply × W → A → W → Type 0
  Printed p a w' = (out : List ℕ) × (p ≡ (printed out, w')) × (decode out ≡ some a)

  decoded-ok :
      (reply : Reply) (w₁ w' : W) (a : A)
      → decoded tool decode args reply ≡ ok a
      → w₁ ≡ w'
      → Printed (reply, w₁) a w'
  decoded-ok (exited stderr failure) w₁ w' a h e = cc
  decoded-ok (printed out) w₁ w' a h e = elim (Option-cases (decode out)) [
    | inl n ↦ absurd (ground arith)
    | inr (b, s) ↦ (out, ap (λ (x : W). (printed out, x)) e, ground arith)
  ]

  pub run-ok :
      (w w' : W) (a : A)
      → (run tool c decode args w).0 ≡ ok a
      → (run tool c decode args w).1 ≡ w'
      → Printed (tool.exec c.env ("--json" ∷ args) w) a w'
  unfolding run
  run-ok w w' a h e = decoded-ok _ _ w' a h e
