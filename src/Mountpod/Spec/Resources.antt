-- ===== src/Mountpod/Spec/Resources.antt =====
-- pod.go: the resources of the mount container, the spec's over the configured ones.
use retyc_k8s_csi.Prelude.{
  ℕ, ◌≤◌, String, ◌≡◌, ◌∙◌, sym, refl, subst, false, none, some, [], ◌∷◌, Dict, lookup, insert,
  lookup-insert, ltb, is_some, ◌==◌, if◌then◌else◌, arith, eq_iff, Option-cases, Bool-cases, inl,
  inr, ==_refl,
}
use retyc_k8s_csi.Mountpod.Spec.{Requirements, Config, Spec}

-- Every entry of a map written over another. A Go map is ranged over in any order: each key is written
-- once.
unfoldable pub overlay : Dict ℕ → Dict ℕ → Dict ℕ
overlay base [] = base
overlay base ((name, q) ∷ m) = insert name q (overlay base m)

-- A request above its limit is lowered to it, unless the spec set the request.
unfoldable pub lower : Dict ℕ → String → ℕ → Dict ℕ → Dict ℕ
lower explicit name limit requests =
    if is_some (lookup name explicit) then requests else elim (lookup name requests) [
      | none ↦ requests
      | some req ↦ if ltb limit req then insert name limit requests else requests
    ]

unfoldable pub lower_all : Dict ℕ → Dict ℕ → Dict ℕ → Dict ℕ
lower_all explicit [] requests = requests
lower_all explicit ((name, limit) ∷ m) requests =
    lower explicit name limit (lower_all explicit m requests)

-- Manager.resources
unfoldable pub resources : Config → Spec → Requirements
resources cfg spec =
    let limits = overlay cfg.resources.limits spec.resources.limits in
    record {
      requests =
          lower_all spec.resources.requests limits
            (overlay cfg.resources.requests spec.resources.requests);
      limits = limits;
    }

lookup-lower_other :
    (explicit : Dict ℕ) (j name : String) (limit : ℕ) (requests : Dict ℕ)
    → (j == name) ≡ false
    → lookup name (lower explicit j limit requests) ≡ lookup name requests
unfolding lower
lookup-lower_other explicit j name limit requests other = elim (Option-cases (lookup j requests)) [
  | inl n ↦ ground arith
  | inr (req, f) ↦ ground (arith, lookup-insert j name limit requests)
]

lower-within :
    (explicit : Dict ℕ) (name : String) (limit req : ℕ) (requests : Dict ℕ)
    → lookup name explicit ≡ none
    → lookup name (lower explicit name limit requests) ≡ some req
    → req ≤ limit
unfolding lower
lower-within explicit name limit req requests implicit h =
    elim (Option-cases (lookup name requests)) [
      | inl n ↦ ground arith
      | inr (old, f) ↦ ground (arith, lookup-insert name name limit requests, ==_refl name)
    ]

lookup-head :
    (j name : String) (q : ℕ) (m : Dict ℕ)
    → lookup name ((j, q) ∷ m) ≡ (if j == name then some q else lookup name m)
unfolding lookup
lookup-head j name q m = refl

lower_all-within :
    (explicit limits requests : Dict ℕ) (name : String) (limit req : ℕ)
    → lookup name explicit ≡ none
    → lookup name limits ≡ some limit
    → lookup name (lower_all explicit limits requests) ≡ some req
    → req ≤ limit
unfolding lower_all
lower_all-within explicit [] requests name limit req implicit l h =
    absurd (unfold lookup in ground arith)
lower_all-within explicit ((j, q) ∷ m) requests name limit req implicit l h =
    let head = sym (lookup-head j name q m) ∙ l in
    elim (Bool-cases (j == name)) [
      | inr other ↦
          lower_all-within explicit m requests name limit req implicit (ground arith)
            (sym (lookup-lower_other explicit j name q _ other) ∙ h)
      | inl same ↦
          let j≡name = (eq_iff j name).0 same in
          let q≡limit : q ≡ limit = ground arith in
          subst (λ n. req ≤ n) q≡limit
            (lower-within explicit name q req _ implicit (
              subst
                (λ i. lookup name (lower explicit i q (lower_all explicit m requests)) ≡ some req)
                j≡name h))
    ]

-- A request of the mount container that the spec does not set is at most the limit of the resource,
-- whether the limit is configured or the spec's: an annotation that lowers a limit alone wins over the
-- default request.
pub resources_within :
    (cfg : Config) (spec : Spec) (name : String) (limit req : ℕ)
    → lookup name spec.resources.requests ≡ none
    → lookup name (resources cfg spec).limits ≡ some limit
    → lookup name (resources cfg spec).requests ≡ some req
    → req ≤ limit
unfolding resources
resources_within cfg spec name limit req implicit l r =
    lower_all-within spec.resources.requests _ _ name limit req implicit l r
