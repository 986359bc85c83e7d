-- ===== src/Prelude/Lists.antt =====
-- Lists by native numbers, list predicates, and maps from texts as association lists.
use Prim.Native.Nat.{ℕ, suc}
use Prim.Native.String.{String}
use mathlib.Core.Path.{◌≡◌, refl}
use mathlib.Core.Bool.{Bool, true, false, ◌&&◌, ◌||◌}
use mathlib.Core.List.{List, [], ◌∷◌}
use mathlib.Core.Option.{Option, none, some}
use native.Mathlib.Omega.{arith}
use text.Mathlib.TextEquality.{eq_iff}
use retyc_k8s_csi.Prelude.Tests.{◌==◌, if◌then◌else◌, ==_refl}

module _ {ℓ} {A : Type ℓ} where
  abbrev pub length : List A → ℕ
  length [] = 0
  length (x ∷ xs) = suc (length xs)

  abbrev pub is_empty : List A → Bool
  is_empty [] = true
  is_empty (_ ∷ _) = false

  abbrev pub any : (A → Bool) → List A → Bool
  any p [] = false
  any p (x ∷ xs) = p x || any p xs

  abbrev pub all : (A → Bool) → List A → Bool
  all p [] = true
  all p (x ∷ xs) = p x && all p xs

  -- The elements that a test keeps, in order.
  abbrev pub keep : (A → Bool) → List A → List A
  keep p [] = []
  keep p (x ∷ xs) = let rest = keep p xs in if p x then x ∷ rest else rest

  abbrev pub All {κ} : (A → Type κ) → List A → Type κ
  All P [] = Unit
  All P (x ∷ xs) = P x × All P xs

abbrev pub is_some {ℓ} : {A : Type ℓ} → Option A → Bool
is_some none = false
is_some (some _) = true

abbrev pub contains : List String → String → Bool
contains [] s = false
contains (t ∷ ts) s = t == s || contains ts s

-- A Go map from texts: a later entry of a key is hidden by an earlier one.
abbrev pub Dict {ℓ} : Type ℓ → Type ℓ
Dict V = List (String × V)

module _ {ℓ} {V : Type ℓ} where
  -- `v, ok := m[k]`
  unfoldable pub lookup : String → Dict V → Option V
  lookup key (p ∷ rest) = if p.0 == key then some p.1 else lookup key rest
  lookup key [] = none

  -- `m[k] = v`: the entry of the key is replaced where it stands, or added behind the others.
  unfoldable pub insert : String → V → Dict V → Dict V
  insert key value (p ∷ rest) =
      let later = insert key value rest in if p.0 == key then (key, value) ∷ rest else p ∷ later
  insert key value [] = (key, value) ∷ []

  -- `delete(m, k)`
  unfoldable pub delete : String → Dict V → Dict V
  delete key (p ∷ rest) = let later = delete key rest in if p.0 == key then later else p ∷ later
  delete key [] = []

  pub lookup-insert :
      (key asked : String) (value : V) (m : Dict V)
      → lookup asked (insert key value m) ≡ (if key == asked then some value else lookup asked m)
  unfolding insert lookup
  lookup-insert key asked value (p ∷ rest) = ground (
    lookup-insert key asked value rest,
    eq_iff p.0 key,
    eq_iff p.0 asked,
    eq_iff key asked,
    arith,
  )
  lookup-insert key asked value [] = refl

  pub lookup-insert_self :
      (key : String) (value : V) (m : Dict V) → lookup key (insert key value m) ≡ some value
  lookup-insert_self key value m = simp (lookup-insert, ==_refl)

  pub lookup-delete :
      (key asked : String) (m : Dict V)
      → lookup asked (delete key m) ≡ (if key == asked then none else lookup asked m)
  unfolding delete lookup
  lookup-delete key asked (p ∷ rest) =
      ground
        (lookup-delete key asked rest, eq_iff p.0 key, eq_iff p.0 asked, eq_iff key asked, arith)
  lookup-delete key asked [] = ground arith

-- `m[k]` of a map to texts: the zero value, "", where the key is missing.
abbrev pub text_at : String → Dict String → String
text_at k m = elim (lookup k m) [ none ↦ "" | some v ↦ v ]
