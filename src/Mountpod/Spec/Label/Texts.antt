-- ===== src/Mountpod/Spec/Label/Texts.antt =====
-- Texts of pod.go: what all characters satisfy, the first and the last one, and what cutting leaves.
use Prim.Native.Char.{Char, code}
use Prim.Native.String.{[], ◌∷◌, ◌++◌}
use text.Mathlib.TextLemmas.{nil-append, cons-append}
use retyc_k8s_csi.Prelude.{
  ℕ, zero, suc, ◌+◌, ◌≤◌, String, Bool, true, false, not, ◌&&◌, ◌≡◌, ◌⊎◌, inl, inr, refl, arith,
  Bool-cases,
}
use retyc_k8s_csi.Mountpod.Spec.Label.{shortened, trim_left}

abbrev pub size : String → ℕ
size [] = 0
size (c ∷ s) = suc (size s)

abbrev pub all : (ℕ → Bool) → String → Bool
all p [] = true
all p (c ∷ s) = p (code c) && all p s

abbrev pub starts : (ℕ → Bool) → String → Bool
starts p [] = false
starts p (c ∷ s) = p (code c)

abbrev pub ends : (ℕ → Bool) → String → Bool
ends p [] = false
ends p (c ∷ []) = p (code c)
ends p (c ∷ (d ∷ s)) = ends p (d ∷ s)

pub all-++ : (p : ℕ → Bool) (s t : String) → all p s ≡ true → all p t ≡ true → all p (s ++ t) ≡ true
all-++ p [] t h k = rw (nil-append t) k
all-++ p (c ∷ s) t h k = let rest = all-++ p s t in rw (cons-append c s t) (ground arith)

pub size-++ : (s t : String) → size (s ++ t) ≡ size s + size t
size-++ [] t = rw (nil-append t) (omega arith)
size-++ (c ∷ s) t = let rest = size-++ s t in rw (cons-append c s t) (ground arith)

pub ends-cons : (p : ℕ → Bool) (c : Char) (s : String) → ends p s ≡ true → ends p (c ∷ s) ≡ true
ends-cons p c [] h = ground arith
ends-cons p c (d ∷ s) h = h

pub ends-++ : (p : ℕ → Bool) (s t : String) → ends p t ≡ true → ends p (s ++ t) ≡ true
ends-++ p [] t h = rw (nil-append t) h
ends-++ p (c ∷ s) t h = rw (cons-append c s t) (ends-cons p c (s ++ t) (ends-++ p s t h))

pub all-shortened :
    (p : ℕ → Bool) (n : ℕ) (s : String) → all p s ≡ true → all p (shortened n s) ≡ true
unfolding shortened
all-shortened p zero s h = refl
all-shortened p (suc n) [] h = refl
all-shortened p (suc n) (c ∷ s) h = let rest = all-shortened p n s in ground arith

pub size-shortened : (n : ℕ) (s : String) → size (shortened n s) ≤ n
unfolding shortened
size-shortened zero s = omega arith
size-shortened (suc n) [] = omega arith
size-shortened (suc n) (c ∷ s) = ground (arith, size-shortened n s)

pub all-trim_left :
    (p cuts : ℕ → Bool) (s : String) → all p s ≡ true → all p (trim_left cuts s) ≡ true
unfolding trim_left
all-trim_left p cuts [] h = refl
all-trim_left p cuts (c ∷ s) h = let rest = all-trim_left p cuts s in ground arith

pub size-trim_left : (cuts : ℕ → Bool) (s : String) → size (trim_left cuts s) ≤ size s
unfolding trim_left
size-trim_left cuts [] = omega arith
size-trim_left cuts (c ∷ s) = ground (arith, size-trim_left cuts s)

-- A text is trimmed down to nothing, or to one that starts with no character to cut.
pub starts-trim_left :
    (cuts : ℕ → Bool) (s : String)
    → (trim_left cuts s ≡ "") ⊎ (starts (λ c. not (cuts c)) (trim_left cuts s) ≡ true)
unfolding trim_left
starts-trim_left cuts [] = inl refl
starts-trim_left cuts (c ∷ s) = elim (Bool-cases (cuts (code c))) [
  | inl e ↦ rw e (starts-trim_left cuts s)
  | inr e ↦ rw e (inr (rw e refl))
]

-- A text that starts with no character to cut is left as it is.
pub trim_left-none :
    (cuts : ℕ → Bool) (s : String) → starts (λ c. not (cuts c)) s ≡ true → trim_left cuts s ≡ s
unfolding trim_left
trim_left-none cuts [] h = refl
trim_left-none cuts (c ∷ s) h = ground arith

pub all_mono :
    (p q : ℕ → Bool)
    → ((c : ℕ) → p c ≡ true → q c ≡ true)
    → (s : String) → all p s ≡ true
    → all q s ≡ true
all_mono p q f [] h = refl
all_mono p q f (c ∷ s) h = let rest = all_mono p q f s in ground (arith, f (code c))

pub starts-all : (p : ℕ → Bool) (s : String) → all p s ≡ true → 1 ≤ size s → starts p s ≡ true
starts-all p [] h k = ground arith
starts-all p (c ∷ s) h k = ground arith

pub ends-all : (p : ℕ → Bool) (s : String) → all p s ≡ true → 1 ≤ size s → ends p s ≡ true
ends-all p [] h k = ground arith
ends-all p (c ∷ []) h k = ground arith
ends-all p (c ∷ (d ∷ s)) h k = ends-all p (d ∷ s) (ground arith) (ground arith)
