-- ===== src/Prelude/Threads.antt =====
-- Functions from the number of a thread or of an object: one value replaced, weights summed.
use Prim.Native.Nat.{ℕ, zero, suc, ◌+◌, ◌≤◌, ◌<◌}
use mathlib.Core.Path.{◌≡◌, refl}
use mathlib.Core.Logic.{◌≢◌}
use native.Mathlib.Decide.{dec_lt}
use native.Mathlib.Omega.{arith}
use retyc_k8s_csi.Prelude.Tests.{nat_eq, if◌then◌else◌}

-- `f` with the value `a` at `i`.
abbrev pub assign {ℓ} : {A : Type ℓ} → ℕ → A → (ℕ → A) → ℕ → A
assign i a f j = if nat_eq i j then a else f j

module _ {ℓ} {A : Type ℓ} (weight : A → ℕ) where
  -- The weights of the first `n` values.
  unfoldable pub tally : (ℕ → A) → ℕ → ℕ
  tally f zero = 0
  tally f (suc n) = weight (f n) + tally f n

  tally-assign_outside :
      (f : ℕ → A) (i : ℕ) (a : A) (n : ℕ) → n ≤ i → tally (assign i a f) n ≡ tally f n
  unfolding tally
  tally-assign_outside f i a zero h = refl
  tally-assign_outside f i a (suc n) h = ground (arith, tally-assign_outside f i a n)

  pub tally-assign :
      (f : ℕ → A) (i : ℕ) (a : A) (n : ℕ)
      → i < n
      → tally (assign i a f) n + weight (f i) ≡ tally f n + weight a
  unfolding tally
  tally-assign f i a zero h = absurd (omega arith)
  tally-assign f i a (suc n) h = elim (dec_lt i n) [
    | yes inner ↦ ground (arith, tally-assign f i a n inner)
    | no outer ↦ ground (arith, tally-assign_outside f i a n)
  ]

  pub le-tally : (f : ℕ → A) (i n : ℕ) → i < n → weight (f i) ≤ tally f n
  unfolding tally
  le-tally f i zero h = absurd (omega arith)
  le-tally f i (suc n) h = elim (dec_lt i n) [
    | yes inner ↦ omega (arith, le-tally f i n inner)
    | no outer ↦ ground arith
  ]

  -- Two threads' weights together.
  pub two-le-tally :
      (f : ℕ → A) (i j n : ℕ) → i < n → j < n → i ≢ j → weight (f i) + weight (f j) ≤ tally f n
  unfolding tally
  two-le-tally f i j zero hi hj apart = absurd (omega arith)
  two-le-tally f i j (suc n) hi hj apart = elim (dec_lt i n) [
    | yes i_inner ↦ elim (dec_lt j n) [
      | yes j_inner ↦ omega (arith, two-le-tally f i j n i_inner j_inner apart)
      | no j_last ↦ ground (arith, le-tally f i n i_inner)
    ]
    | no i_last ↦ elim (dec_lt j n) [
      | yes j_inner ↦ ground (arith, le-tally f j n j_inner)
      | no j_last ↦ absurd (apart (omega arith))
    ]
  ]

  pub tally-eq_zero : (f : ℕ → A) (n : ℕ) → ((i : ℕ) → i < n → weight (f i) ≡ 0) → tally f n ≡ 0
  unfolding tally
  tally-eq_zero f zero none_weighs = refl
  tally-eq_zero f (suc n) none_weighs =
      omega (
        arith,
        none_weighs n (omega arith),
        tally-eq_zero f n (λ i lt. none_weighs i (omega arith)),
      )

  -- A sum that is not 0 has a thread that weighs something.
  pub tally-positive :
      (f : ℕ → A) (n : ℕ)
      → 1 ≤ tally f n
      → record { thread : ℕ; below : thread < n; weighs : 1 ≤ weight (f thread) }
  unfolding tally
  tally-positive f zero h = absurd (omega arith)
  tally-positive f (suc n) h = elim (dec_lt 0 (weight (f n))) [
    | yes here ↦ record { thread = n; below = omega arith; weighs = omega arith }
    | no idle ↦
        let earlier = tally-positive f n (omega arith) in
        record {
          thread = earlier.thread;
          below = omega (arith, earlier.below);
          weighs = earlier.weighs;
        }
  ]
