-- ===== src/Mountpod/Backoff/Delay.antt =====
-- restartDelay of backoff.go in closed form.
use Prim.Native.Nat.{min}
use native.Mathlib.Nat.{pow-suc}
use retyc_k8s_csi.Prelude.{
  ℕ, zero, suc, ◌-◌, ◌*◌, ◌^◌, ◌≤◌, ◌<◌, ◌≡◌, refl, ap, ◌∙◌, pos, ltb, ltb_ℤ, arith, if◌then◌else◌,
  Bool-cases, inl, inr,
}
use retyc_k8s_csi.Mountpod.Backoff.{double, double_below, restart_delay}

-- Within int64 a doubling of a delay below 2^62 does not wrap.
double-small : (d : ℕ) → d < 2 ^ 62 → double (pos d) ≡ pos (d * 2)
unfolding double
double-small d h = ground arith

pow-pos : (k : ℕ) → 1 ≤ 2 ^ k
pow-pos zero = omega arith
pow-pos (suc k) = omega (arith, pow-suc 2 k, pow-pos k)

mul-pow-suc : (d k : ℕ) → d * 2 * 2 ^ k ≡ d * 2 ^ suc k
mul-pow-suc d k = rw (pow-suc 2 k) (grind arith)

le-mul-pow : (d k : ℕ) → d ≤ d * 2 ^ k
le-mul-pow d k = grind (arith, pow-pos k)

min-above : (d p m : ℕ) → m ≤ d → d ≤ p → min d m ≡ min p m
min-above d p m h k = omega arith

double_below-min :
    (m rounds d : ℕ)
    → m ≤ 2 ^ 62
    → (r : ℕ) × (double_below (pos m) rounds (pos d) ≡ pos r) × (min r m ≡ min (d * 2 ^ rounds) m)
unfolding double_below
double_below-min m zero d h = (d, refl, omega arith)
double_below-min m (suc rounds) d h = elim (Bool-cases (ltb d m)) [
  | inl e ↦
      let (r, same, least) = double_below-min m rounds (d * 2) h in
      (
        r,
        rw (e, double_below) (rw (double-small d (ground arith)) same),
        least ∙ ap (λ t. min t m) (mul-pow-suc d rounds),
      )
  | inr e ↦
      (d, rw (e, double_below) refl, min-above d _ m (ground arith) (le-mul-pow d (suc rounds)))
]

sub_one : (n : ℕ) → suc n - 1 ≡ n
sub_one n = omega arith

capped : (m r : ℕ) → (if ltb_ℤ (pos m) (pos r) then pos m else pos r) ≡ pos (min r m)
capped m r = ground arith

-- The delay is the base doubled once for each failure after the first, capped at the maximum; no
-- doubling overflows an int64 for delays up to 2^62 nanoseconds, 146 years.
pub restart_delay_capped :
    (base max_delay failures : ℕ)
    → max_delay ≤ 2 ^ 62
    → restart_delay (pos base) (pos max_delay) (suc failures)
      ≡ pos (min (base * 2 ^ failures) max_delay)
unfolding restart_delay
restart_delay_capped base max_delay failures h =
    let (r, same, least) = double_below-min max_delay failures base h in
    rw (sub_one failures, same) (capped max_delay r ∙ ap pos least)
