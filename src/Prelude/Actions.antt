-- ===== src/Prelude/Actions.antt =====
-- Results, and actions on a state that may fail: what was done before a failure stays done.
use mathlib.Core.Path.{◌≡◌, refl, ap}
use native.Mathlib.Omega.{arith}
use mathlib.Core.Bool.{Bool, true, false}
use retyc_k8s_csi.Prelude.Tests.{if◌then◌else◌}
use mathlib.Core.Logic.{◌⊎◌, inl, inr}

pub data Result {ℓ} (E A : Type ℓ) : Type ℓ where
  ok : A → Result E A
  err : E → Result E A

abbrev pub Exec {ℓ} : Type ℓ → Type ℓ → Type ℓ → Type ℓ
Exec E S A = S → Result E A × S

module _ {ℓ} {E S A : Type ℓ} where
  abbrev pub pure : A → Exec E S A
  pure a s = (ok a, s)

  abbrev pub raise : E → Exec E S A
  raise e s = (err e, s)

  -- A pure step that may fail.
  abbrev pub lift : Result E A → Exec E S A
  lift r s = (r, s)

module _ {ℓ} {E S A B : Type ℓ} where
  abbrev pub continue : Result E A → (A → Exec E S B) → Exec E S B
  continue (ok a) f s = f a s
  continue (err e) f s = (err e, s)

  infixl 5 ◌>>=◌ ◌>>◌
  abbrev pub ◌>>=◌ : Exec E S A → (A → Exec E S B) → Exec E S B
  ◌>>=◌ m f s = let (r, s') = m s in continue r f s'

  abbrev pub ◌>>◌ : Exec E S A → Exec E S B → Exec E S B
  m >> k = m >>= λ _. k

-- A result handed on, the first failure being the last word.
module _ {ℓ} {E A B : Type ℓ} where
  infixl 5 ◌and_then◌
  abbrev pub ◌and_then◌ : Result E A → (A → Result E B) → Result E B
  ok a and_then f = f a
  err e and_then f = err e

  pub and_then-ok :
      (r : Result E A) (f : A → Result E B) (b : B)
      → (r and_then f) ≡ ok b
      → (a : A) × (r ≡ ok a) × (f a ≡ ok b)
  and_then-ok (ok a) f b h = (a, refl, h)
  and_then-ok (err e) f b h = absurd (ground arith)

-- An action whose failure is turned into another kind of failure.
abbrev pub map_err {ℓ} : {E F A : Type ℓ} → (E → F) → Result E A → Result F A
map_err f (ok a) = ok a
map_err f (err e) = err (f e)

abbrev pub rescue {ℓ} : {E F S A : Type ℓ} → (E → F) → Exec E S A → Exec F S A
rescue f m s = let (r, s') = m s in (map_err f r, s')

pub Result-cases {ℓ} :
    {E A : Type ℓ} (r : Result E A) → ((a : A) × (r ≡ ok a)) ⊎ ((e : E) × (r ≡ err e))
Result-cases (ok a) = inl (a, refl)
Result-cases (err e) = inr (e, refl)

abbrev value_or {ℓ} : {E A : Type ℓ} → A → Result E A → A
value_or d (ok x) = x
value_or d (err _) = d

pub ok_injective {ℓ} : {E A : Type ℓ} {a b : A} → ◌≡◌ {A = Result E A} (ok a) (ok b) → a ≡ b
ok_injective {a} h = ap (value_or a) h

-- An action that succeeds, taken apart.
module _ {ℓ} {E S A B : Type ℓ} where
  pub continue-ok :
      (r : Result E A) (f : A → Exec E S B) (s t : S) (b : B)
      → continue r f s ≡ (ok b, t)
      → (a : A) × (r ≡ ok a) × (f a s ≡ (ok b, t))
  continue-ok (ok a) f s t b h = (a, refl, h)
  continue-ok (err e) f s t b h = absurd (ground arith)

  pub bind-ok :
      (m : Exec E S A) (f : A → Exec E S B) (s t : S) (b : B)
      → (m >>= f) s ≡ (ok b, t)
      → (a : A) × ((m s).0 ≡ ok a) × (f a (m s).1 ≡ (ok b, t))
  bind-ok m f s t b h = continue-ok (m s).0 f (m s).1 t b h

-- A property of the state that an action keeps, whatever it answers.
module _ {ℓ} {E S : Type ℓ} (P : S → Type ℓ) where
  abbrev pub Stays : {A : Type ℓ} → Exec E S A → Type ℓ
  Stays m = (s : S) → P s → P (m s).1

  pub continue-Stays :
      {A B : Type ℓ} (r : Result E A) (f : A → Exec E S B)
      → ((a : A) → Stays (f a))
      → Stays (continue r f)
  continue-Stays (ok a) f k s p = k a s p
  continue-Stays (err e) f k s p = p

  pub bind-Stays :
      {A B : Type ℓ} (m : Exec E S A) (f : A → Exec E S B)
      → Stays m
      → ((a : A) → Stays (f a))
      → Stays (m >>= f)
  bind-Stays m f k l s p = continue-Stays (m s).0 f l (m s).1 (k s p)

  pub if-Stays :
      {A : Type ℓ} (b : Bool) (x y : Result E A × S) → P x.1 → P y.1 → P (if b then x else y).1
  if-Stays true x y p q = p
  if-Stays false x y p q = q

-- A test before an action that succeeded.
module _ {ℓ} {E S A : Type ℓ} where
  pub passed-ok :
      (c : Bool) (x : Result E A × S) (e : E) (s t : S) (a : A)
      → (if c then x else (err e, s)) ≡ (ok a, t)
      → (c ≡ true) × (x ≡ (ok a, t))
  passed-ok true x e s t a h = (refl, h)
  passed-ok false x e s t a h = absurd (ground arith)

  pub refused-ok :
      (c : Bool) (x : Result E A × S) (e : E) (s t : S) (a : A)
      → (if c then (err e, s) else x) ≡ (ok a, t)
      → (c ≡ false) × (x ≡ (ok a, t))
  refused-ok true x e s t a h = absurd (ground arith)
  refused-ok false x e s t a h = (refl, h)

-- What every error of an action is.
abbrev pub Fails {ℓ} : {E A : Type ℓ} → (E → Type ℓ) → Result E A → Type ℓ
Fails Q (ok a) = Unit
Fails Q (err e) = Q e

module _ {ℓ} {E S : Type ℓ} (Q : E → Type ℓ) where
  pub continue-Fails :
      {A B : Type ℓ} (r : Result E A) (f : A → Exec E S B) (s : S)
      → Fails Q r
      → ((a : A) (s : S) → Fails Q (f a s).0)
      → Fails Q (continue r f s).0
  continue-Fails (ok a) f s p k = k a s
  continue-Fails (err e) f s p k = p

  pub bind-Fails :
      {A B : Type ℓ} (m : Exec E S A) (f : A → Exec E S B)
      → ((s : S) → Fails Q (m s).0)
      → ((a : A) (s : S) → Fails Q (f a s).0)
      → (s : S) → Fails Q ((m >>= f) s).0
  bind-Fails m f p k s = continue-Fails (m s).0 f (m s).1 (p s) k

  pub if-Fails :
      {A : Type ℓ} (b : Bool) (x y : Result E A × S)
      → Fails Q x.0
      → Fails Q y.0
      → Fails Q (if b then x else y).0
  if-Fails true x y p q = p
  if-Fails false x y p q = q
