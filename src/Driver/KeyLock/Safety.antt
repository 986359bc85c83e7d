-- ===== src/Driver/KeyLock/Safety.antt =====
-- What the lock promises its callers, and the specification that it implements.
use retyc_k8s_csi.Prelude.{
  ℕ, ◌≤◌, ◌<◌, String, false, Option, none, some, Dict, lookup, ◌≡◌, ◌≢◌, ◌⊎◌, refl, sym, ◌∙◌,
  arith, assign, tally-eq_zero, tally-positive, two-le-tally, le-tally, inl, inr, Option-cases,
  subst, ap, Bool-cases,
}
use mathlib.Core.Path.{fun_ext}
use native.Mathlib.Decide.{ℕ_discrete}
use retyc_k8s_csi.Driver.KeyLock.{
  KeyLock, Caller, outside, waiting, inside, leaving, Move, call, acquire, unlock, leave, Callers,
  Step, move, Reach, lock_entry,
}
use retyc_k8s_csi.Driver.KeyLock.Invariant.{refers, owns, IsCurrent}
use retyc_k8s_csi.Driver.KeyLock.Kept.{Reach-Invariant}

-- The volume that a caller works on.
abbrev pub key_inside : Caller → Option String
key_inside (inside key e) = some key
key_inside _ = none

inside_entry :
    (locks : Dict ℕ) (p : Caller) (key : String)
    → IsCurrent locks p
    → key_inside p ≡ some key
    → (e : ℕ) × (p ≡ inside key e) × (lookup key locks ≡ some e)
inside_entry locks outside key c h = absurd (ground arith)
inside_entry locks (waiting k e) key c h = absurd (ground arith)
inside_entry locks (inside k e) key c h = (e, ground arith, ground arith)
inside_entry locks (leaving k e) key c h = absurd (ground arith)

-- Mutual exclusion: in every state that `n` callers reach, two callers between Lock and unlock of the
-- same key are one.
pub one_inside :
    {n : ℕ} {s : Callers} {key : String}
    → Reach n s
    → (i j : ℕ) → i < n
    → j < n
    → key_inside (s.at i) ≡ some key
    → key_inside (s.at j) ≡ some key
    → i ≡ j
one_inside {n} {s} {key} r i j hi hj in_i in_j =
    let (e, here, found) = inside_entry s.lock.locks (s.at i) key (current i hi) in_i in
    let (e', here', found') = inside_entry s.lock.locks (s.at j) key (current j hj) in_j in
    elim (ℕ_discrete i j) [
      | yes same ↦ same
      | no apart ↦ absurd (ground (arith, owned e, two-le-tally (owns e) s.at i j n hi hj apart))
    ]
  where
    open (Reach-Invariant r) use {current, owned}

-- No entry is left: the map is empty in every reachable state where every caller is outside.
pub nothing_left :
    {n : ℕ} {s : Callers}
    → Reach n s
    → ((i : ℕ) → i < n → s.at i ≡ outside)
    → (key : String) → lookup key s.lock.locks ≡ none
nothing_left {n} {s} r quiet key = elim (Option-cases (lookup key s.lock.locks)) [
  | inl missing ↦ missing
  | inr (e, found) ↦ absurd (
      omega (
        arith,
        tidy.used key e found,
        counted e,
        tally-eq_zero (refers e) s.at n (λ i below. ap (refers e) (quiet i below)),
      ))
]
  where
    open (Reach-Invariant r) use {tidy, counted}

-- What a caller finds that waits for a key: it may enter at once, or another one is inside.
abbrev pub MayEnter : ℕ → Callers → ℕ → String → ℕ → Type 0
MayEnter n s i key e =
    Step n s (record { lock = lock_entry e s.lock; at = assign i (inside key e) s.at })

abbrev pub IsOccupied : ℕ → Callers → String → Type 0
IsOccupied n s key = record {
  owner : ℕ;
  below : owner < n;
  owns_key : key_inside (s.at owner) ≡ some key;
}

owner_of : (e : ℕ) (p : Caller) → 1 ≤ owns e p → record { key : String; is : p ≡ inside key e }
owner_of e outside h = absurd (omega arith)
owner_of e (waiting k x) h = absurd (omega arith)
owner_of e (inside k x) h = record { key = k; is = ground arith }
owner_of e (leaving k x) h = absurd (omega arith)

-- No deadlock: in every reachable state, a caller that waits for a key can enter in the next step, or
-- a caller is between Lock and unlock of that very key.
pub no_deadlock :
    {n : ℕ} {s : Callers} {key : String} {e : ℕ}
    → Reach n s
    → (i : ℕ) → i < n
    → s.at i ≡ waiting key e
    → MayEnter n s i key e ⊎ IsOccupied n s key
no_deadlock {n} {s} {key} {e} r i lt here = elim (Bool-cases (s.lock.locked e)) [
  | inr free ↦ inl (
      move i lt
        (subst (λ p. Move s.lock p (lock_entry e s.lock) (inside key e)) (sym here) (acquire free)))
  | inl held ↦
      let busy = tally-positive (owns e) s.at n (ground (arith, owned e)) in
      let owner = owner_of e (s.at busy.thread) busy.weighs in
      let own = subst (IsCurrent s.lock.locks) owner.is (current busy.thread busy.below) in
      let mine = subst (IsCurrent s.lock.locks) here (current i lt) in
      inr (record {
        owner = busy.thread;
        below = busy.below;
        owns_key = ap key_inside owner.is ∙ ap some (tidy.distinct owner.key key e own mine);
      })
]
  where
    open (Reach-Invariant r) use {tidy, current, owned}

-- The specification of a lock by key: who works on which key, and no entries at all.
abbrev pub Owners : Type 0
Owners = ℕ → Option String

pub data OwnerStep (n : ℕ) (o : Owners) : Owners → Type 0 where
  enter :
      (i : ℕ) (key : String)
      → i < n
      → o i ≡ none
      → ((j : ℕ) → j < n → o j ≢ some key)
      → OwnerStep n o (assign i (some key) o)
  exit : (i : ℕ) → i < n → OwnerStep n o (assign i none o)

abbrev pub owners : Callers → Owners
owners s i = key_inside (s.at i)

owners-assign :
    (at : ℕ → Caller) (i : ℕ) (p : Caller)
    → ◌≡◌ {A = Owners}
        (λ j. key_inside (assign i p at j))
        (assign i (key_inside p) (λ j. key_inside (at j)))
owners-assign at i p = fun_ext λ j. ground arith

owners-same :
    (at : ℕ → Caller) (i : ℕ) (p : Caller)
    → key_inside p ≡ key_inside (at i)
    → ◌≡◌ {A = Owners} (λ j. key_inside (assign i p at j)) (λ j. key_inside (at j))
owners-same at i p h = fun_ext λ j. ground arith

module _ {n : ℕ} {s : Callers} (r : Reach n s) (i : ℕ) (lt : i < n) where
  open (Reach-Invariant r) use {tidy, current, owned}

  -- While an entry is unlocked, nobody is inside the key that it stands for.
  nobody_inside :
      (key : String) (e : ℕ)
      → lookup key s.lock.locks ≡ some e
      → s.lock.locked e ≡ false
      → (j : ℕ) → j < n
      → key_inside (s.at j) ≢ some key
  nobody_inside key e mine free j below taken =
      let (e', here, found) = inside_entry s.lock.locks (s.at j) key (current j below) taken in
      ground (arith, owned e, le-tally (owns e) s.at j n below)

  Move-refines :
      {p p' : Caller} {l' : KeyLock}
      → Move s.lock p l' p'
      → s.at i ≡ p
      → (owners (record { lock = l'; at = assign i p' s.at }) ≡ owners s)
        ⊎ OwnerStep n (owners s) (owners (record { lock = l'; at = assign i p' s.at }))
  Move-refines (call key) here = inl (owners-same s.at i _ (ground arith))
  Move-refines (acquire {key} {e} free) here =
      let mine = subst (IsCurrent s.lock.locks) here (current i lt) in
      inr (
        subst (OwnerStep n (owners s)) (sym (owners-assign s.at i (inside key e)))
          (enter i key lt (ground arith) (nobody_inside key e mine free)))
  Move-refines (unlock {key} {e}) here =
      inr (subst (OwnerStep n (owners s)) (sym (owners-assign s.at i (leaving key e))) (exit i lt))
  Move-refines leave here = inl (owners-same s.at i outside (ground arith))

-- Refinement: from a reachable state every step of the lock changes nothing of who is inside which key,
-- or is a step of the specification, in which a caller enters a key that nobody is inside.
pub Step-refines :
    {n : ℕ} {s t : Callers}
    → Reach n s
    → Step n s t
    → (owners t ≡ owners s) ⊎ OwnerStep n (owners s) (owners t)
Step-refines r (move i lt m) = Move-refines r i lt m refl
