-- ===== src/Driver/KeyLock/Kept.antt =====
-- Every step of the callers keeps the invariant of the lock.
use retyc_k8s_csi.Prelude.{
  ℕ, ◌-◌, ◌<◌, String, false, Option, none, some, lookup, insert, delete, lookup-insert_self,
  nat_eq, if◌then◌else◌, ◌≡◌, ◌≢◌, refl, sym, arith, assign, tally-assign, tally-eq_zero,
  two-le-tally, le-tally, inl, inr, subst, Bool-cases,
}
use retyc_k8s_csi.Driver.KeyLock.{
  KeyLock, Caller, outside, waiting, inside, leaving, Move, call, acquire, unlock, leave, Callers,
  move, Reach, begin, step, reference, register, lock_entry, unlock_entry, drop_reference,
  all_outside,
}
use retyc_k8s_csi.Driver.KeyLock.Invariant.{
  refers, owns, IsCurrent, Invariant, reference-IsTidy, drop_reference-IsTidy, lock_entry-IsTidy,
  unlock_entry-IsTidy, IsCurrent-insert, IsCurrent-delete, IsCurrent-assign,
}

module _ {n : ℕ} {l : KeyLock} {at : ℕ → Caller} (inv : Invariant n l at) (i : ℕ) (lt : i < n) where
  open inv use {tidy, current, counted, owned}

  IsCurrent-at : {p : Caller} → at i ≡ p → IsCurrent l.locks p
  IsCurrent-at here = subst (IsCurrent l.locks) here (current i lt)

  reference-Invariant :
      (key : String) (found : Option ℕ)
      → lookup key l.locks ≡ found
      → at i ≡ outside
      → Invariant n (reference key l found).1 (assign i (waiting key (reference key l found).0) at)
  unfolding reference
  reference-Invariant key (some e) h here = record {
    tidy = reference-IsTidy l key (some e) h tidy;
    current = λ j below. IsCurrent-assign l.locks at i (waiting key e) h j (λ _. current j below);
    counted = λ x.
        ground (arith, counted x, counted e, tally-assign (refers x) at i (waiting key e) n lt);
    owned = λ x. ground (arith, owned x, tally-assign (owns x) at i (waiting key e) n lt);
  }
  reference-Invariant key none h here = record {
    tidy = reference-IsTidy l key none h tidy;
    current = λ j below.
        IsCurrent-assign (insert key l.next l.locks) at i (waiting key l.next)
          (lookup-insert_self key l.next l.locks) j
          (λ _. IsCurrent-insert key l.next l.locks (at j) h (current j below));
    counted = λ x.
        ground
          (arith, counted x, tidy.unused x, tally-assign (refers x) at i (waiting key l.next) n lt);
    owned = λ x.
        ground (arith, owned x, tidy.free x, tally-assign (owns x) at i (waiting key l.next) n lt);
  }

  lock-Invariant :
      (key : String) (e : ℕ)
      → l.locked e ≡ false
      → at i ≡ waiting key e
      → Invariant n (lock_entry e l) (assign i (inside key e) at)
  unfolding lock_entry
  lock-Invariant key e free here = record {
    tidy = lock_entry-IsTidy l e (tidy.allocated key e (IsCurrent-at here)) tidy;
    current = λ j below.
        IsCurrent-assign l.locks at i (inside key e) (IsCurrent-at here) j (λ _. current j below);
    counted = λ x. ground (arith, counted x, tally-assign (refers x) at i (inside key e) n lt);
    owned = λ x. ground (arith, owned x, tally-assign (owns x) at i (inside key e) n lt);
  }

  unlock-Invariant :
      (key : String) (e : ℕ)
      → at i ≡ inside key e
      → Invariant n (unlock_entry e l) (assign i (leaving key e) at)
  unfolding unlock_entry
  unlock-Invariant key e here = record {
    tidy = unlock_entry-IsTidy l e tidy;
    current = λ j below.
        IsCurrent-assign l.locks at i (leaving key e) (IsCurrent-at here) j (λ _. current j below);
    counted = λ x. ground (arith, counted x, tally-assign (refers x) at i (leaving key e) n lt);
    owned = λ x. ground (
      arith,
      owned x,
      tally-assign (owns x) at i (leaving key e) n lt,
      le-tally (owns x) at i n lt,
    );
  }

  drop-Invariant :
      (key : String) (e : ℕ)
      → at i ≡ leaving key e
      → Invariant n (drop_reference key e l) (assign i outside at)
  unfolding drop_reference
  drop-Invariant key e here = record {
    tidy = drop_reference-IsTidy l key e (IsCurrent-at here) tidy;
    current = λ j below. IsCurrent-assign _ at i outside tt j (λ apart. kept j below apart);
    counted = λ x. ground (
      arith,
      counted x,
      counted e,
      tally-assign (refers x) at i outside n lt,
      le-tally (refers x) at i n lt,
    );
    owned = λ x. ground (arith, owned x, tally-assign (owns x) at i outside n lt);
  }
    where
      kept :
          (j : ℕ)
          → j < n
          → j ≢ i
          → IsCurrent (if nat_eq (l.refs e - 1) 0 then delete key l.locks else l.locks) (at j)
      kept j below apart = elim (Bool-cases (nat_eq (l.refs e - 1) 0)) [
        | inl last ↦ rw last (
            IsCurrent-delete key e l.locks (at j) (IsCurrent-at here)
              (ground (arith, counted e, two-le-tally (refers e) at i j n lt below))
              (current j below))
        | inr more ↦ rw more (current j below)
      ]

  Move-Invariant :
      {p p' : Caller} {l' : KeyLock} → Move l p l' p' → at i ≡ p → Invariant n l' (assign i p' at)
  unfolding register
  Move-Invariant (call key) here = reference-Invariant key (lookup key l.locks) refl here
  Move-Invariant (acquire {key} {e} free) here = lock-Invariant key e free here
  Move-Invariant (unlock {key} {e}) here = unlock-Invariant key e here
  Move-Invariant (leave {key} {e}) here = drop-Invariant key e here

outside-Invariant : (n : ℕ) → Invariant n all_outside.lock all_outside.at
unfolding lookup
outside-Invariant n = record {
  tidy = record {
    allocated = λ key e found. absurd (ground arith);
    unused = λ e far. refl;
    free = λ e far. refl;
    used = λ key e found. absurd (ground arith);
    distinct = λ key other e found found'. absurd (ground arith);
  };
  current = λ i below. tt;
  counted = λ e. sym (tally-eq_zero (refers e) _ n (λ i below. refl));
  owned = λ e. tally-eq_zero (owns e) _ n (λ i below. refl);
}

-- The invariant holds in every state that `n` callers reach.
pub Reach-Invariant : {n : ℕ} {s : Callers} → Reach n s → Invariant n s.lock s.at
Reach-Invariant {n} begin = outside-Invariant n
Reach-Invariant (step r (move i lt m)) = Move-Invariant (Reach-Invariant r) i lt m refl
