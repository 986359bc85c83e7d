-- ===== src/Driver/KeyLock/Invariant.antt =====
-- What holds of the lock and its callers in every reachable state, kept by every step.
use retyc_k8s_csi.Prelude.{
  ℕ, ◌≤◌, ◌<◌, String, false, Option, none, some, Dict, lookup, insert, delete, lookup-insert,
  lookup-delete, nat_eq, if◌then◌else◌, ◌≡◌, ◌≢◌, arith, eq_iff, assign, tally, Bool-cases, inl,
  inr,
}
use retyc_k8s_csi.Driver.KeyLock.{
  KeyLock, Caller, outside, waiting, inside, leaving, reference, lock_entry, unlock_entry,
  drop_reference,
}

-- 1 for a caller that keeps a reference to the entry, and for one that owns its mutex.
abbrev pub refers : ℕ → Caller → ℕ
refers e outside = 0
refers e (waiting key e') = if nat_eq e e' then 1 else 0
refers e (inside key e') = if nat_eq e e' then 1 else 0
refers e (leaving key e') = if nat_eq e e' then 1 else 0

abbrev pub owns : ℕ → Caller → ℕ
owns e (inside key e') = if nat_eq e e' then 1 else 0
owns e _ = 0

-- The entry that a caller keeps is the one of its key in the map.
abbrev pub IsCurrent : Dict ℕ → Caller → Type 0
IsCurrent locks outside = Unit
IsCurrent locks (waiting key e) = lookup key locks ≡ some e
IsCurrent locks (inside key e) = lookup key locks ≡ some e
IsCurrent locks (leaving key e) = lookup key locks ≡ some e

-- The lock by itself: entries are allocated, referenced and of one key each.
pub record IsTidy (l : KeyLock) : Type 0 where
  pub allocated : (key : String) (e : ℕ) → lookup key l.locks ≡ some e → e < l.next
  pub unused : (e : ℕ) → l.next ≤ e → l.refs e ≡ 0
  pub free : (e : ℕ) → l.next ≤ e → l.locked e ≡ false
  pub used : (key : String) (e : ℕ) → lookup key l.locks ≡ some e → 1 ≤ l.refs e
  pub distinct :
      (key other : String) (e : ℕ)
      → lookup key l.locks ≡ some e
      → lookup other l.locks ≡ some e
      → key ≡ other

-- The lock and its callers: the references and the owners that the entries count are the callers'.
pub record Invariant (n : ℕ) (l : KeyLock) (at : ℕ → Caller) : Type 0 where
  pub tidy : IsTidy l
  pub current : (i : ℕ) → i < n → IsCurrent l.locks (at i)
  pub counted : (e : ℕ) → l.refs e ≡ tally (refers e) at n
  pub owned : (e : ℕ) → tally (owns e) at n ≡ (if l.locked e then 1 else 0)

-- A new reference to the entry that a lookup found, or to a new one.
pub reference-IsTidy :
    (l : KeyLock) (key : String) (found : Option ℕ)
    → lookup key l.locks ≡ found
    → IsTidy l
    → IsTidy (reference key l found).1
unfolding reference
reference-IsTidy l key (some e) h t = record {
  allocated = t.allocated;
  unused = λ x far. ground (arith, t.unused x far, t.allocated key e h);
  free = t.free;
  used = λ asked x found. ground (arith, t.used asked x found);
  distinct = t.distinct;
}
reference-IsTidy l key none h t = record {
  allocated =
      λ asked x found. ground (arith, lookup-insert key asked l.next l.locks, t.allocated asked x);
  unused = λ x far. ground (arith, t.unused x);
  free = λ x far. ground (arith, t.free x);
  used = λ asked x found.
      ground (arith, lookup-insert key asked l.next l.locks, t.used asked x, t.allocated asked x);
  distinct = λ asked other x found found'. ground (
    arith,
    lookup-insert key asked l.next l.locks,
    lookup-insert key other l.next l.locks,
    eq_iff key asked,
    eq_iff key other,
    t.distinct asked other x,
    t.allocated asked x,
    t.allocated other x,
  );
}

pub drop_reference-IsTidy :
    (l : KeyLock) (key : String) (e : ℕ)
    → lookup key l.locks ≡ some e
    → IsTidy l
    → IsTidy (drop_reference key e l)
unfolding drop_reference
drop_reference-IsTidy l key e h t = record {
  allocated = λ asked x found. ground (arith, lookup-delete key asked l.locks, t.allocated asked x);
  unused = λ x far. ground (arith, t.unused x, t.unused e);
  free = t.free;
  used = λ asked x found. ground (
    arith,
    lookup-delete key asked l.locks,
    eq_iff key asked,
    t.used asked x,
    t.distinct key asked e,
  );
  distinct = λ asked other x found found'. ground (
    arith,
    lookup-delete key asked l.locks,
    lookup-delete key other l.locks,
    t.distinct asked other x,
  );
}

pub lock_entry-IsTidy : (l : KeyLock) (e : ℕ) → e < l.next → IsTidy l → IsTidy (lock_entry e l)
unfolding lock_entry
lock_entry-IsTidy l e lt t = record {
  allocated = t.allocated;
  unused = t.unused;
  free = λ x far. ground (arith, t.free x);
  used = t.used;
  distinct = t.distinct;
}

pub unlock_entry-IsTidy : (l : KeyLock) (e : ℕ) → IsTidy l → IsTidy (unlock_entry e l)
unfolding unlock_entry
unlock_entry-IsTidy l e t = record {
  allocated = t.allocated;
  unused = t.unused;
  free = λ x far. ground (arith, t.free x);
  used = t.used;
  distinct = t.distinct;
}

pub IsCurrent-insert :
    (key : String) (e : ℕ) (locks : Dict ℕ) (p : Caller)
    → lookup key locks ≡ none
    → IsCurrent locks p
    → IsCurrent (insert key e locks) p
IsCurrent-insert key e locks outside h c = tt
IsCurrent-insert key e locks (waiting k x) h c =
    ground (arith, lookup-insert key k e locks, eq_iff key k)
IsCurrent-insert key e locks (inside k x) h c =
    ground (arith, lookup-insert key k e locks, eq_iff key k)
IsCurrent-insert key e locks (leaving k x) h c =
    ground (arith, lookup-insert key k e locks, eq_iff key k)

pub IsCurrent-delete :
    (key : String) (e : ℕ) (locks : Dict ℕ) (p : Caller)
    → lookup key locks ≡ some e
    → refers e p ≡ 0
    → IsCurrent locks p
    → IsCurrent (delete key locks) p
IsCurrent-delete key e locks outside h away c = tt
IsCurrent-delete key e locks (waiting k x) h away c =
    ground (arith, lookup-delete key k locks, eq_iff key k)
IsCurrent-delete key e locks (inside k x) h away c =
    ground (arith, lookup-delete key k locks, eq_iff key k)
IsCurrent-delete key e locks (leaving k x) h away c =
    ground (arith, lookup-delete key k locks, eq_iff key k)

pub IsCurrent-assign :
    (locks : Dict ℕ) (at : ℕ → Caller) (i : ℕ) (p : Caller)
    → IsCurrent locks p
    → (j : ℕ) → (j ≢ i → IsCurrent locks (at j))
    → IsCurrent locks (assign i p at j)
IsCurrent-assign locks at i p c j others = elim (Bool-cases (nat_eq i j)) [
  | inl same ↦ rw same c
  | inr apart ↦ rw apart (others (λ e. ground arith))
]
