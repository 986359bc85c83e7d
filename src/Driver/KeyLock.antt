-- ===== src/Driver/KeyLock.antt =====
-- internal/driver/keylock.go: one lock per volume, whose entries are made at the first use and dropped
-- at the last. Any number of calls of `Lock` interleave, one access to the shared state at a time.
pub mod Invariant
mod Kept
pub mod Safety
mod Tests
use retyc_k8s_csi.Prelude.{
  ℕ, suc, ◌+◌, ◌-◌, ◌<◌, String, Bool, true, false, Option, none, some, [], Dict, lookup, insert,
  delete, nat_eq, if◌then◌else◌, ◌≡◌, assign,
}

-- keyLock, with the entries that its map points to: the objects keyLockEntry by their number, the
-- numbers from `next` on not allocated yet.
pub record KeyLock : Type 0 where
  pub locks : Dict ℕ
  pub refs : ℕ → ℕ
  pub locked : ℕ → Bool
  pub next : ℕ

-- `e, ok := l.locks[key]` to `e.refs++`
unfoldable pub reference : String → KeyLock → Option ℕ → ℕ × KeyLock
reference key l (some e) = (e, record l { refs = assign e (l.refs e + 1) l.refs })
reference key l none = (
  l.next,
  record {
    locks = insert key l.next l.locks;
    refs = assign l.next 1 l.refs;
    locked = assign l.next false l.locked;
    next = suc l.next;
  },
)

-- The part of Lock under `l.mu`: the entry of the key, referenced once more.
unfoldable pub register : String → KeyLock → ℕ × KeyLock
register key l = reference key l (lookup key l.locks)

-- `e.Lock()` once it returns, and `e.Unlock()`.
unfoldable pub lock_entry : ℕ → KeyLock → KeyLock
lock_entry e l = record l { locked = assign e true l.locked }

unfoldable pub unlock_entry : ℕ → KeyLock → KeyLock
unlock_entry e l = record l { locked = assign e false l.locked }

-- The part of unlock under `l.mu`: one reference less, and the entry dropped with the last one.
unfoldable pub drop_reference : String → ℕ → KeyLock → KeyLock
drop_reference key e l =
    let refs = assign e (l.refs e - 1) l.refs in
    record l {
      locks = if nat_eq (l.refs e - 1) 0 then delete key l.locks else l.locks;
      refs = refs;
    }

-- Where a caller stands: outside, in `e.Lock()`, between Lock and unlock, after `e.Unlock()`.
pub data Caller : Type 0 where
  outside : Caller
  waiting inside leaving : (key : String) (entry : ℕ) → Caller

-- One step of one caller: `l.mu` makes a step of what it guards, and a wait for an entry ends in a step
-- that finds it unlocked.
pub data Move (l : KeyLock) : Caller → KeyLock → Caller → Type 0 where
  call : (key : String) → Move l outside (register key l).1 (waiting key (register key l).0)
  acquire :
      {key : String} {e : ℕ}
      → l.locked e ≡ false
      → Move l (waiting key e) (lock_entry e l) (inside key e)
  unlock : {key : String} {e : ℕ} → Move l (inside key e) (unlock_entry e l) (leaving key e)
  leave : {key : String} {e : ℕ} → Move l (leaving key e) (drop_reference key e l) outside

-- The node server's lock and its callers: requests and the workers of the recovery.
pub record Callers : Type 0 where
  pub lock : KeyLock
  pub at : ℕ → Caller

pub data Step (n : ℕ) (s : Callers) : Callers → Type 0 where
  move :
      (i : ℕ) {l : KeyLock} {p : Caller}
      → i < n
      → Move s.lock (s.at i) l p
      → Step n s (record { lock = l; at = assign i p s.at })

-- The zero value of keyLock.
abbrev pub new_lock : KeyLock
new_lock = record { locks = []; refs = λ _. 0; locked = λ _. false; next = 0 }

abbrev pub all_outside : Callers
all_outside = record { lock = new_lock; at = λ _. outside }

-- What `n` callers reach.
pub data Reach (n : ℕ) : Callers → Type 0 where
  begin : Reach n all_outside
  step : {s t : Callers} → Reach n s → Step n s t → Reach n t
