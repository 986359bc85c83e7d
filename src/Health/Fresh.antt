-- ===== src/Health/Fresh.antt =====
-- health.go: how old an answer of Cached is.
use retyc_k8s_csi.Prelude.{
  ℕ, ◌+◌, ◌≤◌, ◌<◌, String, Bool, true, false, Option, none, some, if◌then◌else◌, ◌≡◌, refl, arith,
}
use retyc_k8s_csi.Health.{CachedState, cached, is_recent, check_again}

module _ {W : Type 0} (clock : W → ℕ) (check : W → Option String × W) (ttl : ℕ) where
  -- The states that calls reach, between which time passes.
  pub data Reach : CachedState W → Type 0 where
    start : (w : W) → Reach (record { last = none; checked = none; world = w })
    pass :
        {c : CachedState W}
        → Reach c
        → (w : W) → clock c.world ≤ clock w
        → Reach (record c { world = w })
    call : {c : CachedState W} → Reach c → Reach (cached clock check ttl c).1

  -- The answer kept is one that the check gave, which ended at the time kept.
  abbrev IsKept : CachedState W → Type 0
  IsKept c =
      (t : ℕ)
      → c.checked ≡ some t
      → (w : W) × (c.last ≡ (check w).0) × (clock (check w).1 ≡ t) × (t ≤ clock c.world)

  -- What a call makes of a state: an answer younger than ttl given again, or the check asked, which no
  -- call did before or the last did ttl ago.
  pub data Answer (c : CachedState W) : Option String × CachedState W → Type 0 where
    kept :
        (w : W)
        → c.last ≡ (check w).0
        → clock (check w).1 ≤ clock c.world
        → clock c.world < clock (check w).1 + ttl
        → Answer c (c.last, c)
    first : c.checked ≡ none → Answer c (check_again clock (check c.world))
    again :
        (t : ℕ)
        → c.checked ≡ some t
        → t + ttl ≤ clock c.world
        → Answer c (check_again clock (check c.world))

  answer_of :
      (c : CachedState W)
      → IsKept c
      → (x : Option ℕ) → c.checked ≡ x
      → (b : Bool) → is_recent ttl x (clock c.world) ≡ b
      → Answer c (if b then (c.last, c) else check_again clock (check c.world))
  unfolding is_recent
  answer_of c k none e true h = ground arith
  answer_of c k none e false h = first e
  answer_of c k (some t) e true h =
      let (w, said, ended, before) = k t e in kept w said (ground arith) (ground arith)
  answer_of c k (some t) e false h = again t e (ground arith)

  Answer-IsKept :
      (c : CachedState W) (x : Option String × CachedState W) → IsKept c → Answer c x → IsKept x.1
  unfolding check_again
  Answer-IsKept c x k (kept w said before within) = k
  Answer-IsKept c x k (first e) = λ t e'. (c.world, refl, ground arith, ground arith)
  Answer-IsKept c x k (again t' e within) = λ t e'. (c.world, refl, ground arith, ground arith)

  cached-Answer : (c : CachedState W) → IsKept c → Answer c (cached clock check ttl c)
  unfolding cached
  cached-Answer c k = answer_of c k _ refl _ refl

  Reach-IsKept : {c : CachedState W} → Reach c → IsKept c
  Reach-IsKept (start w) = λ t e. ground arith
  Reach-IsKept (pass r w later) =
      λ t e. let (w0, said, ended, before) = Reach-IsKept r t e in (w0, said, ended, ground arith)
  Reach-IsKept (call {c} r) = let k = Reach-IsKept r in Answer-IsKept c _ k (cached-Answer c k)

  -- A call of a cached check in a reachable state answers what the check gave less than ttl ago, asking
  -- nothing, or asks it, which was never asked before or for the last time ttl ago or longer.
  pub cached-IsFresh : {c : CachedState W} → Reach c → Answer c (cached clock check ttl c)
  cached-IsFresh {c} r = cached-Answer c (Reach-IsKept r)
