-- ===== src/Mountpod/Backoff/GiveUp.antt =====
-- When a volume gives up, and what ends a give-up.
use retyc_k8s_csi.Prelude.{
  ℕ, ◌+◌, String, ◌≡◌, ◌≢◌, refl, ap, sym, ◌∙◌, subst, Bool, true, false, not, ◌&&◌, ◌||◌, none,
  some, List, [], ◌∷◌, Dict, lookup, insert, delete, lookup-insert, lookup-delete, leb, ◌==◌,
  eq_iff, if◌then◌else◌, arith, Bool-cases, Option-cases, ◌⊎◌, inl, inr,
}
use retyc_k8s_csi.Mountpod.Exit.{is_fatal}
use retyc_k8s_csi.Mountpod.Backoff.{
  Policy, fresh, BackoffEntry, PodExit, entry_for, entry, count, schedule, record_in, record_exit,
  backoff_state, reset_backoff, forget, forget_all, start_over,
}
use retyc_k8s_csi.Mountpod.Backoff.Laws.{hash-record_in, hash-entry, entry-insert}

-- A recorded exit: the time of the record, what the generator draws, the exit.
pub record Recorded : Type 0 where
  pub now : ℕ
  pub rand : ℕ
  pub exit : PodExit

pub record_all : Policy → List Recorded → BackoffEntry → BackoffEntry
record_all policy [] e = e
record_all policy (r ∷ rs) e = record_all policy rs (record_in policy r.now r.rand r.exit e)

-- Each exit is that of another pod than the one before it.
abbrev pub NewPods : String → List Recorded → Type 0
NewPods last [] = Unit {0}
NewPods last (r ∷ rs) = (r.exit.uid ≢ "") × (r.exit.uid ≢ last) × NewPods r.exit.uid rs

abbrev pub fatal_after : ℕ → PodExit → ℕ
fatal_after n x = if is_fatal x.code then n + 1 else 0

-- Whether `limit` fatal exits stand in a row among the exits, `n` having come right before them.
pub reaches : ℕ → ℕ → List Recorded → Bool
reaches limit n [] = false
reaches limit n (r ∷ rs) =
    leb limit (fatal_after n r.exit) || reaches limit (fatal_after n r.exit) rs

fatal-record_in :
    (policy : Policy) (r : Recorded) (e : BackoffEntry)
    → r.exit.uid ≢ ""
    → r.exit.uid ≢ e.last_pod
    → let e' = record_in policy r.now r.rand r.exit e in
      (e'.backoff.fatal_exits ≡ fatal_after e.backoff.fatal_exits r.exit)
      × (e'.backoff.gave_up ≡ (
          leb policy.max_fatal_exits (fatal_after e.backoff.fatal_exits r.exit)
          || e.backoff.gave_up))
      × (e'.last_pod ≡ r.exit.uid)
unfolding record_in schedule count
fatal-record_in policy r e h k = ground (arith, eq_iff r.exit.uid "", eq_iff r.exit.uid e.last_pod)

-- A volume has given up, after the exits of any pods, exactly if it had before or if some
-- `max_fatal_exits` exits in a row had the codes 77 or 78.
pub gave_up-record_all :
    (policy : Policy) (rs : List Recorded) (e : BackoffEntry)
    → NewPods e.last_pod rs
    → (record_all policy rs e).backoff.gave_up
      ≡ (reaches policy.max_fatal_exits e.backoff.fatal_exits rs || e.backoff.gave_up)
unfolding record_all reaches
gave_up-record_all policy [] e h = refl
gave_up-record_all policy (r ∷ rs) e (h, k, later) =
    let e' = record_in policy r.now r.rand r.exit e in
    let (f, g, l) = fatal-record_in policy r e h k in
    let rest = gave_up-record_all policy rs e' (subst (λ u. NewPods u rs) (sym l) later) in
    ground (arith, rest, f, g)

-- The operations on the restart states.
pub data Op : Type 0 where
  records : ℕ → ℕ → String → String → PodExit → Op
  reads resets forgets forgets_all : String → String → Op
  starts_over : String → String → Op

pub apply : Policy → Op → Dict BackoffEntry → Dict BackoffEntry
apply policy (records now rand v h x) m = record_exit policy now rand v h x m
apply policy (reads v h) m = (backoff_state v h m).1
apply policy (resets v h) m = reset_backoff v m
apply policy (forgets v h) m = forget v m
apply policy (forgets_all v h) m = forget_all v m
apply policy (starts_over v h) m = start_over v h m

-- What may end the give-up of a volume for a config: a pod seen ready, Forget, startOver, or another
-- config of the volume.
unfoldable pub may_end : String → String → Op → Bool
may_end v h (records now rand w k x) = w == v && not (k == h)
may_end v h (reads w k) = w == v && not (k == h)
may_end v h (resets w k) = w == v
may_end v h (forgets w k) = false
may_end v h (forgets_all w k) = w == v
may_end v h (starts_over w k) = w == v

abbrev pub given_up : String → String → Dict BackoffEntry → Bool
given_up v h m = (entry m v h).backoff.gave_up

given_up-path :
    (m n : Dict BackoffEntry) (v h : String)
    → lookup v n ≡ lookup v m
    → given_up v h m ≡ true
    → given_up v h n ≡ true
unfolding entry
given_up-path m n v h same g = ap (λ o. (entry_for o h).backoff.gave_up) same ∙ g

given_up-insert_other :
    (m : Dict BackoffEntry) (w v h : String) (e : BackoffEntry)
    → (w == v) ≡ false
    → given_up v h m ≡ true
    → given_up v h (insert w e m) ≡ true
given_up-insert_other m w v h e f g =
    given_up-path m (insert w e m) v h
      (lookup-insert w v e m ∙ ap (λ b. if b then some e else lookup v m) f) g

given_up-delete_other :
    (m : Dict BackoffEntry) (w v h : String)
    → (w == v) ≡ false
    → given_up v h m ≡ true
    → given_up v h (delete w m) ≡ true
given_up-delete_other m w v h f g =
    given_up-path m (delete w m) v h
      (lookup-delete w v m ∙ ap (λ b. if b then none else lookup v m) f) g

gave_up-record_in :
    (policy : Policy) (now rand : ℕ) (x : PodExit) (e : BackoffEntry)
    → e.backoff.gave_up ≡ true
    → (record_in policy now rand x e).backoff.gave_up ≡ true
unfolding record_in schedule count
gave_up-record_in policy now rand x e g = ground arith

-- Storing an entry that keeps the give-up, at the volume and the config or elsewhere.
given_up-insert :
    (m : Dict BackoffEntry) (w v k h : String) (e : BackoffEntry)
    → given_up v h m ≡ true
    → (w == v && not (k == h)) ≡ false
    → e.hash ≡ k
    → ((entry m w k).backoff.gave_up ≡ true → e.backoff.gave_up ≡ true)
    → given_up v h (insert w e m) ≡ true
given_up-insert m w v k h e g same s keeps = elim (Bool-cases (w == v)) [
  | inl t ↦
      let k≡h : k ≡ h = ground (arith, eq_iff k h) in
      let w≡v = (eq_iff w v).0 t in
      let kept = keeps (
        subst (λ j. (entry m w j).backoff.gave_up ≡ true) (sym k≡h)
          (subst (λ j. (entry m j h).backoff.gave_up ≡ true) (sym w≡v) g)) in
      subst (λ j. (entry (insert w e m) j h).backoff.gave_up ≡ true) w≡v
        (ap (λ (x : BackoffEntry). x.backoff.gave_up) (entry-insert m w h e (s ∙ k≡h)) ∙ kept)
  | inr t ↦ given_up-insert_other m w v h e t g
]

reset-cases :
    (m : Dict BackoffEntry) (w : String)
    → (reset_backoff w m ≡ m) ⊎ ((e : BackoffEntry) × (reset_backoff w m ≡ insert w e m))
unfolding reset_backoff
reset-cases m w = elim (Option-cases (lookup w m)) [
  | inl n ↦ inl (ground arith)
  | inr (e, f) ↦ inr (record e { backoff = fresh }, ground arith)
]

given_up-reset :
    (m : Dict BackoffEntry) (w v h : String)
    → (w == v) ≡ false
    → given_up v h m ≡ true
    → given_up v h (reset_backoff w m) ≡ true
given_up-reset m w v h f g = elim (reset-cases m w) [
  | inl s ↦ ap (given_up v h) s ∙ g
  | inr (e, s) ↦ ap (given_up v h) s ∙ given_up-insert_other m w v h e f g
]

-- What `forget` finds has not given up, or stays.
given_up-found :
    (m : Dict BackoffEntry) (v h : String)
    → given_up v h m ≡ true
    → (e : BackoffEntry) × (lookup v m ≡ some e) × (e.backoff.gave_up ≡ true)
unfolding entry entry_for
given_up-found m v h g = elim (Option-cases (lookup v m)) [
  | inl n ↦ absurd (ground arith)
  | inr (e, f) ↦ (e, f, ground (arith, eq_iff e.hash h))
]

forget-given_up :
    (m : Dict BackoffEntry) (v : String) (e : BackoffEntry)
    → lookup v m ≡ some e
    → e.backoff.gave_up ≡ true
    → forget v m ≡ m
unfolding forget
forget-given_up m v e f g = ground arith

forget-cases : (m : Dict BackoffEntry) (w : String) → (forget w m ≡ m) ⊎ (forget w m ≡ delete w m)
unfolding forget
forget-cases m w = elim (Option-cases (lookup w m)) [
  | inl n ↦ inl (ground arith)
  | inr (e, f) ↦ elim (Bool-cases e.backoff.gave_up) [
    | inl g ↦ inl (ground arith)
    | inr g ↦ inr (ground arith)
  ]
]

given_up-forget :
    (m : Dict BackoffEntry) (w v h : String)
    → given_up v h m ≡ true
    → given_up v h (forget w m) ≡ true
given_up-forget m w v h g = elim (Bool-cases (w == v)) [
  | inl t ↦
      let (e, f, gave) = given_up-found m v h g in
      let w≡v = (eq_iff w v).0 t in
      ap (given_up v h) (ap (λ j. forget j m) w≡v ∙ forget-given_up m v e f gave) ∙ g
  | inr t ↦ elim (forget-cases m w) [
    | inl f ↦ ap (given_up v h) f ∙ g
    | inr f ↦ ap (given_up v h) f ∙ given_up-delete_other m w v h t g
  ]
]

-- Whatever happens to the restart states, a volume that gave up stays so for its config, unless its pod
-- is seen ready, it is forgotten by an unstage or the sweep, its exited pod is deleted by hand, or
-- another config of it is tried: a Delete of its pod or more exits do not clear it.
pub give_up_stays :
    (policy : Policy) (op : Op) (v h : String) (m : Dict BackoffEntry)
    → given_up v h m ≡ true
    → may_end v h op ≡ false
    → given_up v h (apply policy op m) ≡ true
unfolding apply may_end record_exit backoff_state forget_all start_over
give_up_stays policy (records now rand w k x) v h m g e =
    given_up-insert m w v k h _ g e (hash-record_in policy now rand x _ ∙ hash-entry m w k)
      (gave_up-record_in policy now rand x (entry m w k))
give_up_stays policy (reads w k) v h m g e =
    given_up-insert m w v k h _ g e (hash-entry m w k) (λ p. p)
give_up_stays policy (resets w k) v h m g e = given_up-reset m w v h e g
give_up_stays policy (forgets w k) v h m g e = given_up-forget m w v h g
give_up_stays policy (forgets_all w k) v h m g e = given_up-delete_other m w v h e g
give_up_stays policy (starts_over w k) v h m g e = given_up-insert_other m w v h _ e g
