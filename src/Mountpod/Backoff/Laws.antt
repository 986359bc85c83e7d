-- ===== src/Mountpod/Backoff/Laws.antt =====
-- The restart states: an exit is counted once, give-ups, and what ends them.
use Prim.Native.Nat.{min}
use retyc_k8s_csi.Prelude.{
  ℕ, suc, ◌+◌, ◌*◌, ◌/◌, ◌%◌, ◌^◌, ◌≤◌, ◌<◌, String, ◌≡◌, ◌≢◌, refl, ap, ◌∙◌, sym, Option, none,
  some, Dict, lookup, insert, lookup-insert_self, pos, pos_part, ==_refl, eq_iff, arith,
}
use retyc_k8s_csi.Mountpod.Backoff.{
  Policy, Backoff, BackoffEntry, PodExit, restart_delay, entry_for, entry, schedule, record_in,
  record_exit,
}
use retyc_k8s_csi.Mountpod.Backoff.Delay.{restart_delay_capped}

record_in-twice :
    (policy : Policy) (now now' rand rand' : ℕ) (x : PodExit) (e : BackoffEntry)
    → x.uid ≢ ""
    → record_in policy now' rand' x (record_in policy now rand x e) ≡ record_in policy now rand x e
unfolding record_in
record_in-twice policy now now' rand rand' x e h =
    ground (arith, eq_iff x.uid "", eq_iff x.uid e.last_pod, ==_refl x.uid)

pub hash-record_in :
    (policy : Policy) (now rand : ℕ) (x : PodExit) (e : BackoffEntry)
    → (record_in policy now rand x e).hash ≡ e.hash
unfolding record_in
hash-record_in policy now rand x e = ground arith

hash-entry_for : (o : Option BackoffEntry) (h : String) → (entry_for o h).hash ≡ h
unfolding entry_for
hash-entry_for none h = refl
hash-entry_for (some e) h = ground (arith, eq_iff e.hash h)

pub hash-entry : (m : Dict BackoffEntry) (v h : String) → (entry m v h).hash ≡ h
unfolding entry
hash-entry m v h = hash-entry_for (lookup v m) h

-- The entry read back after an entry of the same config was stored.
pub entry-insert :
    (m : Dict BackoffEntry) (v h : String) (e : BackoffEntry)
    → e.hash ≡ h
    → entry (insert v e m) v h ≡ e
unfolding entry entry_for
entry-insert m v h e s = rw (lookup-insert_self v e m) (ground (arith, eq_iff e.hash h))

-- The exit of one pod is counted once: the recovery and kubelet's retries may see it again, at any
-- time, and the restart state of the volume stays as the first record left it.
pub recorded_once :
    (policy : Policy) (now now' rand rand' : ℕ) (v h : String) (x : PodExit) (m : Dict BackoffEntry)
    → x.uid ≢ ""
    → entry (record_exit policy now' rand' v h x (record_exit policy now rand v h x m)) v h
      ≡ entry (record_exit policy now rand v h x m) v h
unfolding record_exit
recorded_once policy now now' rand rand' v h x m u =
    let e = record_in policy now rand x (entry m v h) in
    let first : entry (insert v e m) v h ≡ e =
      entry-insert m v h e (hash-record_in policy now rand x (entry m v h) ∙ hash-entry m v h) in
    let again =
      ap (record_in policy now' rand' x) first
      ∙ record_in-twice policy now now' rand rand' x (entry m v h) u in
    entry-insert _ v h _ (hash-record_in policy now' rand' x _ ∙ hash-entry (insert v e m) v h)
    ∙ again
    ∙ sym first

jitter : (d rand : ℕ) → rand % (d / 10 + 1) ≤ d / 10
jitter d rand = grind arith

abbrev delay_of : Policy → Backoff → ℕ
delay_of policy b = pos_part (
    restart_delay (pos policy.restart_backoff) (pos policy.max_restart_backoff)
      b.consecutive_failures)

next_restart-schedule :
    (policy : Policy) (now rand : ℕ) (b : Backoff)
    → b.fatal_exits < policy.max_fatal_exits
    → (schedule policy now rand b).next_restart
      ≡ now + (delay_of policy b + rand % (delay_of policy b / 10 + 1))
unfolding schedule
next_restart-schedule policy now rand b below = ground arith

-- An exit that does not end in a give-up sets the restart between the delay, doubled at each failure in
-- a row and capped, and a tenth more, from the time of the record.
pub schedule_bounds :
    (policy : Policy) (now rand failures : ℕ) (b : Backoff)
    → policy.max_restart_backoff ≤ 2 ^ 62
    → b.consecutive_failures ≡ suc failures
    → b.fatal_exits < policy.max_fatal_exits
    → let d = min (policy.restart_backoff * 2 ^ failures) policy.max_restart_backoff in
      let t = (schedule policy now rand b).next_restart in (now + d ≤ t) × (t ≤ now + d + d / 10)
unfolding schedule
schedule_bounds policy now rand failures b cap f below =
    let d = min (policy.restart_backoff * 2 ^ failures) policy.max_restart_backoff in
    let next : (schedule policy now rand b).next_restart ≡ now + (d + rand % (d / 10 + 1)) =
      next_restart-schedule policy now rand b below
      ∙ ap (λ t. now + (t + rand % (t / 10 + 1)))
          (rw f (
            ap pos_part (
              restart_delay_capped policy.restart_backoff policy.max_restart_backoff failures
                cap))) in
    rw next (omega (arith, jitter d rand))
