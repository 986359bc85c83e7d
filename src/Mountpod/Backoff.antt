-- ===== src/Mountpod/Backoff.antt =====
-- backoff.go: the restart state of the volumes of a node. Times and durations are nanoseconds, 0 is the
-- zero time. Each function runs under the Manager's mutex, so it is one step on the map. The counters
-- are plain numbers: a count of exits stays far below the 2^63 of a Go int.
pub mod Delay
pub mod Laws
pub mod GiveUp
use retyc_k8s_csi.Prelude.{
  ℕ, zero, suc, ◌+◌, ◌-◌, ◌*◌, ◌/◌, ◌%◌, ◌^◌, String, Bool, true, false, not, ◌&&◌, Option, none,
  some, List, [], ◌∷◌, map, Dict, lookup, insert, delete, ℤ, pos, negsuc, ltb_ℤ, pos_part, ltb, leb,
  ◌==◌, if◌then◌else◌,
}
use retyc_k8s_csi.Mountpod.Exit.{is_fatal}

-- The restart policy of Config, with its defaults applied.
pub record Policy : Type 0 where
  pub restart_backoff : ℕ
  pub max_restart_backoff : ℕ
  pub stable_after : ℕ
  pub max_fatal_exits : ℕ

pub record Backoff : Type 0 where
  pub consecutive_failures : ℕ
  pub fatal_exits : ℕ
  pub last_exit_code : ℤ
  pub last_exit_message : List ℕ
  pub next_restart : ℕ
  pub gave_up : Bool

-- The zero Backoff.
abbrev pub fresh : Backoff
fresh = record {
  consecutive_failures = 0;
  fatal_exits = 0;
  last_exit_code = pos 0;
  last_exit_message = [];
  next_restart = 0;
  gave_up = false;
}

pub record BackoffEntry : Type 0 where
  pub backoff : Backoff
  pub hash : String
  pub last_pod : String
  pub staging : String

abbrev pub fresh_entry : String → BackoffEntry
fresh_entry hash = record { backoff = fresh; hash = hash; last_pod = ""; staging = "" }

-- An int64 doubled, with its wrap-around.
unfoldable pub double : ℤ → ℤ
double (pos d) = if ltb (d * 2) (2 ^ 63) then pos (d * 2) else negsuc (2 ^ 64 - d * 2 - 1)
double (negsuc d) =
    if leb (d * 2 + 2) (2 ^ 63) then negsuc (d * 2 + 1) else pos (2 ^ 64 - (d * 2 + 2))

-- The loop of restartDelay, over the rounds left.
unfoldable pub double_below : ℤ → ℕ → ℤ → ℤ
double_below max_delay zero delay = delay
double_below max_delay (suc rounds) delay = elim (ltb_ℤ delay max_delay) [
  | true ↦ double_below max_delay rounds (double delay)
  | false ↦ delay
]

unfoldable pub restart_delay : ℤ → ℤ → ℕ → ℤ
restart_delay base max_delay consecutive_failures =
    let delay = double_below max_delay (consecutive_failures - 1) base in
    if ltb_ℤ max_delay delay then max_delay else delay

-- Manager.backoff: the entry of a volume for a config, a fresh one when the config changed.
unfoldable pub entry_for : Option BackoffEntry → String → BackoffEntry
entry_for none hash = fresh_entry hash
entry_for (some e) hash = if e.hash == hash then e else fresh_entry hash

unfoldable pub entry : Dict BackoffEntry → String → String → BackoffEntry
entry backoffs volume_id hash = entry_for (lookup volume_id backoffs) hash

-- How a pod ended: its UID, staging path, code, message, and how long its container ran.
pub record PodExit : Type 0 where
  pub uid : String
  pub staging : String
  pub code : ℤ
  pub message : List ℕ
  pub ran : ℕ

-- The counters after an exit.
unfoldable pub count : Policy → PodExit → Backoff → Backoff
count policy x b =
    let failures = if leb policy.stable_after x.ran then 0 else b.consecutive_failures in
    record b {
      consecutive_failures = failures + 1;
      last_exit_code = x.code;
      last_exit_message = x.message;
      fatal_exits = if is_fatal x.code then b.fatal_exits + 1 else 0;
    }

-- The restart time: none after a give-up, otherwise the delay with up to 10% of jitter; `rand` is what
-- the generator draws, taken modulo delay/10 + 1.
unfoldable pub schedule : Policy → ℕ → ℕ → Backoff → Backoff
schedule policy now rand b =
    if leb policy.max_fatal_exits b.fatal_exits
    then record b { gave_up = true; next_restart = 0 }
    else let delay = pos_part (
        restart_delay (pos policy.restart_backoff) (pos policy.max_restart_backoff)
          b.consecutive_failures) in
      record b { next_restart = now + (delay + rand % (delay / 10 + 1)) }

unfoldable pub record_in : Policy → ℕ → ℕ → PodExit → BackoffEntry → BackoffEntry
record_in policy now rand x e = if not (x.uid == "") && x.uid == e.last_pod then e else record e {
  backoff = schedule policy now rand (count policy x e.backoff);
  last_pod = x.uid;
  staging = x.staging;
}

-- recordExit; the state that it returns is that of `backoff_state`.
unfoldable pub record_exit :
    Policy → ℕ → ℕ → String → String → PodExit → Dict BackoffEntry → Dict BackoffEntry
record_exit policy now rand volume_id hash x backoffs =
    insert volume_id (record_in policy now rand x (entry backoffs volume_id hash)) backoffs

-- backoffState: it stores the fresh entry that it may make.
unfoldable pub backoff_state : String → String → Dict BackoffEntry → Backoff × Dict BackoffEntry
backoff_state volume_id hash backoffs =
    let e = entry backoffs volume_id hash in (e.backoff, insert volume_id e backoffs)

unfoldable pub reset_backoff : String → Dict BackoffEntry → Dict BackoffEntry
reset_backoff volume_id backoffs = elim (lookup volume_id backoffs) [
  | none ↦ backoffs
  | some e ↦ insert volume_id (record e { backoff = fresh }) backoffs
]

-- forget keeps a give-up, Forget (here `forget_all`) drops it too.
unfoldable pub forget : String → Dict BackoffEntry → Dict BackoffEntry
forget volume_id backoffs = elim (lookup volume_id backoffs) [
  | none ↦ backoffs
  | some e ↦ if e.backoff.gave_up then backoffs else delete volume_id backoffs
]

unfoldable pub forget_all : String → Dict BackoffEntry → Dict BackoffEntry
forget_all = delete

unfoldable pub start_over : String → String → Dict BackoffEntry → Dict BackoffEntry
start_over volume_id hash backoffs =
    let e = entry backoffs volume_id hash in
    insert volume_id (if e.backoff.gave_up then record e { backoff = fresh } else e) backoffs

-- Volumes: the volumes with a restart state and the staging path of their last pod.
unfoldable pub volumes : Dict BackoffEntry → Dict String
volumes = map λ p. (p.0, p.1.staging)
