-- ===== src/Driver/KeyLock/Tests.antt =====
-- Runs of two callers of the lock of one volume.
use retyc_k8s_csi.Prelude.{ℕ, none, lookup, insert, ◌≡◌, ◌⊎◌, refl, arith, assign}
use retyc_k8s_csi.Driver.KeyLock.{
  KeyLock, Caller, outside, waiting, inside, leaving, call, acquire, unlock, leave, Callers, Step,
  move, Reach, begin, step, register, reference, lock_entry, unlock_entry, drop_reference,
  all_outside,
}
use retyc_k8s_csi.Driver.KeyLock.Safety.{
  one_inside, nothing_left, MayEnter, IsOccupied, no_deadlock, owners, OwnerStep, Step-refines,
}

abbrev after : Callers → ℕ → KeyLock → Caller → Callers
after s i l p = record { lock = l; at = assign i p s.at }

-- Both callers ask for the volume, and the first one enters.
abbrev one_asks : Callers
one_asks = after all_outside 0 (register "v" all_outside.lock).1 (waiting "v" 0)

abbrev both_ask : Callers
both_ask = after one_asks 1 (register "v" one_asks.lock).1 (waiting "v" 0)

abbrev one_enters : Callers
one_enters = after both_ask 0 (lock_entry 0 both_ask.lock) (inside "v" 0)

first_call : Step 2 all_outside one_asks
unfolding register reference lookup
first_call = move 0 (omega arith) (call "v")

second_call : Step 2 one_asks both_ask
unfolding register reference lookup insert
second_call = move 1 (omega arith) (call "v")

both_ask-Reach : Reach 2 both_ask
both_ask-Reach = step (step begin first_call) second_call

first_enters : Step 2 both_ask one_enters
unfolding register reference lookup insert
first_enters = move 0 (omega arith) (acquire refl)

one_enters-Reach : Reach 2 one_enters
one_enters-Reach = step both_ask-Reach first_enters

one_inside_example : ◌≡◌ {A = ℕ} 0 0
one_inside_example =
    one_inside {key = "v"} one_enters-Reach 0 0 (omega arith) (omega arith) refl refl

no_deadlock_example : MayEnter 2 one_enters 1 "v" 0 ⊎ IsOccupied 2 one_enters "v"
no_deadlock_example = no_deadlock one_enters-Reach 1 (omega arith) refl

Step-refines_example :
    (owners one_enters ≡ owners both_ask) ⊎ OwnerStep 2 (owners both_ask) (owners one_enters)
Step-refines_example = Step-refines both_ask-Reach first_enters

-- The only caller leaves: the entry goes with it.
abbrev enters : Callers
enters = after one_asks 0 (lock_entry 0 one_asks.lock) (inside "v" 0)

abbrev leaves : Callers
leaves = after enters 0 (unlock_entry 0 enters.lock) (leaving "v" 0)

abbrev gone : Callers
gone = after leaves 0 (drop_reference "v" 0 leaves.lock) outside

gone-Reach : Reach 1 gone
unfolding register reference lookup
gone-Reach =
    step
      (step
        (step (step begin (move 0 (omega arith) (call "v"))) (move 0 (omega arith) (acquire refl)))
        (move 0 (omega arith) unlock))
      (move 0 (omega arith) leave)

nothing_left_example : lookup "v" gone.lock.locks ≡ none
nothing_left_example = nothing_left gone-Reach (λ i below. ground arith) "v"
