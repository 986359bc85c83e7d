-- ===== src/Health/Tests.antt =====
-- health.go: a backend that answers from the time 100 on, asked at most once in 60.
use retyc_k8s_csi.Prelude.{
  ℕ, ◌+◌, String, Option, none, some, ltb, if◌then◌else◌, ◌≡◌, refl, subst, ◌≤◌, false, arith,
}
use retyc_k8s_csi.Health.{
  CachedState, cached, is_recent, check_again, probe, probe_answer, readyz, ready_response,
}
use retyc_k8s_csi.Health.Fresh.{Reach, start, pass, call, Answer, cached-IsFresh}

abbrev clock : ℕ → ℕ
clock w = w

abbrev backend : ℕ → Option String × ℕ
backend w = (if ltb w 100 then some "backend down" else none, w + 1)

abbrev begin : CachedState ℕ
begin = record { last = none; checked = none; world = 50 }

abbrev asked : CachedState ℕ
asked = record { last = some "backend down"; checked = some 51; world = 105 }

asked_of_begin :
    ◌≡◌ {A = CachedState ℕ} (record ((cached clock backend 60 begin).1) { world = 105 }) asked
unfolding cached is_recent check_again
asked_of_begin = refl

-- The old answer is given again until its time is over, also by Probe.
kept_answer : (cached clock backend 60 asked).0 ≡ some "backend down"
unfolding cached is_recent
kept_answer = refl

new_answer : (cached clock backend 60 (record asked { world = 111 })).0 ≡ none
unfolding cached is_recent check_again
new_answer = refl

not_ready : (probe (some (cached clock backend 60)) asked).0 ≡ false
unfolding probe probe_answer cached is_recent
not_ready = refl

not_ready_response :
    (readyz (some (cached clock backend 60)) asked).0
    ≡ record { code = 503; body = "not ready: backend down\n" }
unfolding readyz ready_response cached is_recent
not_ready_response = refl

late : clock (cached clock backend 60 begin).1.world ≤ clock 105
unfolding cached is_recent check_again
late = omega arith

asked-Reach : Reach clock backend 60 asked
asked-Reach = subst (Reach clock backend 60) asked_of_begin (pass (call (start 50)) 105 late)

cached-IsFresh_example : Answer clock backend 60 asked (cached clock backend 60 asked)
cached-IsFresh_example = cached-IsFresh clock backend 60 asked-Reach
