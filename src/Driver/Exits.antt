-- ===== src/Driver/Exits.antt =====
-- node.go: the reports of how mount pods ended, as Events on the claims. `Reports` is the field
-- exitReported of the NodeServer, with the events recorded so far, the last one first.
pub mod Once
use retyc_k8s_csi.Prelude.{
  String, Bool, true, false, not, ◌&&◌, ◌||◌, Option, none, some, List, [], ◌∷◌, ℤ, pos, negsuc,
  is_zero, nat_eq, keep, contains, is_some, ◌==◌, if◌then◌else◌,
}
use retyc_k8s_csi.Mountpod.Exit.{exit_failed, lost_writes}
use retyc_k8s_csi.Mountpod.Pod.{
  Pod, Phase, phase_absent, phase_pending, phase_running, phase_terminating, phase_exited, State,
}

-- The Event that emitExit records, if any: WritesLost, MountFailed with whether the pod was ready before,
-- MountOOMKilled with whether the kernel told so.
pub data ExitEvent : Type 0 where
  no_event writes_lost_event : ExitEvent
  mount_failed_event oom_event : Bool → ExitEvent

abbrev is_killed : ℤ → Bool
is_killed (pos code) = nat_eq code 137
is_killed (negsuc code) = false

abbrev is_failed : ℤ → Bool
is_failed (pos code) = nat_eq code exit_failed
is_failed (negsuc code) = false

abbrev not_deleted : Option Pod → Bool
not_deleted none = false
not_deleted (some pod) = not (is_some pod.deletion_timestamp)

-- killedUnasked, of a state whose exit code is known.
unfoldable pub killed_unasked : State → ℤ → Bool
killed_unasked st code =
    if st.exit_reason == "OOMKilled" then true else is_killed code && not_deleted st.pod

-- emitExit
unfoldable pub exit_event : State → ℤ → ExitEvent
exit_event st code =
    if is_zero code
    then no_event
    else if lost_writes st.exit_code st.exit_message
    then writes_lost_event
    else if is_failed code
    then mount_failed_event st.was_ready
    else if killed_unasked st code
    then oom_event (st.exit_reason == "OOMKilled")
    else no_event

pub record Reports : Type 0 where
  pub reported : List String
  pub events : List (String × ExitEvent)

unfoldable pub emit_exit : State → ℤ → Reports → Reports
emit_exit st code r = record r { events = (st.volume_id, exit_event st code) ∷ r.events }

abbrev pub is_over : Phase → Bool
is_over phase_exited = true
is_over phase_terminating = true
is_over _ = false

abbrev pub is_exited : Phase → Bool
is_exited phase_exited = true
is_exited _ = false

unfoldable pub report_early_of : State → Option ℤ → Option Pod → Reports → Reports
report_early_of st none pod r = r
report_early_of st (some code) none r = r
report_early_of st (some code) (some pod) r =
    if contains r.reported pod.uid
    then r
    else emit_exit st code (record r { reported = pod.uid ∷ r.reported })

-- reportExitEarly
unfoldable pub report_exit_early : State → Reports → Reports
report_exit_early st r = if is_over st.phase then report_early_of st st.exit_code st.pod r else r

unfoldable pub report_of : State → Option ℤ → Option Pod → Reports → Reports
report_of st none pod r = r
report_of st (some code) none r = emit_exit st code r
report_of st (some code) (some pod) r =
    if contains r.reported pod.uid
    then record r { reported = keep (λ u. not (u == pod.uid)) r.reported }
    else emit_exit st code r

-- reportExit
unfoldable pub report_exit : State → Reports → Reports
report_exit st r = if is_exited st.phase then report_of st st.exit_code st.pod r else r
