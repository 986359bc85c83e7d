-- ===== src/Driver/Watch/Tests.antt =====
-- An update of a mount pod that ended, and a repair that waits for a restart.
use retyc_k8s_csi.Prelude.{none, some, [], ◌∷◌, All, ◌≡◌, refl, true, pos, lookup}
use retyc_k8s_csi.Mountpod.Pod.{
  Pod, container_name, Termination, termination, terminated, finished, was_ready, started,
  ready_since, read_termination, read_status, read_statuses, phase_of, state_of,
}
use retyc_k8s_csi.Driver.Watch.{is_own_pod, on_update, repair, work}
use retyc_k8s_csi.Driver.Watch.Events.{on_update_end}
use retyc_k8s_csi.Driver.Watch.Delays.{IsPatient, work-IsPatient}
use retyc_k8s_csi.Driver.Node.Sample.{pod, calls, server, node_with}

abbrev killed : Termination
killed = record {
  exit_code = pos 137;
  reason = "OOMKilled";
  message = [];
  started_at = 1;
  finished_at = 9;
}

abbrev ended : Pod
ended = record pod {
  phase = "Failed";
  container_statuses =
      record { name = container_name; terminated = some killed; waiting = none; running = none }
      ∷ [];
}

on_update_end_example : on_update "n1" pod ended ≡ some "d1"
unfolding state_of phase_of finished terminated termination was_ready started ready_since
    read_termination read_status read_statuses is_own_pod lookup
on_update_end_example = on_update_end "n1" 10 20 pod ended refl refl refl refl refl refl

work-IsPatient_example :
    let (answer, t) = repair calls server "d1" (node_with (0, true) []) in
    All
      (IsPatient 100 100 answer.retry_at)
      (work calls server (λ u. u) "d1" (node_with (0, true) [])).0
work-IsPatient_example = work-IsPatient calls server (λ u. u) "d1" (node_with (0, true) [])
