-- ===== src/Driver/Exits/Once.antt =====
-- The exit of a mount pod is reported once.
use retyc_k8s_csi.Prelude.{
  ◌≡◌, refl, ap, ◌∙◌, true, false, some, ◌∷◌, ℤ, contains, ==_refl, if◌then◌else◌,
}
use retyc_k8s_csi.Mountpod.Pod.{Pod, phase_exited, State}
use retyc_k8s_csi.Driver.Exits.{
  exit_event, Reports, emit_exit, is_over, is_exited, report_early_of, report_exit_early, report_of,
  report_exit,
}

-- A state of a pod whose mount process ended with a code: it exited, or it is being deleted meanwhile.
pub record Ended (pod : Pod) (code : ℤ) (st : State) : Type 0 where
  pub over : is_over st.phase ≡ true
  pub pod_there : st.pod ≡ some pod
  pub exit_code : st.exit_code ≡ some code

early-Ended :
    (pod : Pod) (code : ℤ) (st : State) (r : Reports)
    → Ended pod code st
    → report_exit_early st r ≡ report_early_of st (some code) (some pod) r
unfolding report_exit_early
early-Ended pod code st r e =
    ap (λ b. if b then report_early_of st st.exit_code st.pod r else r) e.over
    ∙ ap (λ c. report_early_of st c st.pod r) e.exit_code
    ∙ ap (λ p. report_early_of st (some code) p r) e.pod_there

report-Ended :
    (pod : Pod) (code : ℤ) (st : State) (r : Reports)
    → Ended pod code st
    → st.phase ≡ phase_exited
    → report_exit st r ≡ report_of st (some code) (some pod) r
unfolding report_exit
report-Ended pod code st r e released =
    ap (λ p. if is_exited p then report_of st st.exit_code st.pod r else r) released
    ∙ ap (λ c. report_of st c st.pod r) e.exit_code
    ∙ ap (λ p. report_of st (some code) p r) e.pod_there

-- An exit that a stage or the recovery finds, of a pod that exited or is being deleted, is reported then,
-- and neither a later look at such a pod nor its release, once it exited, reports it again, whatever else
-- the later states of the pod say: one event in all, if no report of the pod is noted before.
pub reported_early_once :
    (pod : Pod) (code : ℤ) (st later last : State) (r : Reports)
    → Ended pod code st
    → Ended pod code later
    → Ended pod code last
    → last.phase ≡ phase_exited
    → contains r.reported pod.uid ≡ false
    → (report_exit last (report_exit_early later (report_exit_early st r))).events
      ≡ (st.volume_id, exit_event st code) ∷ r.events
unfolding report_early_of report_of emit_exit
reported_early_once pod code st later last r e e' e'' released fresh =
    let r₁ = emit_exit st code (record r { reported = pod.uid ∷ r.reported }) in
    let first : report_exit_early st r ≡ r₁ = early-Ended pod code st r e ∙ rw fresh refl in
    let second : report_exit_early later r₁ ≡ r₁ =
      early-Ended pod code later r₁ e' ∙ rw (==_refl pod.uid) refl in
    let third : (report_exit last r₁).events ≡ r₁.events =
      ap (λ (s : Reports). s.events) (report-Ended pod code last r₁ e'' released)
      ∙ rw (==_refl pod.uid) refl in
    ap (λ s. (report_exit last (report_exit_early later s)).events) first
    ∙ ap (λ s. (report_exit last s).events) second
    ∙ third
