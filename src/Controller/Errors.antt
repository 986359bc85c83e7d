-- ===== src/Controller/Errors.antt =====
-- controller.go: apiError and updateError.
use retyc_k8s_csi.Prelude.{
  ◌≡◌, ◌≢◌, refl, Bool, true, false, ◌||◌, String, ◌==◌, if◌then◌else◌, arith, eq_iff,
}
use retyc_k8s_csi.Retyc.Errors.{
  CliError, Failure, cli, is_storage_exhausted, is_not_enlarged, is_capacity_refused, is_validation,
  is_unauthenticated, is_config, is_cli_too_old, is_forbidden, is_rate_limited, is_not_found,
}
use retyc_k8s_csi.Retyc.Kind
use retyc_k8s_csi.Retyc.Errors.Laws.{
  storage_exhausted-kind, not_enlarged-kind, capacity_refused-kind, validation-kind,
  unauthenticated-kind, config-kind, cli_too_old-kind, forbidden-kind, rate_limited-kind,
}
use retyc_k8s_csi.Driver.Status.{
  Status, status, invalid_argument, failed_precondition, out_of_range, not_found,
  resource_exhausted, permission_denied, unavailable, internal, renew_token, fix_passphrase,
  upgrade_driver,
}

unfoldable pub api_error : Failure → Status
api_error e =
    if is_storage_exhausted e
    then status resource_exhausted
    else if is_not_enlarged e || is_capacity_refused e
    then status out_of_range
    else if is_validation e
    then status invalid_argument
    else if is_unauthenticated e
    then record { code = failed_precondition; hint = renew_token }
    else if is_config e
    then record { code = failed_precondition; hint = fix_passphrase }
    else if is_cli_too_old e
    then record { code = failed_precondition; hint = upgrade_driver }
    else if is_forbidden e
    then status permission_denied
    else if is_rate_limited e
    then status unavailable
    else status internal

unfoldable pub update_error : Failure → Status
update_error e = if is_not_found e then status not_found else api_error e

-- The status that the documentation of apiError gives to each kind.
pub kind_status : String → Status
kind_status k =
    if k == Kind.plan_exceeded || k == Kind.storage_exceeded
    then status resource_exhausted
    else if k == Kind.capacity_shrink || k == Kind.capacity_too_small
    then status out_of_range
    else if k == Kind.invalid
    then status invalid_argument
    else if k == Kind.auth_required || k == Kind.unauthenticated
    then record { code = failed_precondition; hint = renew_token }
    else if k == Kind.config
    then record { code = failed_precondition; hint = fix_passphrase }
    else if k == Kind.cli_too_old
    then record { code = failed_precondition; hint = upgrade_driver }
    else if k == Kind.forbidden
    then status permission_denied
    else if k == Kind.rate_limited
    then status unavailable
    else status internal

ne-empty : (s : String) → s ≢ "" → (s == "") ≡ false
ne-empty s h = ground (arith, eq_iff s "")

eq-sym : (s t : String) → (s == t) ≡ (t == s)
eq-sym s t = ground (arith, eq_iff s t, eq_iff t s)

or-false : (b : Bool) → (b || false) ≡ b
or-false true = refl
or-false false = refl

-- An error with a kind is mapped by its kind alone, whatever its text says, and as documented.
pub api_error-kind : (e : CliError) → e.kind ≢ "" → api_error (cli e) ≡ kind_status e.kind
unfolding api_error kind_status
api_error-kind e h =
    let k = ne-empty e.kind h in
    simp (
      storage_exhausted-kind e k,
      not_enlarged-kind e k,
      capacity_refused-kind e k,
      validation-kind e k,
      unauthenticated-kind e k,
      config-kind e k,
      cli_too_old-kind e k,
      forbidden-kind e k,
      rate_limited-kind e k,
      or-false,
      eq-sym Kind.auth_required e.kind,
      eq-sym Kind.unauthenticated e.kind,
      eq-sym Kind.config e.kind,
      eq-sym Kind.cli_too_old e.kind,
      eq-sym Kind.forbidden e.kind,
      eq-sym Kind.rate_limited e.kind,
    )
