-- ===== src/Retyc/Errors/Laws.antt =====
-- The predicates on a CLI error that has a kind read the kind alone.
use retyc_k8s_csi.Prelude.{◌≡◌, false, ◌||◌, ◌==◌}
use retyc_k8s_csi.Retyc.Kind
use retyc_k8s_csi.Retyc.Errors.{
  CliError, cli, classify, has_kind, is_storage_exhausted, is_not_enlarged, is_capacity_refused,
  is_validation, is_unauthenticated, is_config, is_cli_too_old, is_forbidden, is_rate_limited,
  is_not_found,
}

module _ (e : CliError) (h : (e.kind == "") ≡ false) where
  pub storage_exhausted-kind :
      is_storage_exhausted (cli e)
      ≡ (e.kind == Kind.plan_exceeded || e.kind == Kind.storage_exceeded)
  unfolding is_storage_exhausted classify
  storage_exhausted-kind = rw h

  pub not_enlarged-kind : is_not_enlarged (cli e) ≡ (e.kind == Kind.capacity_shrink)
  unfolding is_not_enlarged classify
  not_enlarged-kind = rw h

  pub capacity_refused-kind : is_capacity_refused (cli e) ≡ (e.kind == Kind.capacity_too_small)
  unfolding is_capacity_refused classify
  capacity_refused-kind = rw h

  pub validation-kind : is_validation (cli e) ≡ (e.kind == Kind.invalid)
  unfolding is_validation classify
  validation-kind = rw h

  pub not_found-kind : is_not_found (cli e) ≡ (e.kind == Kind.not_found || e.kind == Kind.gone)
  unfolding is_not_found classify
  not_found-kind = rw h

  pub unauthenticated-kind :
      is_unauthenticated (cli e)
      ≡ (Kind.auth_required == e.kind || (Kind.unauthenticated == e.kind || false))
  unfolding is_unauthenticated has_kind classify
  unauthenticated-kind = rw h

  pub config-kind : is_config (cli e) ≡ (Kind.config == e.kind || false)
  unfolding is_config has_kind classify
  config-kind = rw h

  pub cli_too_old-kind : is_cli_too_old (cli e) ≡ (Kind.cli_too_old == e.kind || false)
  unfolding is_cli_too_old has_kind classify
  cli_too_old-kind = rw h

  pub forbidden-kind : is_forbidden (cli e) ≡ (Kind.forbidden == e.kind || false)
  unfolding is_forbidden has_kind classify
  forbidden-kind = rw h

  pub rate_limited-kind : is_rate_limited (cli e) ≡ (Kind.rate_limited == e.kind || false)
  unfolding is_rate_limited has_kind classify
  rate_limited-kind = rw h
