-- ===== src/Identity/Tests.antt =====
-- Evaluations of identity.go's functions.
use retyc_k8s_csi.Prelude.{◌≡◌, ◌≢◌, refl, some, [], ◌∷◌, arith, eq_iff, lookup}
use retyc_k8s_csi.Identity.{
  Credentials, cut, from_env, merge_env, env_overrides, replace_variable, replace_variables,
  has_variable, new_variables,
}
use retyc_k8s_csi.Identity.Merge.{from_env-merge_env}

abbrev tenant : Credentials
tenant = record { token = "t2"; passphrase = "p2" }

cut_url : cut "A=b=c" ≡ ("A", "b=c")
unfolding cut
cut_url = refl

merged :
    merge_env ("X=1" ∷ "RETYC_TOKEN=t1" ∷ []) (env_overrides tenant)
    ≡ "X=1" ∷ "RETYC_TOKEN=t2" ∷ "RETYC_KEY_PASSPHRASE=p2" ∷ []
unfolding merge_env replace_variables replace_variable has_variable new_variables env_overrides cut
    lookup
merged = refl

tenant_token : tenant.token ≢ ""
tenant_token = ground (arith, eq_iff tenant.token "")

from_env-merge_env_example :
    from_env (merge_env ("X=1" ∷ "RETYC_TOKEN=t1" ∷ []) (env_overrides tenant)) ≡ some tenant
from_env-merge_env_example = from_env-merge_env ("X=1" ∷ "RETYC_TOKEN=t1" ∷ []) tenant tenant_token
