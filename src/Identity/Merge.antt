-- ===== src/Identity/Merge.antt =====
-- MergeEnv of identity.go, read back by FromEnv.
use Prim.Native.Char.{code}
use Prim.Native.String.{[], ◌∷◌}
use mathlib.Core.List
use text.Mathlib.TextLemmas.{nil-append, cons-append}
use retyc_k8s_csi.Prelude.{
  String, ◌≡◌, ◌≢◌, refl, ◌∙◌, some, List, ap, Bool-cases, inl, inr, lookup, ◌==◌, nat_eq,
  if◌then◌else◌, arith, eq_iff,
}
use retyc_k8s_csi.Identity.{
  Credentials, token_key, passphrase_key, cut, read_variable, read_environment, from_env,
  env_overrides, variable, replace_variable, replace_variables, has_variable, new_variables,
  merge_env,
}

-- A key that was cut off a variable is cut off again.
cut-cut : (kv v : String) → cut (variable (cut kv).0 v) ≡ ((cut kv).0, v)
unfolding cut
cut-cut [] v = simp nil-append refl
cut-cut (c ∷ s) v = elim (Bool-cases (nat_eq (code c) b'=')) [
  | inl e ↦ rw e (simp nil-append refl)
  | inr e ↦ rw e (rw (cons-append c (cut s).0 ("=" ∷ v)) (unfold cut in rw (e, cut-cut s v) refl))
]

-- What a variable of the base becomes is read as the override, if there is one.
read-replace :
    (c acc : Credentials) (kv : String)
    → read_variable acc (replace_variable (env_overrides c) kv) ≡ (
        if (cut kv).0 == token_key
        then record acc { token = c.token }
        else if (cut kv).0 == passphrase_key
        then record acc { passphrase = c.passphrase }
        else acc)
unfolding read_variable replace_variable env_overrides lookup
read-replace c acc kv = ground (
  arith,
  cut-cut kv c.token,
  cut-cut kv c.passphrase,
  eq_iff token_key (cut kv).0,
  eq_iff (cut kv).0 token_key,
  eq_iff passphrase_key (cut kv).0,
  eq_iff (cut kv).0 passphrase_key,
)

-- The credentials read from the base with its variables replaced.
abbrev overridden : Credentials → Credentials → List String → Credentials
overridden c acc base = record {
  token = if has_variable token_key base then c.token else acc.token;
  passphrase = if has_variable passphrase_key base then c.passphrase else acc.passphrase;
}

read-replace_variables :
    (c : Credentials) (base : List String) (acc : Credentials)
    → read_environment acc (replace_variables (env_overrides c) base) ≡ overridden c acc base
unfolding read_environment replace_variables has_variable
read-replace_variables c List.[] acc = refl
read-replace_variables c (List.◌∷◌ kv base) acc =
    ap (λ a. read_environment a (replace_variables (env_overrides c) base)) (read-replace c acc kv)
    ∙ read-replace_variables c base _
    ∙ ground (
      arith,
      eq_iff token_key passphrase_key,
      eq_iff (cut kv).0 token_key,
      eq_iff (cut kv).0 passphrase_key,
    )

read-append :
    (acc : Credentials) (xs ys : List String)
    → read_environment acc (List.◌++◌ xs ys) ≡ read_environment (read_environment acc xs) ys
unfolding read_environment
read-append acc List.[] ys = refl
read-append acc (List.◌∷◌ x xs) ys = read-append (read_variable acc x) xs ys

read-token :
    (acc : Credentials) (v : String)
    → read_variable acc (variable token_key v) ≡ record acc { token = v }
unfolding read_variable cut
read-token acc v = rw (cut-cut token_key v) refl

read-passphrase :
    (acc : Credentials) (v : String)
    → read_variable acc (variable passphrase_key v) ≡ record acc { passphrase = v }
unfolding read_variable cut
read-passphrase acc v = rw (cut-cut passphrase_key v) refl

read-merge_env :
    (c acc : Credentials) (base : List String)
    → read_environment acc (merge_env base (env_overrides c)) ≡ c
unfolding merge_env new_variables env_overrides read_environment
read-merge_env c acc base =
    rw (read-append, read-replace_variables)
      (ground (
        arith,
        read-token (overridden c acc base) c.token,
        read-passphrase (overridden c acc base) c.passphrase,
        read-passphrase (record (overridden c acc base) { token = c.token }) c.passphrase,
      ))

-- A retyc subprocess started with the environment of a tenant's credentials reads exactly those
-- credentials, whatever identity the driver's own environment carries, if the token is not empty.
pub from_env-merge_env :
    (base : List String) (c : Credentials)
    → c.token ≢ ""
    → from_env (merge_env base (env_overrides c)) ≡ some c
unfolding from_env
from_env-merge_env base c h = rw (read-merge_env c) (ground (arith, eq_iff c.token ""))
