-- ===== src/Identity.antt =====
-- internal/identity/identity.go: one Retyc identity, and where it comes from. An environment is a
-- list of texts `k=v`, as os.Environ() gives it. SHA-256, the first 8 bytes in hexadecimal, is a parameter.
pub mod Merge
mod Tests
use Prim.Native.Char.{code}
use Prim.Native.String.{[], ◌∷◌, ◌++◌}
use mathlib.Core.List
use retyc_k8s_csi.Prelude.{
  String, Bool, not, ◌||◌, Option, none, some, List, Dict, lookup, insert, is_empty, contains,
  text_at, ◌==◌, nat_eq, if◌then◌else◌, Result, ok, err,
}

abbrev pub token_key : String
token_key = "RETYC_TOKEN"

abbrev pub passphrase_key : String
passphrase_key = "RETYC_KEY_PASSPHRASE"

abbrev pub config_dir_key : String
config_dir_key = "RETYC_CONFIG_DIR"

abbrev pub keyring_enabled_key : String
keyring_enabled_key = "RETYC_KEYRING_ENABLED"

pub record Credentials : Type 0 where
  pub token : String
  pub passphrase : String

-- The error of a Secret that lacks one of the two keys.
pub data IdentityError : Type 0 where
  incomplete_secret : IdentityError

-- Key
unfoldable pub key : (String → String) → Credentials → String
key digest8 c = digest8 (c.token ++ "\0" ++ c.passphrase)

-- `none` stands for the nil credentials of the default identity.
unfoldable pub from_secrets : Dict String → Result IdentityError (Option Credentials)
from_secrets List.[] = ok none
from_secrets (List.◌∷◌ s m) =
    let secrets = List.◌∷◌ s m in
    let c : Credentials = record {
      token = text_at token_key secrets;
      passphrase = text_at passphrase_key secrets;
    } in
    if c.token == "" || c.passphrase == "" then err incomplete_secret else ok (some c)

-- strings.Cut(kv, "="): the text before the first "=", and the text behind it.
unfoldable pub cut : String → String × String
cut [] = ("", "")
cut (c ∷ s) = let (k, v) = cut s in if nat_eq (code c) b'=' then ("", s) else (c ∷ k, v)

-- The body of the loop of FromEnv.
unfoldable pub read_variable : Credentials → String → Credentials
read_variable c kv =
    let (k, v) = cut kv in
    if k == token_key
    then record c { token = v }
    else if k == passphrase_key
    then record c { passphrase = v }
    else c

unfoldable pub read_environment : Credentials → List String → Credentials
read_environment c List.[] = c
read_environment c (List.◌∷◌ kv env) = read_environment (read_variable c kv) env

unfoldable pub from_env : List String → Option Credentials
from_env env =
    let c = read_environment (record { token = ""; passphrase = "" }) env in
    if c.token == "" then none else some c

unfoldable pub env_overrides : Credentials → Dict String
env_overrides c = List.◌∷◌ (token_key, c.token) (List.◌∷◌ (passphrase_key, c.passphrase) List.[])

abbrev pub variable : String → String → String
variable k v = k ++ ("=" ∷ v)

-- An existing variable is replaced in place.
unfoldable pub replace_variable : Dict String → String → String
replace_variable overrides kv = elim (lookup (cut kv).0 overrides) [
  | none ↦ kv
  | some v ↦ variable (cut kv).0 v
]

unfoldable pub replace_variables : Dict String → List String → List String
replace_variables overrides List.[] = List.[]
replace_variables overrides (List.◌∷◌ kv base) =
    List.◌∷◌ (replace_variable overrides kv) (replace_variables overrides base)

-- The keys of the base that the overrides name: `seen` of the source.
unfoldable pub has_variable : String → List String → Bool
has_variable k List.[] = Bool.false
has_variable k (List.◌∷◌ kv base) = (cut kv).0 == k || has_variable k base

-- The overrides that the base does not have, appended. Go visits a map in any order: the order is
-- that of the association list.
unfoldable pub new_variables : List String → Dict String → List String
new_variables base List.[] = List.[]
new_variables base (List.◌∷◌ (k, v) overrides) =
    let rest = new_variables base overrides in
    if has_variable k base then rest else List.◌∷◌ (variable k v) rest

unfoldable pub merge_env : List String → Dict String → List String
merge_env base overrides =
    List.◌++◌ (replace_variables overrides base) (new_variables base overrides)
