-- ===== src/Retyc/Errors.antt =====
-- The errors of the CLI and what the driver reads from them (client.go, the Kind* constants and the
-- Is* predicates).
pub mod Laws
use retyc_k8s_csi.Prelude.{
  ℕ, String, Bool, true, false, not, ◌&&◌, ◌||◌, Option, none, some, List, [], ◌∷◌, ◌++◌, contains,
  ◌==◌, nat_eq, if◌then◌else◌,
}
use retyc_k8s_csi.Retyc.Kind
use retyc_k8s_csi.Retyc.Codes.{
  codes, drop_prefix, has_prefix, has_part, to_lower, is_digit, drop_digits,
}

-- The text of the error, of the API's detail: code points.
pub record CliError : Type 0 where
  pub args : List String
  pub message : List ℕ
  pub kind : String
  pub status : ℕ
  pub detail : List ℕ

-- What a call of the client may return as an error: the CLI's, stdout that does not decode, or an
-- account that is not authenticated.
pub data Failure : Type 0 where
  cli : CliError → Failure
  decoding : Failure
  not_authenticated : List ℕ → Failure

pub record Class : Type 0 where
  pub kind : String
  pub msg : List ℕ
  pub is_cli : Bool

unfoldable pub classify : Failure → Class
classify (cli e) = record { kind = e.kind; msg = to_lower e.message; is_cli = true }
classify _ = record { kind = ""; msg = []; is_cli = false }

unfoldable pub has_kind : Failure → List String → Bool
has_kind e kinds = let c = classify e in c.is_cli && not (c.kind == "") && contains kinds c.kind

-- `(^|: )api error NNN:` of the regular expressions.
unfoldable pub is_api_error : List ℕ → List ℕ → Bool
is_api_error pattern msg = has_prefix msg pattern || has_part msg (codes ": " ++ pattern)

unfoldable pub validation_error : List ℕ → Bool
validation_error = is_api_error (codes "api error 422:")

unfoldable pub not_found_error : List ℕ → Bool
not_found_error = is_api_error (codes "api error 404:")

-- `\d+ bytes` at the start of a text.
unfoldable pub is_byte_count : List ℕ → Bool
is_byte_count [] = false
is_byte_count (c ∷ s) = is_digit c && has_prefix (drop_digits s) (codes " bytes")

-- `must be at least \d+ bytes`, anywhere.
unfoldable pub minimum_capacity : List ℕ → Bool
minimum_capacity [] = false
minimum_capacity (c ∷ s) =
    elim (drop_prefix (codes "must be at least ") (c ∷ s)) [
      | none ↦ false
      | some rest ↦ is_byte_count rest
    ]
    || minimum_capacity s

unfoldable pub is_storage_exhausted : Failure → Bool
is_storage_exhausted e =
    let c = classify e in
    if not (c.kind == "")
    then c.kind == Kind.plan_exceeded || c.kind == Kind.storage_exceeded
    else c.is_cli && has_part c.msg (codes "not enough storage left")

unfoldable pub is_validation : Failure → Bool
is_validation e =
    let c = classify e in
    if not (c.kind == "") then c.kind == Kind.invalid else c.is_cli && validation_error c.msg

unfoldable pub is_capacity_refused : Failure → Bool
is_capacity_refused e =
    let c = classify e in
    if not (c.kind == "")
    then c.kind == Kind.capacity_too_small
    else c.is_cli
      && validation_error c.msg
      && (has_part c.msg (codes "storage_capacity") || minimum_capacity c.msg)

unfoldable pub is_not_enlarged : Failure → Bool
is_not_enlarged e =
    let c = classify e in
    if not (c.kind == "")
    then c.kind == Kind.capacity_shrink
    else c.is_cli && has_part c.msg (codes "can only be enlarged")

unfoldable pub is_not_found : Failure → Bool
is_not_found e =
    let c = classify e in
    if not (c.kind == "")
    then c.kind == Kind.not_found || c.kind == Kind.gone
    else c.is_cli && not_found_error c.msg

unfoldable pub is_unauthenticated : Failure → Bool
is_unauthenticated e = has_kind e (Kind.auth_required ∷ Kind.unauthenticated ∷ [])

unfoldable pub is_config : Failure → Bool
is_config e = has_kind e (Kind.config ∷ [])

unfoldable pub is_forbidden : Failure → Bool
is_forbidden e = has_kind e (Kind.forbidden ∷ [])

unfoldable pub is_rate_limited : Failure → Bool
is_rate_limited e = has_kind e (Kind.rate_limited ∷ [])

unfoldable pub is_cli_too_old : Failure → Bool
is_cli_too_old e = has_kind e (Kind.cli_too_old ∷ [])
