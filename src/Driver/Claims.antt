-- ===== src/Driver/Claims.antt =====
-- internal/driver/annotations.go: the owner that a claim's annotations name.
pub mod Laws
use Prim.Native.Char.{code}
use Prim.Native.String
use retyc_k8s_csi.Prelude.{
  ℕ, ◌+◌, ◌-◌, ◌*◌, ◌^◌, String, Option, none, some, Dict, lookup, ltb, ◌==◌, if◌then◌else◌, Result,
  ok, err, ◌&&◌, leb,
}
use retyc_k8s_csi.Retyc.Codes.{is_digit}

abbrev pub annotation_uid : String
annotation_uid = "csi.retycfs.com/uid"

abbrev pub annotation_gid : String
annotation_gid = "csi.retycfs.com/gid"

-- The digits of a text as a number; `none` at another character.
unfoldable pub digits_value : ℕ → String → Option ℕ
digits_value n String.[] = some n
digits_value n (String.◌∷◌ c s) =
    let rest = digits_value (n * 10 + (code c - 48)) s in if is_digit (code c) then rest else none

-- strconv.ParseUint(raw, 10, 32)
unfoldable pub parse_uint32 : String → Option ℕ
parse_uint32 raw = if raw == "" then none else elim (digits_value 0 raw) [
  | none ↦ none
  | some n ↦ if ltb n (2 ^ 32) then some n else none
]

-- The errors of claimOwner: the annotation that is missing, and a value that is no ID.
pub data OwnerError : Type 0 where
  uid_required : OwnerError
  bad_id : String → OwnerError

unfoldable pub parse_id : String → String → Result OwnerError ℕ
parse_id key raw = elim (parse_uint32 raw) [ none ↦ err (bad_id key) | some id ↦ ok id ]

pub record Owner : Type 0 where
  pub uid : ℕ
  pub gid : ℕ

unfoldable pub with_gid : ℕ → Option String → Result OwnerError Owner
with_gid uid none = ok (record { uid = uid; gid = uid })
with_gid uid (some raw) = elim (parse_id annotation_gid raw) [
  | ok gid ↦ ok (record { uid = uid; gid = gid })
  | err e ↦ err e
]

unfoldable pub owner_from : Option String → Option String → Result OwnerError Owner
owner_from none gid = err uid_required
owner_from (some raw) gid = elim (parse_id annotation_uid raw) [
  | ok uid ↦ with_gid uid gid
  | err e ↦ err e
]

unfoldable pub claim_owner : Dict String → Result OwnerError Owner
claim_owner annotations =
    owner_from (lookup annotation_uid annotations) (lookup annotation_gid annotations)
