-- ===== src/Retyc/Kind.antt =====
-- The kinds of the CLI's JSON errors (client.go, the Kind* constants).
use retyc_k8s_csi.Prelude.{String}

abbrev pub auth_required : String
auth_required = "auth_required"

abbrev pub config : String
config = "config"

abbrev pub rate_limited : String
rate_limited = "rate_limited"

abbrev pub storage_exceeded : String
storage_exceeded = "storage_exceeded"

abbrev pub plan_exceeded : String
plan_exceeded = "plan_exceeded"

abbrev pub capacity_too_small : String
capacity_too_small = "capacity_too_small"

abbrev pub capacity_shrink : String
capacity_shrink = "capacity_shrink"

abbrev pub unauthenticated : String
unauthenticated = "unauthenticated"

abbrev pub forbidden : String
forbidden = "forbidden"

abbrev pub not_found : String
not_found = "not_found"

abbrev pub gone : String
gone = "gone"

abbrev pub invalid : String
invalid = "invalid"

abbrev pub cli_too_old : String
cli_too_old = "cli_too_old"
