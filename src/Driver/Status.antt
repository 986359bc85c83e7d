-- ===== src/Driver/Status.antt =====
-- gRPC statuses (google.golang.org/grpc/status): the code, and the hint that apiError appends. The
-- rest of a message is not modelled.
use retyc_k8s_csi.Prelude.{Bool, true, false, Result, ok, err}

pub data Code : Type 0 where
  invalid_argument failed_precondition out_of_range not_found already_exists : Code
  resource_exhausted permission_denied unavailable internal aborted : Code

-- What apiError tells to fix: the Retyc login, the key passphrase, the CLI of the driver image.
pub data Hint : Type 0 where
  no_hint renew_token fix_passphrase upgrade_driver : Hint

pub record Status : Type 0 where
  pub code : Code
  pub hint : Hint

-- status.Error(code, …)
abbrev pub status : Code → Status
status c = record { code = c; hint = no_hint }

abbrev pub refuse_if : Bool → Code → Result Status (Unit {0})
refuse_if true c = err (status c)
refuse_if false c = ok tt

-- A chain of checks.
infixl 5 ◌then_check◌
abbrev pub ◌then_check◌ :
    {A : Type 0} → Result Status (Unit {0}) → Result Status A → Result Status A
ok _ then_check r = r
err e then_check r = err e

-- What a read of the Kubernetes API answers.
pub data Fetch {ℓ} (A : Type ℓ) : Type ℓ where
  found : A → Fetch A
  missing : Fetch A
  failed : Fetch A
