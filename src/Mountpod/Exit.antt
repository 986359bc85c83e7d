-- ===== src/Mountpod/Exit.antt =====
-- backoff.go: the exit codes of `retyc fs mount`, and the writes lost. A code is an int32; messages are
-- code points.
use retyc_k8s_csi.Prelude.{
  ℕ, Bool, true, false, ◌&&◌, ◌||◌, not, Option, none, some, List, [], ◌∷◌, any, ℤ, pos, negsuc,
  nat_eq, if◌then◌else◌,
}
use retyc_k8s_csi.Retyc.Codes.{codes, has_part}

abbrev pub exit_failed : ℕ
exit_failed = 1

abbrev pub exit_writes_lost : ℕ
exit_writes_lost = 75

abbrev pub exit_auth_required : ℕ
exit_auth_required = 77

abbrev pub exit_config : ℕ
exit_config = 78

-- A code compared with a constant.
abbrev pub is_code : ℕ → ℤ → Bool
is_code n (pos c) = nat_eq c n
is_code n (negsuc c) = false

-- The explanation of an exit code; `no_meaning` is the empty text.
pub data Meaning : Type 0 where
  no_meaning error writes_lost auth_required config_wrong : Meaning

unfoldable pub exit_meaning : ℤ → Meaning
exit_meaning code =
    if is_code exit_failed code
    then error
    else if is_code exit_writes_lost code
    then writes_lost
    else if is_code exit_auth_required code
    then auth_required
    else if is_code exit_config code
    then config_wrong
    else no_meaning

abbrev pub lost_writes_text : List (List ℕ)
lost_writes_text =
    codes "before the filesystem was unmounted"
    ∷ codes "abandoned (no drain timeout)"
    ∷ codes "what they held is lost"
    ∷ []

unfoldable pub lost_writes_reported : List ℕ → Bool
lost_writes_reported message =
    any (has_part message) lost_writes_text
    || (has_part message (codes "drain over after") && has_part message (codes " not sent"))

-- LostWrites, of the exit code and the termination message of a state.
unfoldable pub lost_writes : Option ℤ → List ℕ → Bool
lost_writes none message = false
lost_writes (some code) message =
    if is_code exit_writes_lost code
    then true
    else if is_code exit_failed code || is_code exit_auth_required code
    then lost_writes_reported message
    else false

-- The label of an exit: its meaning, or what sets an exit 1 and a 77 with lost writes apart.
pub data Label : Type 0 where
  no_exit : Label
  meaning : Meaning → Label
  auth_and_writes_lost failed_before_ready failed_after_ready : Label

unfoldable pub exit_label : Option ℤ → List ℕ → Bool → Label
exit_label none message was_ready = no_exit
exit_label (some code) message was_ready =
    let lost = lost_writes (some code) message in
    if is_code exit_auth_required code && lost
    then auth_and_writes_lost
    else if lost
    then meaning writes_lost
    else if is_code exit_failed code && not was_ready
    then failed_before_ready
    else if is_code exit_failed code
    then failed_after_ready
    else meaning (exit_meaning code)

unfoldable pub is_fatal : ℤ → Bool
is_fatal code = is_code exit_auth_required code || is_code exit_config code
