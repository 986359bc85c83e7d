-- ===== src/Retyc/Stderr.antt =====
-- parseStderrError and stripANSI of client.go.
pub mod Segments
use retyc_k8s_csi.Prelude.{
  ℕ, String, ◌≡◌, ◌≢◌, refl, Bool, false, not, ◌&&◌, Option, none, some, List, [], ◌∷◌, All, nat_eq,
  leb, is_empty, if◌then◌else◌, arith,
}
use retyc_k8s_csi.Retyc.Codes.{last_part, trim_space}

pub record StderrError : Type 0 where
  pub error : List ℕ
  pub kind : String
  pub status : ℕ
  pub detail : List ℕ

-- The states of stripANSI's loop.
pub data AnsiState : Type 0 where
  text after_esc in_csi : AnsiState

unfoldable pub next_state : AnsiState → ℕ → AnsiState
next_state after_esc r = if nat_eq r b'[' then in_csi else text
next_state in_csi r = if leb 0x40 r && leb r 0x7e then text else in_csi
next_state text r = if nat_eq r 0x1b then after_esc else text

unfoldable pub is_written : AnsiState → ℕ → Bool
is_written text r = not (nat_eq r 0x1b) && not (nat_eq r 13)
is_written _ r = false

unfoldable pub strip_from : AnsiState → List ℕ → List ℕ
strip_from state [] = []
strip_from state (r ∷ s) =
    let rest = strip_from (next_state state r) s in if is_written state r then r ∷ rest else rest

unfoldable pub strip_ansi : List ℕ → List ℕ
strip_ansi = strip_from text

-- The payload, if the text decodes to an object with an error.
unfoldable pub payload : Option StderrError → Option StderrError
payload none = none
payload (some p) = if is_empty p.error then none else some p

abbrev starts_object : List ℕ → Bool
starts_object [] = false
starts_object (c ∷ s) = nat_eq c b'{'

-- encoding/json, read into a StderrError: `unmarshal` takes a text that is one JSON value, `decode`
-- the first value of a text.
module _ (unmarshal decode : List ℕ → Option StderrError) where
  -- The loop over every '{', from the first one on.
  unfoldable pub decode_from : List ℕ → Option StderrError
  decode_from [] = none
  decode_from (c ∷ s) =
      let rest = decode_from s in
      elim (if nat_eq c b'{' then payload (decode (c ∷ s)) else none) [
        | none ↦ rest
        | some p ↦ some p
      ]

  unfoldable pub parse_stderr_error : List ℕ → StderrError
  parse_stderr_error stderr =
      let lines = trim_space stderr in
      let last = trim_space (last_part b'\n' lines lines) in
      elim (if starts_object last then payload (unmarshal last) else none) [
        | some p ↦ p
        | none ↦ elim (decode_from stderr) [
          | some p ↦ p
          | none ↦ record {
            error = trim_space (strip_ansi stderr);
            kind = "";
            status = 0;
            detail = [];
          }
        ]
      ]
