-- ===== src/Mountpod/Spec/Label.antt =====
-- pod.go: label values. A Go text is bytes, here characters: one beyond ASCII counts for the bytes of
-- its UTF-8.
mod Texts
pub mod Valid
mod Tests
use Prim.Native.Char.{code}
use Prim.Native.String.{[], ◌∷◌, ◌++◌}
use retyc_k8s_csi.Prelude.{ℕ, zero, suc, String, Bool, ◌&&◌, ◌||◌, nat_eq, leb, ltb, if◌then◌else◌}
use retyc_k8s_csi.Mountpod.Spec.{Formats}

abbrev within : ℕ → ℕ → ℕ → Bool
within a b c = leb a c && leb c b

-- isLabelChar
unfoldable pub is_label_char : ℕ → Bool
is_label_char c =
    within b'a' b'z' c
    || (within b'A' b'Z' c
        || (within b'0' b'9' c || (nat_eq c b'-' || (nat_eq c b'_' || nat_eq c b'.'))))

-- Underscores for the bytes of a character, in front of a text.
unfoldable pub blank_out : ℕ → String → String
blank_out c s =
    if ltb c 0x80
    then "_" ++ s
    else if ltb c 0x800
    then "__" ++ s
    else if ltb c 0x10000
    then "___" ++ s
    else "____" ++ s

-- The loop of labelValue over the bytes.
unfoldable pub sanitized : String → String
sanitized [] = ""
sanitized (c ∷ s) =
    let rest = sanitized s in if is_label_char (code c) then c ∷ rest else blank_out (code c) rest

unfoldable pub shortened : ℕ → String → String
shortened zero s = ""
shortened (suc n) [] = ""
shortened (suc n) (c ∷ s) = c ∷ shortened n s

-- strings.TrimLeft, with the characters to cut as a test.
unfoldable pub trim_left : (ℕ → Bool) → String → String
trim_left cuts [] = ""
trim_left cuts (c ∷ s) = let rest = trim_left cuts s in if cuts (code c) then rest else c ∷ s

-- validation.LabelValueMaxLength - 17
abbrev pub max_prefix : ℕ
max_prefix = 46

-- labelValue
unfoldable pub label_value : Formats → String → String
label_value f v =
    let head =
      trim_left (λ c. nat_eq c b'-' || (nat_eq c b'_' || nat_eq c b'.'))
        (shortened max_prefix (sanitized v)) in
    if f.is_label v then v else trim_left (λ c. nat_eq c b'-') (head ++ "-" ++ f.digest8 v)
