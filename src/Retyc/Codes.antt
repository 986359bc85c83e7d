-- ===== src/Retyc/Codes.antt =====
-- Texts as lists of code points, for the functions that walk them (package strings and regexp).
use Prim.Native.Char.{code}
use retyc_k8s_csi.Prelude.{
  ℕ, ◌+◌, String, Bool, true, false, ◌&&◌, ◌||◌, Option, none, some, List, [], ◌∷◌, map, nat_eq,
  leb, if◌then◌else◌,
}

abbrev pub codes : String → List ℕ
codes String.[] = []
codes (String.◌∷◌ c s) = code c ∷ codes s

-- The text behind a prefix, `none` where the text has another start.
unfoldable pub drop_prefix : List ℕ → List ℕ → Option (List ℕ)
drop_prefix [] s = some s
drop_prefix (c ∷ cs) [] = none
drop_prefix (c ∷ cs) (d ∷ ds) = let rest = drop_prefix cs ds in if nat_eq c d then rest else none

-- strings.HasPrefix(s, prefix)
unfoldable pub has_prefix : List ℕ → List ℕ → Bool
has_prefix s prefix = elim (drop_prefix prefix s) [ none ↦ false | some _ ↦ true ]

-- strings.Contains(s, part)
unfoldable pub has_part : List ℕ → List ℕ → Bool
has_part [] part = has_prefix [] part
has_part (c ∷ s) part = has_prefix (c ∷ s) part || has_part s part

-- strings.ToLower. The only code point beyond ASCII whose lower case is an ASCII letter are the
-- Kelvin sign and the dotted capital I; the case of other letters is left as it is, since every
-- pattern that the program looks for is ASCII.
unfoldable pub lower : ℕ → ℕ
lower c =
    if leb b'A' c && leb c b'Z'
    then c + 32
    else if nat_eq c 0x212a
    then b'k'
    else if nat_eq c 0x130
    then b'i'
    else c

unfoldable pub to_lower : List ℕ → List ℕ
to_lower = map lower

unfoldable pub is_digit : ℕ → Bool
is_digit c = leb b'0' c && leb c b'9'

unfoldable pub drop_digits : List ℕ → List ℕ
drop_digits [] = []
drop_digits (c ∷ s) = let rest = drop_digits s in if is_digit c then rest else c ∷ s

-- unicode.IsSpace
unfoldable pub is_space : ℕ → Bool
is_space c =
    (leb 9 c && leb c 13)
    || nat_eq c 0x20
    || nat_eq c 0x85
    || nat_eq c 0xa0
    || nat_eq c 0x1680
    || (leb 0x2000 c && leb c 0x200a)
    || nat_eq c 0x2028
    || nat_eq c 0x2029
    || nat_eq c 0x202f
    || nat_eq c 0x205f
    || nat_eq c 0x3000

unfoldable pub trim_left : List ℕ → List ℕ
trim_left [] = []
trim_left (c ∷ s) = let rest = trim_left s in if is_space c then rest else c ∷ s

unfoldable pub trim_right : List ℕ → List ℕ
trim_right [] = []
trim_right (c ∷ s) = elim (trim_right s) [
  | [] ↦ if is_space c then [] else c ∷ []
  | d ∷ rest ↦ c ∷ d ∷ rest
]

-- bytes.TrimSpace and strings.TrimSpace
unfoldable pub trim_space : List ℕ → List ℕ
trim_space s = trim_right (trim_left s)

-- The text behind the last `sep`, the whole text where there is none.
unfoldable pub last_part : ℕ → List ℕ → List ℕ → List ℕ
last_part sep whole [] = whole
last_part sep whole (c ∷ s) = last_part sep (if nat_eq c sep then s else whole) s
