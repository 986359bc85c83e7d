-- ===== src/Retyc/Size.antt =====
-- FormatSize of client.go: a byte count in the largest binary unit that divides it exactly.
pub mod Reading
use Prim.Native.Char.{Char}
use Prim.Native.String.{◌∷◌, ◌++◌}
use mathlib.Core.List
use retyc_k8s_csi.Prelude.{
  ℕ, zero, suc, ◌-◌, ◌/◌, ◌%◌, ◌^◌, String, Bool, true, false, ◌&&◌, List, ℤ, pos, negsuc,
  is_positive, pos_part, ltb, nat_eq, if◌then◌else◌,
}

-- The character at a place, counted from 0, with the last one for every place behind.
unfoldable pub place : Char → List Char → ℕ → Char
place c List.[] n = c
place c (List.◌∷◌ d ds) zero = c
place c (List.◌∷◌ d ds) (suc n) = place d ds n

abbrev higher_digits : List Char
higher_digits = List.◌∷◌ "1" (
    List.◌∷◌ "2" (
      List.◌∷◌ "3" (
        List.◌∷◌ "4"
          (List.◌∷◌ "5" (List.◌∷◌ "6" (List.◌∷◌ "7" (List.◌∷◌ "8" (List.◌∷◌ "9" List.[]))))))))

unfoldable pub digit : ℕ → Char
digit n = place "0" higher_digits n

-- A number in decimal, written before a text. More fuel than the number is enough: each digit divides it.
unfoldable pub decimal_from : ℕ → ℕ → String → String
decimal_from zero n tail = tail
decimal_from (suc fuel) n tail =
    let longer = decimal_from fuel (n / 10) (digit (n % 10) ∷ tail) in
    if ltb n 10 then digit n ∷ tail else longer

-- strconv.FormatInt(n, 10)
unfoldable pub format_int : ℤ → String
format_int (pos n) = decimal_from (suc n) n ""
format_int (negsuc n) = "-" ++ decimal_from (suc (suc n)) (suc n) ""

abbrev pub units : List (String × ℕ)
units =
    List.◌∷◌ ("TiB", 2 ^ 40)
      (List.◌∷◌ ("GiB", 2 ^ 30) (List.◌∷◌ ("MiB", 2 ^ 20) (List.◌∷◌ ("KiB", 2 ^ 10) List.[])))

unfoldable pub format_units : ℤ → List (String × ℕ) → String
format_units bytes List.[] = format_int bytes ++ "B"
format_units bytes (List.◌∷◌ (suffix, size) us) =
    let rest = format_units bytes us in
    if is_positive bytes && nat_eq (pos_part bytes % size) 0
    then format_int (pos (pos_part bytes / size)) ++ suffix
    else rest

unfoldable pub format_size : ℤ → String
format_size bytes = format_units bytes units
