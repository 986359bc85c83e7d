-- ===== src/Retyc/Size/Reading.antt =====
-- What a size of `FormatSize` denotes: a number of bytes, in the binary unit that follows it.
use Prim.Native.Char.{code}
use Prim.Native.String.{[], ◌∷◌, ◌++◌}
use text.Mathlib.TextLemmas.{nil-append, cons-append}
use retyc_k8s_csi.Prelude.{
  ℕ, zero, suc, ◌+◌, ◌-◌, ◌*◌, ◌/◌, ◌%◌, ◌<◌, String, ◌≡◌, refl, ap, ◌∙◌, true, Option, none, some,
  List, pos, ltb, nat_eq, if◌then◌else◌, arith, Bool-cases, inl, inr, ◌==◌, ◌&&◌, All,
}
use retyc_k8s_csi.Retyc.Codes.{is_digit}
use retyc_k8s_csi.Retyc.Size.{
  place, digit, decimal_from, format_int, units, format_units, format_size,
}

-- The number at the start of a text, and the text behind it.
unfoldable pub read_number : ℕ → String → ℕ × String
read_number n [] = (n, [])
read_number n (c ∷ s) =
    let rest = read_number (n * 10 + (code c - 48)) s in
    if is_digit (code c) then rest else (n, c ∷ s)

-- The bytes that a unit stands for: a byte, and the IEC units, each 1024 times the one before.
unfoldable pub unit_size : String → Option ℕ
unit_size s =
    if s == "B"
    then some 1
    else if s == "KiB"
    then some 1024
    else if s == "MiB"
    then some 1048576
    else if s == "GiB"
    then some 1073741824
    else if s == "TiB"
    then some 1099511627776
    else none

unfoldable pub in_unit : ℕ × String → Option ℕ
in_unit (n, unit) = elim (unit_size unit) [ none ↦ none | some size ↦ some (n * size) ]

unfoldable pub read_size : String → Option ℕ
unfolding in_unit
read_size s = in_unit (read_number 0 s)

digit-code : (n : ℕ) → n < 10 → code (digit n) ≡ 48 + n
unfolding digit place
digit-code zero h = refl
digit-code (suc zero) h = refl
digit-code (suc (suc zero)) h = refl
digit-code (suc (suc (suc zero))) h = refl
digit-code (suc (suc (suc (suc zero)))) h = refl
digit-code (suc (suc (suc (suc (suc zero))))) h = refl
digit-code (suc (suc (suc (suc (suc (suc zero)))))) h = refl
digit-code (suc (suc (suc (suc (suc (suc (suc zero))))))) h = refl
digit-code (suc (suc (suc (suc (suc (suc (suc (suc zero)))))))) h = refl
digit-code (suc (suc (suc (suc (suc (suc (suc (suc (suc zero))))))))) h = refl
digit-code (suc (suc (suc (suc (suc (suc (suc (suc (suc (suc n)))))))))) h = absurd (omega arith)

is_digit-add : (n : ℕ) → n < 10 → is_digit (48 + n) ≡ true
unfolding is_digit
is_digit-add n h = ground arith

digit-value : (m n : ℕ) → m * 10 + (48 + n - 48) ≡ m * 10 + n
digit-value m n = omega arith

read-digit :
    (m n : ℕ) (s : String) → n < 10 → read_number m (digit n ∷ s) ≡ read_number (m * 10 + n) s
unfolding read_number
read-digit m n s h =
    rw (digit-code n h) (rw (is_digit-add n h) (ap (λ k. read_number k s) (digit-value m n)))

read-decimal_from :
    (fuel n : ℕ) (s : String) → n < fuel → read_number 0 (decimal_from fuel n s) ≡ read_number n s
unfolding decimal_from
read-decimal_from zero n s h = elim h [ ]
read-decimal_from (suc fuel) n s h = elim (Bool-cases (ltb n 10)) [
  | inl e ↦
      rw (e, decimal_from)
        (read-digit 0 n s (ground arith) ∙ ap (λ m. read_number m s) (omega arith))
  | inr e ↦
      rw (e, decimal_from)
        (read-decimal_from fuel (n / 10) (digit (n % 10) ∷ s) (ground arith)
          ∙ read-digit (n / 10) (n % 10) s (omega arith)
          ∙ ap (λ m. read_number m s) (omega arith))
]

decimal_from-append :
    (fuel n : ℕ) (s t : String) → decimal_from fuel n s ++ t ≡ decimal_from fuel n (s ++ t)
unfolding decimal_from
decimal_from-append zero n s t = refl
decimal_from-append (suc fuel) n s t = elim (Bool-cases (ltb n 10)) [
  | inl e ↦ rw (e, decimal_from) (cons-append (digit n) s t)
  | inr e ↦
      rw (e, decimal_from)
        (decimal_from-append fuel (n / 10) (digit (n % 10) ∷ s) t
          ∙ ap (decimal_from fuel (n / 10)) (cons-append (digit (n % 10)) s t))
]

read-format_int :
    (n : ℕ) (unit : String) → read_number 0 (format_int (pos n) ++ unit) ≡ read_number n unit
unfolding format_int
read-format_int n unit =
    ap (read_number 0)
      (decimal_from-append (suc n) n "" unit ∙ ap (decimal_from (suc n) n) (nil-append unit))
    ∙ read-decimal_from (suc n) n unit (omega arith)

-- A unit of the table: no digit begins it, and it stands for its size.
abbrev IsUnit : String × ℕ → Type 0
IsUnit (unit, size) = ((q : ℕ) → read_number q unit ≡ (q, unit)) × (unit_size unit ≡ some size)

read-rendered :
    (q : ℕ) (u : String × ℕ) → IsUnit u → read_size (format_int (pos q) ++ u.0) ≡ some (q * u.1)
unfolding read_size
read-rendered q (unit, size) (r, u) =
    ap in_unit (read-format_int q unit ∙ r q) ∙ rw (u, in_unit) refl

div-mul : (n size : ℕ) → 0 < size → n % size ≡ 0 → n / size * size ≡ n
div-mul n size p h = grind arith

read-format_units :
    (n : ℕ) (us : List (String × ℕ))
    → All (λ u. IsUnit u × (0 < u.1)) us
    → IsUnit ("B", 1)
    → read_size (format_units (pos n) us) ≡ some n
unfolding format_units
read-format_units n List.[] h b = read-rendered n ("B", 1) b ∙ ap some (omega arith)
read-format_units n (List.◌∷◌ (unit, size) us) h b =
    elim (Bool-cases (ltb 0 n && nat_eq (n % size) 0)) [
      | inl e ↦ rw e (
          read-rendered (n / size) (unit, size) h.0.0
          ∙ ap some (div-mul n size h.0.1 (ground arith)))
      | inr e ↦ rw e (read-format_units n us h.1 b)
    ]

-- FormatSize never rounds: what it renders, read as a number of bytes, or of the unit of 1024, 1024^2,
-- 1024^3 or 1024^4 bytes that its suffix names, is the byte count.
pub read-format_size : (n : ℕ) → read_size (format_size (pos n)) ≡ some n
unfolding format_size read_number is_digit unit_size
read-format_size n =
    read-format_units n units
      (
        ((λ q. refl, refl), omega arith),
        (
          ((λ q. refl, refl), omega arith),
          (((λ q. refl, refl), omega arith), (((λ q. refl, refl), omega arith), tt)),
        ),
      )
      (λ q. refl, refl)
