-- ===== src/Mountpod/Spec/Label/Valid.antt =====
-- pod.go: that labelValue gives valid label values.
use Prim.Native.Char.{Char, code}
use Prim.Native.String.{[], ◌∷◌, ◌++◌}
use text.Mathlib.TextLemmas.{nil-append, cons-append}
use retyc_k8s_csi.Prelude.{
  ℕ, ◌≤◌, String, Bool, true, not, ◌||◌, nat_eq, ◌≡◌, ◌⊎◌, inl, inr, refl, ap, arith, Bool-cases,
}
use retyc_k8s_csi.Mountpod.Spec.{Formats}
use retyc_k8s_csi.Mountpod.Spec.Label.{
  within, is_label_char, blank_out, sanitized, shortened, trim_left, max_prefix, label_value,
}
use retyc_k8s_csi.Mountpod.Spec.Label.Texts.{
  all, all-++, all_mono, all-shortened, all-trim_left, ends, ends-++, ends-all, size, size-++,
  size-shortened, size-trim_left, starts, starts-all, starts-trim_left, trim_left-none,
}

-- The syntax of a label value: at most 63 characters, letters, digits, "-", "_" and ".", with a letter or
-- a digit first and last.
abbrev pub is_alphanumeric : ℕ → Bool
is_alphanumeric c = within b'a' b'z' c || (within b'A' b'Z' c || within b'0' b'9' c)

abbrev pub is_hex : ℕ → Bool
is_hex c = within b'0' b'9' c || within b'a' b'f' c

pub record IsLabelValue (v : String) : Type 0 where
  pub short : size v ≤ 63
  pub spelled : all is_label_char v ≡ true
  pub first : starts is_alphanumeric v ≡ true
  pub last : ends is_alphanumeric v ≡ true

all-blank_out :
    (c : ℕ) (s : String) → all is_label_char s ≡ true → all is_label_char (blank_out c s) ≡ true
unfolding blank_out is_label_char
all-blank_out c s h =
    let one = all-++ is_label_char "_" s refl h in
    let two = all-++ is_label_char "__" s refl h in
    let three = all-++ is_label_char "___" s refl h in
    let four = all-++ is_label_char "____" s refl h in ground arith

all-sanitized : (s : String) → all is_label_char (sanitized s) ≡ true
unfolding sanitized
all-sanitized [] = refl
all-sanitized (c ∷ s) =
    let rest = all-sanitized s in let blank = all-blank_out (code c) (sanitized s) in ground arith

is_hex-alphanumeric : (c : ℕ) → is_hex c ≡ true → is_alphanumeric c ≡ true
is_hex-alphanumeric c h = ground arith

is_alphanumeric-label : (c : ℕ) → is_alphanumeric c ≡ true → is_label_char c ≡ true
unfolding is_label_char
is_alphanumeric-label c h = ground arith

-- What labelValue cuts off: "-", "_" and "." of the prefix, "-" of the whole.
abbrev is_separator : ℕ → Bool
is_separator c = nat_eq c b'-' || (nat_eq c b'_' || nat_eq c b'.')

abbrev is_dash : ℕ → Bool
is_dash c = nat_eq c b'-'

alphanumeric_start :
    (c : ℕ) → is_label_char c ≡ true → not (is_separator c) ≡ true → is_alphanumeric c ≡ true
unfolding is_label_char
alphanumeric_start c h k = ground arith

alphanumeric-not_dash : (c : ℕ) → is_alphanumeric c ≡ true → not (is_dash c) ≡ true
alphanumeric-not_dash c h = ground arith

-- The hash of labelValue.
pub record IsHash (d : String) : Type 0 where
  pub digits : all is_hex d ≡ true
  pub long : size d ≡ 16

module _ (d : String) (hash : IsHash d) where
  open hash use {digits, long}

  hash_alphanumeric : all is_alphanumeric d ≡ true
  hash_alphanumeric = all_mono is_hex is_alphanumeric is_hex-alphanumeric d digits

  hash-IsLabelValue : IsLabelValue d
  hash-IsLabelValue = record {
    short = omega arith;
    spelled = all_mono is_alphanumeric is_label_char is_alphanumeric-label d hash_alphanumeric;
    first = starts-all is_alphanumeric d hash_alphanumeric (omega arith);
    last = ends-all is_alphanumeric d hash_alphanumeric (omega arith);
  }

  trimmed_one : (c : Char) → is_dash (code c) ≡ true → trim_left is_dash ((c ∷ []) ++ d) ≡ d
  unfolding trim_left
  trimmed_one c h =
      let clean = trim_left-none is_dash d (
        starts-all (λ c. not (is_dash c)) d
          (all_mono is_alphanumeric (λ c. not (is_dash c)) alphanumeric-not_dash d
            hash_alphanumeric)
          (omega arith)) in
      rw (cons-append c [] d) (rw (nil-append d) (rw h clean))

  dash_trimmed : trim_left is_dash ("-" ++ d) ≡ d
  dash_trimmed = trimmed_one "-" refl

  tail-label : all is_label_char ("-" ++ d) ≡ true
  unfolding is_label_char
  tail-label = all-++ is_label_char "-" d refl hash-IsLabelValue.spelled

  -- A prefix that starts well stays in front of the hash.
  headed-IsLabelValue :
      (head : String)
      → all is_label_char head ≡ true
      → size head ≤ 46
      → starts is_alphanumeric head ≡ true
      → IsLabelValue (head ++ "-" ++ d)
  headed-IsLabelValue [] h short begin = ground arith
  headed-IsLabelValue (c ∷ s) h short begin = record {
    short = let whole = size-++ (c ∷ s) ("-" ++ d) in let tail = size-++ "-" d in omega arith;
    spelled = all-++ is_label_char (c ∷ s) ("-" ++ d) h tail-label;
    first = rw (cons-append c s ("-" ++ d)) begin;
    last =
        ends-++ is_alphanumeric (c ∷ s) ("-" ++ d)
          (ends-++ is_alphanumeric "-" d hash-IsLabelValue.last);
  }

  joined-IsLabelValue :
      (head : String)
      → all is_label_char head ≡ true
      → size head ≤ 46
      → (head ≡ "") ⊎ (starts (λ c. not (is_separator c)) head ≡ true)
      → IsLabelValue (trim_left is_dash (head ++ "-" ++ d))
  joined-IsLabelValue [] h short begin =
      rw (nil-append ("-" ++ d)) (rw dash_trimmed hash-IsLabelValue)
  joined-IsLabelValue (c ∷ s) h short (inl e) = ground (arith, ap size e)
  joined-IsLabelValue (c ∷ s) h short (inr begin) =
      let alphanumeric = alphanumeric_start (code c) (ground arith) begin in
      let kept =
        trim_left-none is_dash ((c ∷ s) ++ "-" ++ d)
          (rw (cons-append c s ("-" ++ d)) (alphanumeric-not_dash (code c) alphanumeric)) in
      rw kept (headed-IsLabelValue (c ∷ s) h short alphanumeric)

-- labelValue gives a valid label value for every text, its hash being 16 hex digits, if the texts that
-- IsValidLabelValue accepts are empty or have the syntax of a label value.
pub label_value-IsLabelValue :
    (f : Formats)
    → ((v : String) → f.is_label v ≡ true → (v ≡ "") ⊎ IsLabelValue v)
    → ((v : String) → IsHash (f.digest8 v))
    → (v : String) → (label_value f v ≡ "") ⊎ IsLabelValue (label_value f v)
unfolding label_value
label_value-IsLabelValue f accepted hash v =
    let prefix = shortened max_prefix (sanitized v) in
    let joined =
      joined-IsLabelValue (f.digest8 v) (hash v) (trim_left is_separator prefix)
        (all-trim_left is_label_char is_separator prefix
          (all-shortened is_label_char max_prefix (sanitized v) (all-sanitized v)))
        (omega (arith, size-trim_left is_separator prefix, size-shortened max_prefix (sanitized v)))
        (starts-trim_left is_separator prefix) in
    elim (Bool-cases (f.is_label v)) [ inl e ↦ rw e (accepted v e) | inr e ↦ rw e (inr joined) ]
