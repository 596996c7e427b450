-- ===== src/Base/Str.antt =====
-- Texts as lists of code points: equality, the order of Rust's `str`, prefixes, `trim`, UTF-8 and
-- decimal numerals. (UTF-8 keeps the order of code points, so the order of bytes is this one.)
use Prim.Native.Nat.{ℕ, zero, suc, ◌+◌, ◌-◌, ◌*◌, ◌/◌, ◌%◌, ◌<◌, compare, Ordering}
use Prim.Native.Char.{code}
use Prim.Native.String.{String}
use mathlib.Core.Path.{◌≡◌, refl, sym, ap, ◌∙◌}
use mathlib.Core.Logic.{◌↔◌, inl, inr}
use mathlib.Core.Bool.{Bool, true, false, ◌&&◌, ◌||◌}
use mathlib.Core.List.{List, [], ◌∷◌, ◌++◌, reverse}
use native.Mathlib.Omega.{arith}
use tracedb.Base.Tests.{◌==◌, leb, ltb, if◌then◌else◌, Bool-cases}

abbrev pub Text : Type 0
Text = List ℕ

-- The code points of a literal.
abbrev pub codes : String → Text
codes String.[] = []
codes (String.◌∷◌ c s) = code c ∷ codes s

unfoldable pub text_eq : Text → Text → Bool
text_eq [] [] = true
text_eq (a ∷ s) (b ∷ t) = a == b && text_eq s t
text_eq _ _ = false

pub text_eq_iff : (s t : Text) → (text_eq s t ≡ true) ↔ (s ≡ t)
unfolding text_eq
text_eq_iff [] [] = (λ _. refl, λ _. refl)
text_eq_iff [] (b ∷ t) = ground arith
text_eq_iff (a ∷ s) [] = ground arith
text_eq_iff (a ∷ s) (b ∷ t) = ground (arith, text_eq_iff s t)

pub text_eq_refl : (s : Text) → text_eq s s ≡ true
text_eq_refl s = (text_eq_iff s s).1 refl

unfoldable pub text_cmp : Text → Text → Ordering
text_cmp [] [] = Ordering.eq
text_cmp [] (b ∷ t) = Ordering.lt
text_cmp (a ∷ s) [] = Ordering.gt
text_cmp (a ∷ s) (b ∷ t) = elim (compare a b) [
  | Ordering.lt ↦ Ordering.lt
  | Ordering.eq ↦ text_cmp s t
  | Ordering.gt ↦ Ordering.gt
]

abbrev pub text_lt : Text → Text → Bool
text_lt s t = elim (text_cmp s t) [ Ordering.lt ↦ true | _ ↦ false ]

pub text_cmp_eq_iff : (s t : Text) → (text_cmp s t ≡ Ordering.eq) ↔ (s ≡ t)
unfolding text_cmp
text_cmp_eq_iff [] [] = (λ _. refl, λ _. refl)
text_cmp_eq_iff [] (b ∷ t) = ground arith
text_cmp_eq_iff (a ∷ s) [] = ground arith
text_cmp_eq_iff (a ∷ s) (b ∷ t) = ground (arith, text_cmp_eq_iff s t)

pub text_lt_irrefl : (s : Text) → text_lt s s ≡ false
text_lt_irrefl s = rw ((text_cmp_eq_iff s s).1 refl, text_lt)

pub text_lt_trans : (r s t : Text) → text_lt r s ≡ true → text_lt s t ≡ true → text_lt r t ≡ true
unfolding text_cmp
text_lt_trans [] [] t h k = cc
text_lt_trans [] (b ∷ s) [] h k = cc
text_lt_trans [] (b ∷ s) (c ∷ t) h k = refl
text_lt_trans (a ∷ r) [] t h k = cc
text_lt_trans (a ∷ r) (b ∷ s) [] h k = cc
text_lt_trans (a ∷ r) (b ∷ s) (c ∷ t) h k = ground (arith, text_lt_trans r s t)

pub text_gt_lt : (s t : Text) → text_cmp s t ≡ Ordering.gt → text_lt t s ≡ true
unfolding text_cmp
text_gt_lt [] [] h = cc
text_gt_lt [] (b ∷ t) h = cc
text_gt_lt (a ∷ s) [] h = refl
text_gt_lt (a ∷ s) (b ∷ t) h = ground (arith, text_gt_lt s t)

-- `s.starts_with(prefix)`, the subject first.
unfoldable pub starts_with : Text → Text → Bool
starts_with s [] = true
starts_with [] (b ∷ p) = false
starts_with (a ∷ s) (b ∷ p) = a == b && starts_with s p

-- `char::is_whitespace`: the code points with the Unicode property White_Space.
unfoldable pub is_whitespace : ℕ → Bool
is_whitespace c =
    (leb 0x09 c && leb c 0x0d)
    || c == 0x20
    || c == 0x85
    || c == 0xa0
    || c == 0x1680
    || (leb 0x2000 c && leb c 0x200a)
    || c == 0x2028
    || c == 0x2029
    || c == 0x202f
    || c == 0x205f
    || c == 0x3000

unfoldable pub trim_start : Text → Text
unfolding is_whitespace
trim_start [] = []
trim_start (c ∷ s) = let rest = trim_start s in if is_whitespace c then rest else c ∷ s

unfoldable pub trim : Text → Text
unfolding trim_start
trim s = reverse (trim_start (reverse (trim_start s)))

-- `as_bytes`.
utf8_char : ℕ → List ℕ
utf8_char c =
    if ltb c 0x80
    then c ∷ []
    else if ltb c 0x800
    then (0xc0 + c / 64) ∷ (0x80 + c % 64) ∷ []
    else if ltb c 0x10000
    then (0xe0 + c / 4096) ∷ (0x80 + c / 64 % 64) ∷ (0x80 + c % 64) ∷ []
    else (0xf0 + c / 262144) ∷ (0x80 + c / 4096 % 64) ∷ (0x80 + c / 64 % 64) ∷ (0x80 + c % 64) ∷ []

unfoldable pub as_bytes : Text → List ℕ
unfolding utf8_char
as_bytes [] = []
as_bytes (c ∷ s) = utf8_char c ++ as_bytes s

-- `format!("{n}")` of an unsigned number; `n + 1` rounds are more than its digits.
decimal_digits : ℕ → ℕ → Text
decimal_digits zero n = []
decimal_digits (suc fuel) n =
    let rest = decimal_digits fuel (n / 10) in
    (if ltb n 10 then [] else rest) ++ ((48 + n % 10) ∷ [])

unfoldable pub decimal : ℕ → Text
unfolding decimal_digits
decimal n = decimal_digits (suc n) n

-- The value of a numeral.
abbrev read_decimal : ℕ → Text → ℕ
read_decimal acc [] = acc
read_decimal acc (c ∷ s) = read_decimal (acc * 10 + (c - 48)) s

read_decimal-append :
    (acc : ℕ) (s : Text) (c : ℕ)
    → read_decimal acc (s ++ c ∷ []) ≡ read_decimal acc s * 10 + (c - 48)
read_decimal-append acc [] c = refl
read_decimal-append acc (b ∷ s) c = read_decimal-append (acc * 10 + (b - 48)) s c

read-decimal_digits : (fuel n : ℕ) → n < fuel → read_decimal 0 (decimal_digits fuel n) ≡ n
unfolding decimal_digits
read-decimal_digits zero n h = elim h [ ]
read-decimal_digits (suc fuel) n h = elim (Bool-cases (ltb n 10)) [
  | inl small ↦ rw small (ground arith)
  | inr big ↦
      rw (big, read_decimal-append 0 (decimal_digits fuel (n / 10)) (48 + n % 10))
        (rw (read-decimal_digits fuel (n / 10) (ground arith)) (omega arith))
]

-- Two numbers with one numeral are equal.
pub decimal-injective : (a b : ℕ) → decimal a ≡ decimal b → a ≡ b
unfolding decimal
decimal-injective a b p =
    sym (read-decimal_digits (suc a) a (omega arith))
    ∙ (ap (λ (s : Text). read_decimal 0 s) p ∙ read-decimal_digits (suc b) b (omega arith))
