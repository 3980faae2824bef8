-- ===== src/Url/Printer/Digits.antt =====
-- The decimal print of a number, as `number` reads it.
use corba_cc.Base.{
  ℕ, zero, suc, ◌+◌, ◌-◌, ◌*◌, ◌/◌, ◌%◌, ◌^◌, ◌<◌, List, [], ◌∷◌, ◌++◌, ◌≡◌, refl, ◌∙◌, true,
  All-append, length-append, ltb, Bool-cases, inl, inr, arith, lt→ltb,
}
use corba_cc.Url.Lexer.{is_digit, from_chars}
use corba_cc.Url.Lexer.Numbers.{IsNumeral}
use corba_cc.Url.Printer.{digits, decimal}

from_chars-append :
    (n : ℕ) (xs ys : List ℕ) → from_chars n (xs ++ ys) ≡ from_chars (from_chars n xs) ys
unfolding from_chars
from_chars-append n [] ys = refl
from_chars-append n (x ∷ xs) ys = from_chars-append (n * 10 + (x - b'0')) xs ys

digit-is_digit : (n : ℕ) → is_digit (b'0' + n % 10) ≡ true
unfolding is_digit
digit-is_digit n = ground arith

last-IsNumeral : (n : ℕ) → n < 10 → IsNumeral ((b'0' + n % 10) ∷ []) n
unfolding from_chars
last-IsNumeral n h = record {
  some_digit = omega arith;
  all_digits = (digit-is_digit n, tt);
  spells = omega arith;
}

append-IsNumeral :
    (s : List ℕ) (n : ℕ) → IsNumeral s (n / 10) → IsNumeral (s ++ ((b'0' + n % 10) ∷ [])) n
unfolding from_chars
append-IsNumeral s n d = record {
  some_digit = omega (arith, length-append s ((b'0' + n % 10) ∷ []), d.some_digit);
  all_digits = All-append _ s _ d.all_digits (digit-is_digit n, tt);
  spells = from_chars-append 0 s ((b'0' + n % 10) ∷ []) ∙ omega (arith, d.spells);
}

abbrev tens : ℕ → ℕ
tens zero = 1
tens (suc k) = 10 * tens k

digits-IsNumeral : (k n : ℕ) → n < 10 * tens k → IsNumeral (digits (suc k) n) n
unfolding digits
digits-IsNumeral zero n h = rw (lt→ltb n 10 (omega arith)) (last-IsNumeral n (omega arith))
digits-IsNumeral (suc k) n h = elim (Bool-cases (ltb n 10)) [
  | inl small ↦ rw small (last-IsNumeral n (ground arith))
  | inr large ↦
      rw large
        (append-IsNumeral (digits (suc k) (n / 10)) n (digits-IsNumeral k (n / 10) (omega arith)))
]

pub decimal-IsNumeral : (n : ℕ) → n < 2 ^ 32 → IsNumeral (decimal n) n
unfolding decimal
decimal-IsNumeral n h = digits-IsNumeral 9 n (omega arith)
