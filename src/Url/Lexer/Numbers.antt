-- ===== src/Url/Lexer/Numbers.antt =====
-- What `number` of url.cc reads.
use corba_cc.Base.{
  ℕ, ◌^◌, ◌<◌, List, [], ◌∷◌, ◌++◌, ◌≡◌, ap, ◌∙◌, true, some, ok, length, All, take-append, lt→ltb,
  arith,
}
use corba_cc.Url.Lexer.{UrlLexer, advance, is_digit, count_while, from_chars, number_of, number}
use corba_cc.Url.Lexer.Sees.{Sees, Stops, count_while-Stops}

-- One or more digits that spell a number.
pub record IsNumeral (s : List ℕ) (n : ℕ) : Type 0 where
  pub some_digit : 0 < length s
  pub all_digits : All (λ c. is_digit c ≡ true) s
  pub spells : from_chars 0 s ≡ n

number_of-IsNumeral :
    (s rest : List ℕ) (n : ℕ) (l : UrlLexer)
    → IsNumeral s n
    → n < 2 ^ 32
    → Sees l (s ++ rest)
    → number_of (length s) l ≡ ok (some n, advance (length s) l)
unfolding number_of
number_of-IsNumeral [] rest n l d h e = absurd (omega (arith, d.some_digit))
number_of-IsNumeral (c ∷ s) rest n l d h e =
    rw (e, take-append (c ∷ s) rest, d.spells, lt→ltb n (2 ^ 32) h)

pub number-IsNumeral :
    (s rest : List ℕ) (n : ℕ) (l : UrlLexer)
    → IsNumeral s n
    → n < 2 ^ 32
    → Stops is_digit rest
    → Sees l (s ++ rest)
    → number l ≡ ok (some n, advance (length s) l)
unfolding number
number-IsNumeral s rest n l d h stop e =
    ap (λ xs. number_of (count_while is_digit xs) l) e
    ∙ ap (λ k. number_of k l) (count_while-Stops is_digit s rest d.all_digits stop)
    ∙ number_of-IsNumeral s rest n l d h e
