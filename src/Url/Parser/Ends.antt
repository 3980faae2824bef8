-- ===== src/Url/Parser/Ends.antt =====
-- Where the methods of `UrlLexer` and `UrlParser` of url.cc leave the position, and with which errors
-- they end.
use corba_cc.Base.{
  ℕ, zero, suc, ◌+◌, ◌≤◌, List, [], ◌∷◌, ◌≡◌, ◌≢◌, ◌⊎◌, inl, inr, refl, ap, ◌∙◌, Bool, Option, some,
  none, length, take, length-drop, arith, maybe, Result, ok, err, unfinished, ◌>>=◌, ltb, bytes_eq,
  Bool-cases, ◌^◌,
}
use corba_cc.Url.Lexer.{
  UrlLexer, remaining, advance, is_digit, is_uri, count_while, match, number_of, number,
  decode_step, decode_from, decode_escapes, uri_of, uri, from_chars,
}

-- A call that ends, with a value of which `P` holds or with an error of the program.
abbrev pub Ends {ℓ} : {A : Type ℓ} → (A → Type 0) → Result A → Type 0
Ends P (ok a) = P a
Ends P (err e) = e ≢ unfinished

pub bind-Ends {ℓ κ} :
    {A : Type ℓ} {B : Type κ} (P : A → Type 0) (Q : B → Type 0) (m : Result A) (f : A → Result B)
    → Ends P m
    → ((a : A) → P a → Ends Q (f a))
    → Ends Q (m >>= f)
bind-Ends P Q (ok a) f h k = k a h
bind-Ends P Q (err e) f h k = h

pub maybe-Ends {ℓ κ} :
    {A : Type ℓ} {B : Type κ} (P : B → Type 0) (o : Option A) (nothing : Result B)
    (just : A → Result B)
    → Ends P nothing
    → ((a : A) → Ends P (just a))
    → Ends P (maybe o nothing just)
maybe-Ends P none nothing just h k = h
maybe-Ends P (some a) nothing just h k = k a

pub Ends-weaken {ℓ} :
    {A : Type ℓ} (P Q : A → Type 0) (m : Result A) → ((a : A) → P a → Q a) → Ends P m → Ends Q m
Ends-weaken P Q (ok a) f h = f a h
Ends-weaken P Q (err e) f h = h

-- The position only grows, and stays inside the text.
pub record Moves (l l' : UrlLexer) : Type 0 where
  pub keeps : l'.data_ ≡ l.data_
  pub ahead : l.pos ≤ l'.pos
  pub inside : l'.pos ≤ length l.data_

pub Moves-trans : (a b c : UrlLexer) → Moves a b → Moves b c → Moves a c
Moves-trans a b c m n = record {
  keeps = n.keeps ∙ m.keeps;
  ahead = omega (arith, m.ahead, n.ahead);
  inside = omega (arith, n.inside, ap length m.keeps);
}

pub Moves-within : (l l' : UrlLexer) → Moves l l' → l'.pos ≤ length l'.data_
Moves-within l l' m = omega (arith, m.inside, ap length m.keeps)

pub advance-Moves : (n : ℕ) (l : UrlLexer) → l.pos + n ≤ length l.data_ → Moves l (advance n l)
advance-Moves n l h = record { keeps = refl; ahead = omega arith; inside = h }

pub stay-Moves : (l : UrlLexer) → l.pos ≤ length l.data_ → Moves l l
stay-Moves l h = record { keeps = refl; ahead = omega arith; inside = h }

abbrev pub Parses {ℓ} : {A : Type ℓ} → UrlLexer → Result (A × UrlLexer) → Type 0
Parses l r = Ends (λ x. Moves l x.1) r

-- Whatever came before, the rest of the parse goes on from there.
pub then-Parses {ℓ κ} :
    {A : Type ℓ} {B : Type κ} (l : UrlLexer) (m : Result (A × UrlLexer))
    (f : A × UrlLexer → Result (B × UrlLexer))
    → Parses l m
    → ((a : A) (l1 : UrlLexer) → Moves l l1 → Parses l (f (a, l1)))
    → Parses l (m >>= f)
then-Parses l (ok (a, l1)) f h k = k a l1 h
then-Parses l (err e) f h k = h

pub from-Parses {ℓ} :
    {A : Type ℓ} (l l1 : UrlLexer) (r : Result (A × UrlLexer))
    → Moves l l1
    → Parses l1 r
    → Parses l r
from-Parses l l1 (ok (a, l2)) m h = Moves-trans l l1 l2 m h
from-Parses l l1 (err e) m h = h

pub match-cases :
    (s : List ℕ) (l : UrlLexer)
    → (match s l ≡ none)
      ⊎ ((match s l ≡ some (advance (length s) l)) × (l.pos + length s ≤ length l.data_))
unfolding match
match-cases s l = elim (Bool-cases (ltb (length l.data_) (l.pos + length s))) [
  | inl long ↦ inl (rw long refl)
  | inr fits ↦ elim (Bool-cases (bytes_eq (take (length s) (remaining l)) s)) [
    | inl same ↦ inr (rw (fits, same) refl, ground arith)
    | inr differs ↦ inl (rw (fits, differs) refl)
  ]
]

pub match-Ends {ℓ} :
    {B : Type ℓ} (P : B → Type 0) (s : List ℕ) (l : UrlLexer) (missed : Result B)
    (found : UrlLexer → Result B)
    → Ends P missed
    → (l.pos + length s ≤ length l.data_ → Ends P (found (advance (length s) l)))
    → Ends P (maybe (match s l) missed found)
match-Ends P s l missed found h k = elim (match-cases s l) [
  | inl e ↦ rw e h
  | inr (e, fits) ↦ rw e (k fits)
]

pub count_while-le : (test : ℕ → Bool) (s : List ℕ) → count_while test s ≤ length s
unfolding count_while
count_while-le test [] = omega arith
count_while-le test (c ∷ s) = ground (arith, count_while-le test s)

pub count_while-fits :
    (test : ℕ → Bool) (l : UrlLexer)
    → l.pos ≤ length l.data_
    → l.pos + count_while test (remaining l) ≤ length l.data_
count_while-fits test l h =
    omega (arith, count_while-le test (remaining l), length-drop l.pos l.data_)

number_of-Parses : (n : ℕ) (l : UrlLexer) → l.pos + n ≤ length l.data_ → Parses l (number_of n l)
unfolding number_of
number_of-Parses zero l h = stay-Moves l (omega arith)
number_of-Parses (suc n) l h =
    elim (Bool-cases (ltb (from_chars 0 (take (suc n) (remaining l))) (2 ^ 32))) [
      | inl fits ↦ rw fits (advance-Moves (suc n) l h)
      | inr large ↦ rw large (cc)
    ]

pub number-Parses : (l : UrlLexer) → l.pos ≤ length l.data_ → Parses l (number l)
unfolding number
number-Parses l h =
    number_of-Parses (count_while is_digit (remaining l)) l (count_while-fits is_digit l h)

decode_step-Ends :
    (ii : Option ℕ) (c : ℕ) (rest : List ℕ) → Ends (λ x. Unit {0}) (decode_step ii c rest)
unfolding decode_step
decode_step-Ends ii c rest = ground arith

decode_from-Ends :
    (ii : Option ℕ) (skip : ℕ) (s : List ℕ) → Ends (λ x. Unit {0}) (decode_from ii skip s)
unfolding decode_from
decode_from-Ends ii skip [] = tt
decode_from-Ends ii (suc skip) (c ∷ s) = decode_from-Ends ii skip s
decode_from-Ends ii zero (c ∷ s) =
    bind-Ends _ _ (decode_step ii c s) _ (decode_step-Ends ii c s)
      λ x _. bind-Ends _ _ (decode_from x.2 x.1 s) _ (decode_from-Ends x.2 x.1 s) λ y _. tt

uri_of-Parses : (n : ℕ) (l : UrlLexer) → l.pos + n ≤ length l.data_ → Parses l (uri_of n l)
unfolding uri_of decode_escapes
uri_of-Parses zero l h = stay-Moves l (omega arith)
uri_of-Parses (suc n) l h =
    bind-Ends (λ x. Unit {0}) _ (decode_from none 0 (take (l.pos + suc n) (remaining l))) _
      (decode_from-Ends none 0 (take (l.pos + suc n) (remaining l)))
      λ x _. advance-Moves (suc n) l h

pub uri-Parses : (l : UrlLexer) → l.pos ≤ length l.data_ → Parses l (uri l)
unfolding uri
uri-Parses l h = uri_of-Parses (count_while is_uri (remaining l)) l (count_while-fits is_uri l h)
