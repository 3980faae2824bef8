-- ===== src/Url/Lexer/Sees.antt =====
-- The text in front of a `UrlLexer`, and what `match` and the scans make of it.
use corba_cc.Base.{
  ℕ, suc, ◌+◌, ◌<◌, List, [], ◌∷◌, ◌++◌, ◌≡◌, ◌≢◌, refl, sym, ap, ◌∙◌, Bool, true, false, some,
  none, length, take, drop, All, length-append, length-drop, take-append, drop-append, drop-drop,
  bytes_eq, bytes_eq_refl, le→ltb, arith,
}
use corba_cc.Url.Lexer.{UrlLexer, remaining, advance, count_while, match}

abbrev pub Sees : UrlLexer → List ℕ → Type 0
Sees l text = remaining l ≡ text

pub advance-Sees :
    (s rest : List ℕ) (l : UrlLexer) → Sees l (s ++ rest) → Sees (advance (length s) l) rest
advance-Sees s rest l h =
    sym (drop-drop l.pos (length s) l.data_) ∙ ap (drop (length s)) h ∙ drop-append s rest

pub advance-add : (m n : ℕ) (l : UrlLexer) → advance n (advance m l) ≡ advance (m + n) l
advance-add m n l = ap (λ (p : ℕ). record l { pos = p }) (omega arith)

fits-Sees :
    (s rest : List ℕ) (l : UrlLexer)
    → 0 < length s
    → Sees l (s ++ rest)
    → l.pos + length s < suc (length l.data_)
fits-Sees s rest l pos h =
    omega (arith, ap length h, length-drop l.pos l.data_, length-append s rest)

pub match-Sees :
    (s rest : List ℕ) (l : UrlLexer)
    → 0 < length s
    → Sees l (s ++ rest)
    → match s l ≡ some (advance (length s) l)
unfolding match
match-Sees s rest l pos h = rw (
  le→ltb (length l.data_) (l.pos + length s) (omega (arith, fits-Sees s rest l pos h)),
  h,
  take-append s rest,
  bytes_eq_refl s,
)

-- A text that does not begin with this octet.
abbrev pub Misses : ℕ → List ℕ → Type 0
Misses x [] = Unit
Misses x (c ∷ cs) = c ≢ x

bytes_eq-Misses :
    (x : ℕ) (s text : List ℕ)
    → Misses x text
    → bytes_eq (take (length (x ∷ s)) text) (x ∷ s) ≡ false
unfolding bytes_eq
bytes_eq-Misses x s [] h = refl
bytes_eq-Misses x s (c ∷ cs) h = ground arith

pub match-Misses :
    (x : ℕ) (s text : List ℕ) (l : UrlLexer) → Sees l text → Misses x text → match (x ∷ s) l ≡ none
unfolding match
match-Misses x s text l h m = rw h (ground (arith, bytes_eq-Misses x s text m))

-- A text at which a scan stops.
abbrev pub Stops : (ℕ → Bool) → List ℕ → Type 0
Stops test [] = Unit
Stops test (c ∷ cs) = test c ≡ false

pub count_while-Stops :
    (test : ℕ → Bool) (s rest : List ℕ)
    → All (λ c. test c ≡ true) s
    → Stops test rest
    → count_while test (s ++ rest) ≡ length s
unfolding count_while
count_while-Stops test [] [] _ _ = refl
count_while-Stops test [] (c ∷ cs) _ h = rw h refl
count_while-Stops test (x ∷ s) rest (hx, hs) h = rw hx (ap suc (count_while-Stops test s rest hs h))
