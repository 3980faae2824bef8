-- ===== src/Url/Parser/Keys.antt =====
-- An object key or a name without escapes, read by `uri` of url.cc.
use corba_cc.Base.{
  ℕ, zero, suc, ◌+◌, List, [], ◌∷◌, ◌++◌, ◌≡◌, ◌≢◌, refl, ap, ◌∙◌, true, some, none, ok, length,
  take, All, arith, Option,
}
use corba_cc.Url.Lexer.{
  UrlLexer, advance, is_uri, count_while, decode_step, decode_from, decode_escapes, uri_of, uri,
}
use corba_cc.Url.Lexer.Sees.{Sees, Stops, count_while-Stops}

-- Octets that `uri` takes, none of which begins an escape.
abbrev pub IsPlain : List ℕ → Type 0
IsPlain s = All (λ c. (is_uri c ≡ true) × (c ≢ b'%')) s

pub IsPlain-uri : (s : List ℕ) → IsPlain s → All (λ c. is_uri c ≡ true) s
IsPlain-uri [] _ = tt
IsPlain-uri (c ∷ s) ((h, _), hs) = (h, IsPlain-uri s hs)

decode_from-plain : (ii : Option ℕ) (s : List ℕ) → All (λ c. c ≢ b'%') s → decode_from ii 0 s ≡ ok s
unfolding decode_from decode_step
decode_from-plain ii [] _ = refl
decode_from-plain ii (c ∷ s) (h, hs) = ground (arith, decode_from-plain ii s hs)

pub decode_escapes-plain : (s : List ℕ) → All (λ c. c ≢ b'%') s → decode_escapes s ≡ ok s
unfolding decode_escapes
decode_escapes-plain s h = decode_from-plain none s h

-- What `uri` gives for a text that is not empty: the octets from its start, as many as its end is
-- behind the start of the whole text.
pub uri-Sees :
    (c : ℕ) (s rest : List ℕ) (l : UrlLexer)
    → All (λ c. is_uri c ≡ true) (c ∷ s)
    → Stops is_uri rest
    → Sees l ((c ∷ s) ++ rest)
    → All (λ c. c ≢ b'%') (take (l.pos + length (c ∷ s)) ((c ∷ s) ++ rest))
    → uri l
      ≡ ok (some (take (l.pos + length (c ∷ s)) ((c ∷ s) ++ rest)), advance (length (c ∷ s)) l)
unfolding uri uri_of
uri-Sees c s rest l h stop sees plain =
    let text : List ℕ = take (l.pos + length (c ∷ s)) ((c ∷ s) ++ rest) in
    ap (λ xs. uri_of (count_while is_uri xs) l) sees
    ∙ ap (λ k. uri_of k l) (count_while-Stops is_uri (c ∷ s) rest h stop)
    ∙ rw (sees, decode_escapes-plain text plain) refl

pub take_plain : (P : ℕ → Type 0) (n : ℕ) (s : List ℕ) → All P s → All P (take n s)
take_plain P zero s _ = tt
take_plain P (suc n) [] _ = tt
take_plain P (suc n) (c ∷ s) (h, hs) = (h, take_plain P n s hs)
