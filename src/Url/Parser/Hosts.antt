-- ===== src/Url/Parser/Hosts.antt =====
-- What `host` of url.cc reads: a name made of labels, or an address in brackets.
use corba_cc.Base.{
  ℕ, zero, suc, ◌+◌, ◌<◌, List, [], ◌∷◌, ◌++◌, ◌≡◌, ◌≢◌, refl, ap, ◌∙◌, true, false, some, ok,
  length, take, All, length-append, append_assoc, arith, codes, Result, take-append, ◌==◌, ◌-◌,
}
use corba_cc.Url.Lexer.{UrlLexer, remaining, advance, is_alnum}
use corba_cc.Url.Lexer.Sees.{
  Sees, advance-Sees, match-Sees, Misses, match-Misses, Stops, count_while-Stops,
}
use corba_cc.Url.Parser.{is_label, label_length, label, labels, find, bracketed, named, host}
use corba_cc.Url.{ObjectAddress}

-- A label: nothing, or a letter or digit with letters, digits and hyphens behind it.
pub data IsLabel : List ℕ → Type 0 where
  nothing : IsLabel []
  letters :
      {c : ℕ} {s : List ℕ} → is_alnum c ≡ true → All (λ x. is_label x ≡ true) s → IsLabel (c ∷ s)

-- Labels with dots between them.
pub data IsLabels : List ℕ → Type 0 where
  single : {s : List ℕ} → IsLabel s → IsLabels s
  dotted : {s t w : List ℕ} → w ≡ s ++ (b'.' ∷ t) → IsLabel s → IsLabels t → IsLabels w

pub data IsHost : List ℕ → Type 0 where
  labelled : {w : List ℕ} → IsLabels w → IsHost w
  in_brackets :
      {w : List ℕ} (body : List ℕ)
      → w ≡ b'[' ∷ (body ++ (b']' ∷ []))
      → All (λ x. x ≢ b']') body
      → IsHost w

label_length-IsLabel :
    {s : List ℕ} (rest : List ℕ)
    → IsLabel s
    → Stops is_label rest
    → label_length (s ++ rest) ≡ length s
unfolding label_length
label_length-IsLabel [] nothing h = refl
label_length-IsLabel (c ∷ cs) nothing h = unfold is_label in ground arith
label_length-IsLabel rest (letters {c} {s} hc hs) h =
    rw hc (ap suc (count_while-Stops is_label s rest hs h))

label-IsLabel :
    {s : List ℕ} (rest : List ℕ) (l : UrlLexer)
    → IsLabel s
    → Stops is_label rest
    → Sees l (s ++ rest)
    → label l ≡ advance (length s) l
unfolding label
label-IsLabel {s} rest l i stop h =
    ap (λ xs. advance (label_length xs) l) h
    ∙ ap (λ k. advance k l) (label_length-IsLabel rest i stop)

dot-Stops : (rest : List ℕ) → Stops is_label (b'.' ∷ rest)
unfolding is_label is_alnum
dot-Stops rest = refl

pub labels-IsLabels :
    {w : List ℕ} (rounds : ℕ) (rest : List ℕ) (l : UrlLexer)
    → IsLabels w
    → length w < rounds
    → Stops is_label rest
    → Misses b'.' rest
    → Sees l (w ++ rest)
    → labels rounds l ≡ ok (advance (length w) l)
unfolding labels
labels-IsLabels zero rest l i h stop miss sees = absurd (omega arith)
labels-IsLabels (suc rounds) rest l (single {s} i) h stop miss sees = rw (
  label-IsLabel rest l i stop sees,
  match-Misses b'.' [] rest (advance (length s) l) (advance-Sees s rest l sees) miss,
)
labels-IsLabels {w} (suc rounds) rest l (dotted {s} {t} e i more) h stop miss sees =
    let whole : Sees l (s ++ (b'.' ∷ (t ++ rest))) =
      sees ∙ ap (λ xs. xs ++ rest) e ∙ append_assoc s (b'.' ∷ t) rest in
    let l1 : UrlLexer = advance (length s) l in
    let at_dot : Sees l1 (b'.' ∷ (t ++ rest)) = advance-Sees s (b'.' ∷ (t ++ rest)) l whole in
    let size : length w ≡ length s + suc (length t) = ap length e ∙ length-append s (b'.' ∷ t) in
    rw
      (
        label-IsLabel (b'.' ∷ (t ++ rest)) l i (dot-Stops (t ++ rest)) whole,
        match-Sees (codes ".") (t ++ rest) l1 (omega arith) at_dot,
        labels-IsLabels rounds rest (advance 1 l1) more (omega arith) stop miss
            (advance-Sees (codes ".") (t ++ rest) l1 at_dot),
      )
      (ap (λ (p : ℕ). ok (record l { pos = p })) (omega arith))

-- The text that a method takes, its value, and what stands in front of the lexer then.
pub record Reads {ℓ} {A : Type ℓ} (r : UrlLexer → Result (A × UrlLexer)) (a : A) (l : UrlLexer)
    (rest : List ℕ) : Type ℓ where
  pub next : UrlLexer
  pub runs : r l ≡ ok (a, next)
  pub sees : Sees next rest
  pub keeps : next.data_ ≡ l.data_

abbrev blank : ObjectAddress → ObjectAddress
blank addr = record addr { host = [] }

stays : (p : ℕ) → (p == p + 0) ≡ true
stays p = ground arith

moves : (p n : ℕ) → (p == p + suc n) ≡ false
moves p n = ground arith

moved : (p n : ℕ) → p + n - p ≡ n
moved p n = omega arith

named_end :
    (addr : ObjectAddress) (w rest : List ℕ) (l : UrlLexer)
    → Sees l (w ++ rest)
    → labels (suc (length (remaining l))) l ≡ ok (advance (length w) l)
    → named (blank addr) l ≡ ok (record addr { host = w }, advance (length w) l)
unfolding named
named_end addr [] rest l sees e = rw (e, stays l.pos) refl
named_end addr (c ∷ w) rest l sees e =
    rw (e, moves l.pos (length w), sees, moved l.pos (suc (length w)), take-append (c ∷ w) rest)

named-IsLabels :
    (addr : ObjectAddress) (w rest : List ℕ) (l : UrlLexer)
    → IsLabels w
    → Stops is_label rest
    → Misses b'.' rest
    → Sees l (w ++ rest)
    → named (blank addr) l ≡ ok (record addr { host = w }, advance (length w) l)
named-IsLabels addr w rest l i stop miss sees = named_end addr w rest l sees (
    labels-IsLabels (suc (length (remaining l))) rest l i
      (omega (arith, ap length sees, length-append w rest)) stop miss sees)

find-in_brackets :
    (body rest : List ℕ)
    → All (λ x. x ≢ b']') body
    → find b']' (body ++ (b']' ∷ rest)) ≡ some (length body)
unfolding find
find-in_brackets [] rest _ = refl
find-in_brackets (x ∷ body) rest (hx, h) = ground (arith, find-in_brackets body rest h)

take_bracket :
    (body rest : List ℕ) → take (suc (length body)) (body ++ (b']' ∷ rest)) ≡ body ++ (b']' ∷ [])
take_bracket [] rest = refl
take_bracket (x ∷ body) rest = ap (◌∷◌ x) (take_bracket body rest)

bracketed-in_brackets :
    (addr : ObjectAddress) (body rest : List ℕ) (l : UrlLexer)
    → All (λ x. x ≢ b']') body
    → Sees l (b'[' ∷ (body ++ (b']' ∷ rest)))
    → let w = b'[' ∷ (body ++ (b']' ∷ [])) in
      bracketed addr l ≡ ok (record addr { host = w }, advance (length w) l)
unfolding bracketed find
bracketed-in_brackets addr body rest l h sees =
    rw (sees, find-in_brackets body rest h, length-append body (b']' ∷ []), take_bracket body rest)
      (ap
        (λ (p : ℕ). ok (record addr { host = b'[' ∷ (body ++ (b']' ∷ [])) }, record l { pos = p }))
        (omega arith))

letter-Misses : (c : ℕ) → is_alnum c ≡ true → c ≢ b'['
unfolding is_alnum
letter-Misses c h = ground arith

label-Misses : {s : List ℕ} (rest : List ℕ) → IsLabel s → Misses b'[' rest → Misses b'[' (s ++ rest)
label-Misses rest nothing h = h
label-Misses rest (letters {c} hc hs) h = letter-Misses c hc

labels-Misses :
    {w : List ℕ} (rest : List ℕ) → IsLabels w → Misses b'[' rest → Misses b'[' (w ++ rest)
labels-Misses rest (single i) h = label-Misses rest i h
labels-Misses {w} rest (dotted {s} {t} e i more) h =
    rw (e, append_assoc s (b'.' ∷ t) rest) (label-Misses (b'.' ∷ (t ++ rest)) i (omega arith))

pub host-IsHost :
    (addr : ObjectAddress) {w : List ℕ} (rest : List ℕ) (l : UrlLexer)
    → IsHost w
    → Stops is_label rest
    → Misses b'.' rest
    → Misses b'[' rest
    → Sees l (w ++ rest)
    → host (blank addr) l ≡ ok (record addr { host = w }, advance (length w) l)
unfolding host
host-IsHost addr {w} rest l (labelled i) stop dot bracket sees =
    rw (match-Misses b'[' [] (w ++ rest) l sees (labels-Misses rest i bracket))
      (named-IsLabels addr w rest l i stop dot sees)
host-IsHost addr {w} rest l (in_brackets body e h) stop dot bracket sees =
    let whole : Sees l (b'[' ∷ (body ++ (b']' ∷ rest))) =
      sees ∙ ap (λ xs. xs ++ rest) e ∙ ap (◌∷◌ b'[') (append_assoc body (b']' ∷ []) rest) in
    rw (e, match-Sees (codes "[") (body ++ (b']' ∷ rest)) l (omega arith) whole)
      (bracketed-in_brackets (blank addr) body rest l h whole)
