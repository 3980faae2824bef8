-- ===== src/Url/Parser/Rounds.antt =====
-- The loops of `UrlParser` of url.cc: every round of them takes a part of the text.
use corba_cc.Base.{
  ℕ, zero, suc, ◌+◌, ◌<◌, ◌≤◌, List, [], ◌∷◌, ◌++◌, ◌≡◌, ◌⊎◌, inl, inr, refl, ap, Option, some,
  none, length, length-drop, arith, codes, maybe, ok, err, ◌==◌, Bool-cases, Option-cases,
  expected_object_address,
}
use corba_cc.Url.Lexer.{UrlLexer, remaining, advance, match, number, uri}
use corba_cc.Url.Parser.{
  version, is_label, label_length, label, labels, find, bracketed, named, host, port, iiop_addr,
  iiop_id, iiop_prot_addr, rir_prot_addr, prot_addr, obj_addr, obj_addr_list, key_string, corbaloc,
  corbaname,
}
use corba_cc.Url.Parser.Ends.{
  Ends, bind-Ends, Moves, Moves-trans, Moves-within, advance-Moves, stay-Moves, Parses, then-Parses,
  maybe-Ends, Ends-weaken, count_while-le, from-Parses, match-cases, match-Ends, number-Parses,
  uri-Parses,
}
use corba_cc.Url.{ObjectAddress, new_address, CorbaLocation, CorbaName}

version-Parses :
    (addr : ObjectAddress) (l : UrlLexer) → l.pos ≤ length l.data_ → Parses l (version addr l)
unfolding version
version-Parses addr l h =
    let back = stay-Moves l h in
    then-Parses l (number l) _ (number-Parses l h) λ major l1 m1. maybe-Ends _ major _ _ back λ m.
      match-Ends _ (codes ".") l1 _ _ back λ f1.
        let m2 = Moves-trans l l1 (advance 1 l1) m1 (advance-Moves 1 l1 f1) in
        then-Parses l (number (advance 1 l1)) _
          (from-Parses l (advance 1 l1) _ m2 (number-Parses (advance 1 l1) (Moves-within l _ m2)))
          λ minor l3 m3. maybe-Ends _ minor _ _ back λ n.
            match-Ends _ (codes "@") l3 _ _ back
              λ f3. Moves-trans l l3 (advance 1 l3) m3 (advance-Moves 1 l3 f3)

label_length-le : (s : List ℕ) → label_length s ≤ length s
unfolding label_length
label_length-le [] = omega arith
label_length-le (c ∷ s) = ground (arith, count_while-le is_label s)

label_length-fits :
    (l : UrlLexer) → l.pos ≤ length l.data_ → l.pos + label_length (remaining l) ≤ length l.data_
label_length-fits l h = omega (arith, label_length-le (remaining l), length-drop l.pos l.data_)

label-Moves : (l : UrlLexer) → l.pos ≤ length l.data_ → Moves l (label l)
unfolding label
label-Moves l h = advance-Moves (label_length (remaining l)) l (label_length-fits l h)

labels-Parses :
    (rounds : ℕ) (l : UrlLexer)
    → l.pos ≤ length l.data_
    → length l.data_ < l.pos + rounds
    → Ends (Moves l) (labels rounds l)
unfolding labels
labels-Parses zero l h fuel = absurd (omega arith)
labels-Parses (suc rounds) l h fuel =
    let m = label-Moves l h in
    match-Ends (Moves l) (codes ".") (label l) (ok (label l)) (labels rounds) m λ fits.
      let n : Moves l (advance 1 (label l)) =
        Moves-trans l (label l) (advance 1 (label l)) m (advance-Moves 1 (label l) fits) in
      Ends-weaken (Moves (advance 1 (label l))) (Moves l) (labels rounds (advance 1 (label l)))
        (λ l2 m2. Moves-trans l (advance 1 (label l)) l2 n m2)
        (labels-Parses rounds (advance 1 (label l)) (Moves-within l _ n)
          (omega (arith, m.ahead, ap length m.keeps)))

named-Parses :
    (addr : ObjectAddress) (l : UrlLexer) → l.pos ≤ length l.data_ → Parses l (named addr l)
unfolding named
named-Parses addr l h =
    bind-Ends (Moves l) _ (labels (suc (length (remaining l))) l) _
      (labels-Parses (suc (length (remaining l))) l h (omega (arith, length-drop l.pos l.data_)))
      λ end m. elim (Bool-cases (l.pos == end.pos)) [
        | inl same ↦ rw same m
        | inr moved ↦ rw moved m
      ]

find-lt : (c : ℕ) (s : List ℕ) (i : ℕ) → find c s ≡ some i → i < length s
unfolding find
find-lt c [] i e = cc
find-lt c (x ∷ s) i e = elim (Option-cases (find c s)) [
  | inl missing ↦ ground arith
  | inr (j, found) ↦ ground (arith, find-lt c s j found)
]

bracketed-Parses :
    (addr : ObjectAddress) (l : UrlLexer) → l.pos ≤ length l.data_ → Parses l (bracketed addr l)
unfolding bracketed
bracketed-Parses addr l h = elim (Option-cases (find b']' (remaining l))) [
  | inl e ↦ rw e (cc)
  | inr (end, e) ↦ rw e (
      advance-Moves (suc end) l
        (omega (arith, find-lt b']' (remaining l) end e, length-drop l.pos l.data_)))
]

host-Parses :
    (addr : ObjectAddress) (l : UrlLexer) → l.pos ≤ length l.data_ → Parses l (host addr l)
unfolding host
host-Parses addr l h =
    match-Ends _ (codes "[") l _ _ (named-Parses addr l h) λ f. bracketed-Parses addr l h

port-Parses :
    (addr : ObjectAddress) (l : UrlLexer) → l.pos ≤ length l.data_ → Parses l (port addr l)
unfolding port
port-Parses addr l h = then-Parses l (number l) _ (number-Parses l h) λ read l1 m. m

iiop_addr-Parses :
    (addr : ObjectAddress) (l : UrlLexer) → l.pos ≤ length l.data_ → Parses l (iiop_addr addr l)
unfolding iiop_addr
iiop_addr-Parses addr l h =
    then-Parses l (version addr l) _ (version-Parses addr l h) λ addr1 l1 m1.
      then-Parses l (host addr1 l1) _
        (from-Parses l l1 _ m1 (host-Parses addr1 l1 (Moves-within l l1 m1)))
        λ addr2 l2 m2. match-Ends _ (codes ":") l2 _ _ m2 λ f.
          let l3 : UrlLexer = advance 1 l2 in
          let m3 = Moves-trans l l2 l3 m2 (advance-Moves 1 l2 f) in
          then-Parses l (port addr2 l3) _
            (from-Parses l l3 _ m3 (port-Parses addr2 l3 (Moves-within l l3 m3)))
            λ found l4 m4. maybe-Ends _ found _ _ (cc) λ addr3. m4

-- An address that was found took at least one octet.
abbrev Found : UrlLexer → Option ObjectAddress × UrlLexer → Type 0
Found l (none, l1) = Moves l l1
Found l (some a, l1) = Moves l l1 × (l.pos < l1.pos)

iiop_id-cases :
    (l : UrlLexer)
    → (iiop_id l ≡ none) ⊎ ((l1 : UrlLexer) × (iiop_id l ≡ some l1) × Moves l l1 × (l.pos < l1.pos))
unfolding iiop_id
iiop_id-cases l = elim (match-cases (codes "iiop:") l) [
  | inr (e, fits) ↦ inr (advance 5 l, rw e refl, advance-Moves 5 l fits, omega arith)
  | inl e ↦ elim (match-cases (codes ":") l) [
    | inr (e1, fits) ↦ inr (advance 1 l, rw (e, e1) refl, advance-Moves 1 l fits, omega arith)
    | inl e1 ↦ inl (rw (e, e1) refl)
  ]
]

iiop_prot_addr-Found :
    (addr : ObjectAddress) (l : UrlLexer)
    → l.pos ≤ length l.data_
    → Ends (Found l) (iiop_prot_addr addr l)
unfolding iiop_prot_addr
iiop_prot_addr-Found addr l h = elim (iiop_id-cases l) [
  | inl e ↦ rw e (stay-Moves l h)
  | inr (l1, e, m, ahead) ↦ rw e (
      bind-Ends (λ x. Moves l1 x.1) (Found l) (iiop_addr addr l1) _
        (iiop_addr-Parses addr l1 (Moves-within l l1 m))
        λ x n. (Moves-trans l l1 x.1 m n, omega (arith, n.ahead)))
]

obj_addr-Found :
    (addr : ObjectAddress) (l : UrlLexer)
    → l.pos ≤ length l.data_
    → Ends (Found l) (obj_addr addr l)
unfolding obj_addr prot_addr rir_prot_addr
obj_addr-Found addr l h = elim (match-cases (codes "rir:") l) [
  | inl e ↦ rw e (iiop_prot_addr-Found addr l h)
  | inr (e, fits) ↦ rw e (advance-Moves 4 l fits, omega arith)
]

-- What follows an address in the list, when the rounds left are enough for the rest of the text.
obj_addr_list-next :
    (rounds : ℕ) (list : List ObjectAddress) (l : UrlLexer)
    → length l.data_ < l.pos + suc rounds
    → ((list : List ObjectAddress) (l1 : UrlLexer)
        → l1.pos ≤ length l1.data_
        → length l1.data_ < l1.pos + rounds
        → Parses l1 (obj_addr_list rounds list l1))
    → (x : Option ObjectAddress × UrlLexer) → Found l x
    → Parses l (
        maybe x.0 (err expected_object_address) λ addr.
          maybe
            (match (codes ",") x.1)
            (ok (list ++ (addr ∷ []), x.1))
            (obj_addr_list rounds (list ++ (addr ∷ []))))
obj_addr_list-next rounds list l fuel later (none, l1) m = cc
obj_addr_list-next rounds list l fuel later (some addr, l1) (m, ahead) =
    match-Ends _ (codes ",") l1 _ _ m λ fits.
      let n = Moves-trans l l1 (advance 1 l1) m (advance-Moves 1 l1 fits) in
      from-Parses l (advance 1 l1) _ n (
        later (list ++ (addr ∷ [])) (advance 1 l1) (Moves-within l _ n)
          (omega (arith, ap length m.keeps)))

obj_addr_list-Parses :
    (rounds : ℕ) (list : List ObjectAddress) (l : UrlLexer)
    → l.pos ≤ length l.data_
    → length l.data_ < l.pos + rounds
    → Parses l (obj_addr_list rounds list l)
unfolding obj_addr_list
obj_addr_list-Parses zero list l h fuel = absurd (omega arith)
obj_addr_list-Parses (suc rounds) list l h fuel =
    bind-Ends (Found l) _ (obj_addr new_address l) _ (obj_addr-Found new_address l h)
      (obj_addr_list-next rounds list l fuel (obj_addr_list-Parses rounds))

key_string-Parses : (l : UrlLexer) → l.pos ≤ length l.data_ → Parses l (key_string l)
unfolding key_string
key_string-Parses l h = then-Parses l (uri l) _ (uri-Parses l h) λ found l1 m. m

-- On every text, and from every position in it, `UrlParser::corbaloc` that returns has left the
-- text as it was and the position between the earlier one and the end of the text; and its loops
-- do not run out of rounds.
pub corbaloc-Parses :
    (loc : CorbaLocation) (l : UrlLexer) → l.pos ≤ length l.data_ → Parses l (corbaloc loc l)
unfolding corbaloc
corbaloc-Parses loc l h =
    then-Parses l (obj_addr_list (suc (length (remaining l))) loc.addr l) _
      (obj_addr_list-Parses (suc (length (remaining l))) loc.addr l h
        (omega (arith, length-drop l.pos l.data_)))
      λ addr l1 m1. match-Ends _ (codes "/") l1 _ _ m1 λ fits.
        let m2 = Moves-trans l l1 (advance 1 l1) m1 (advance-Moves 1 l1 fits) in
        then-Parses l (key_string (advance 1 l1)) _
          (from-Parses l (advance 1 l1) _ m2
            (key_string-Parses (advance 1 l1) (Moves-within l _ m2)))
          λ key l3 m3. m3

pub corbaname-Parses :
    (name : CorbaName) (l : UrlLexer) → l.pos ≤ length l.data_ → Parses l (corbaname name l)
unfolding corbaname
corbaname-Parses name l h =
    then-Parses l (corbaloc name.location l) _ (corbaloc-Parses name.location l h) λ loc l1 m1.
      match-Ends _ (codes "#") l1 _ _ m1 λ fits.
        let m2 = Moves-trans l l1 (advance 1 l1) m1 (advance-Moves 1 l1 fits) in
        then-Parses l (uri (advance 1 l1)) _
          (from-Parses l (advance 1 l1) _ m2 (uri-Parses (advance 1 l1) (Moves-within l _ m2)))
          λ found l3 m3. m3
