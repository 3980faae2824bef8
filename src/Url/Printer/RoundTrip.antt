-- ===== src/Url/Printer/RoundTrip.antt =====
-- The text that `str` of url.cc gives for a reference, read back by `decodeURI`.
use corba_cc.Base.{
  ℕ, suc, ◌+◌, List, [], ◌∷◌, ◌++◌, ◌≡◌, ◌≢◌, refl, sym, ap, ◌∙◌, ok, length, take, All, All-append,
  length-append, length-drop, append_assoc, append-nil, take-all, arith, codes, subst, ◌-◌,
}
use corba_cc.Cdr.Bytes.{ByteOrder}
use corba_cc.Url.Lexer.{UrlLexer, remaining, advance, is_digit, is_uri}
use corba_cc.Url.Lexer.Sees.{Sees, advance-Sees, match-Sees, Misses, match-Misses, Stops}
use corba_cc.Url.Printer.{addresses_text, address_text, marked, location_text, location_str}
use corba_cc.Url.Parser.{obj_addr_list, key_string, corbaloc, parse, decode_uri}
use corba_cc.Url.Parser.Hosts.{Reads}
use corba_cc.Url.Parser.Addresses.{IsAddress}
use corba_cc.Url.Parser.Lists.{
  tail_text, addresses_text-cons, obj_addr_list-Reads, length-tail_text,
}
use corba_cc.Url.Parser.Keys.{IsPlain, IsPlain-uri, uri-Sees, take_plain}
use corba_cc.Url.{ObjectAddress, CorbaLocation, new_location, corba_location}

-- A location whose text shows it whole: it has an address, and its key needs no escape.
pub data IsLocation : CorbaLocation → Type 0 where
  location :
      {loc : CorbaLocation} {a : ObjectAddress} {more : List ObjectAddress}
      → loc.addr ≡ a ∷ more
      → IsAddress a
      → All IsAddress more
      → IsPlain loc.object_key
      → IsLocation loc

pub IsPlain-no_percent : (s : List ℕ) → IsPlain s → All (λ c. c ≢ b'%') s
IsPlain-no_percent [] _ = tt
IsPlain-no_percent (c ∷ s) ((_, h), hs) = (h, IsPlain-no_percent s hs)

IsLocation-key : {loc : CorbaLocation} → IsLocation loc → IsPlain loc.object_key
IsLocation-key (location e i is k) = k

slash-Stops : (rest : List ℕ) → Stops is_digit (b'/' ∷ rest)
unfolding is_digit
slash-Stops rest = refl

-- Where a lexer stands is told by what is left of its text.
pos-Sees :
    (c : ℕ) (s : List ℕ) (l : UrlLexer) → Sees l (c ∷ s) → l.pos + length (c ∷ s) ≡ length l.data_
pos-Sees c s l h = omega (arith, ap length h, length-drop l.pos l.data_)

addresses-Reads :
    (loc : CorbaLocation) (rest : List ℕ) (l : UrlLexer)
    → IsLocation loc
    → Stops is_digit rest
    → Misses b',' rest
    → Sees l (addresses_text [] loc.addr ++ rest)
    → Reads (obj_addr_list (suc (length (remaining l))) []) loc.addr l rest
addresses-Reads loc rest l (location {a} {more} e i is _) stop miss sees =
    let text : addresses_text [] loc.addr ++ rest ≡ address_text a ++ (tail_text more ++ rest) =
      ap (λ xs. addresses_text [] xs ++ rest) e
      ∙ ap (λ xs. xs ++ rest) (addresses_text-cons more i)
      ∙ append_assoc (address_text a) (tail_text more) rest in
    let whole : Sees l (address_text a ++ (tail_text more ++ rest)) = sees ∙ text in
    rw e (
      obj_addr_list-Reads (suc (length (remaining l))) [] a more rest l i is
        (omega (
          arith,
          ap length whole,
          length-append (address_text a) (tail_text more ++ rest),
          length-append (tail_text more) rest,
          length-tail_text more,
        ))
        stop miss whole)

-- The key that is read where the text of a key is followed by more: it takes as many octets as lie
-- before the end of the key in the whole text.
unfoldable pub taken : ℕ → List ℕ → List ℕ → List ℕ
taken start key rest = take (start + length key) (key ++ rest)

pub taken-nil : (start : ℕ) (key : List ℕ) → taken start key [] ≡ key
unfolding taken
taken-nil start key =
    ap (take (start + length key)) (append-nil key)
    ∙ take-all (start + length key) key (omega arith)

pub corbaloc-Reads :
    (loc old : CorbaLocation) (start c : ℕ) (key rest : List ℕ) (l : UrlLexer)
    → IsLocation loc
    → old.addr ≡ []
    → loc.object_key ≡ c ∷ key
    → start + length ((c ∷ key) ++ rest) ≡ length l.data_
    → Stops is_uri rest
    → All (λ x. x ≢ b'%') rest
    → Sees l (location_text loc ++ rest)
    → Reads
        (corbaloc old)
        (record { addr = loc.addr; object_key = taken start (c ∷ key) rest })
        l
        rest
unfolding corbaloc key_string location_text marked taken
corbaloc-Reads loc old start c key rest l i none_yet e at stop plain sees =
    let behind : List ℕ = (c ∷ key) ++ rest in
    let whole : Sees l (addresses_text [] loc.addr ++ (b'/' ∷ behind)) =
      sees
      ∙ ap (λ xs. (addresses_text [] loc.addr ++ marked b'/' xs) ++ rest) e
      ∙ append_assoc (addresses_text [] loc.addr) (b'/' ∷ c ∷ key) rest in
    let r = addresses-Reads loc (b'/' ∷ behind) l i (slash-Stops behind) (omega arith) whole in
    let l2 : UrlLexer = advance 1 r.next in
    let s2 : Sees l2 behind = advance-Sees (codes "/") behind r.next r.sees in
    let place : l2.pos ≡ start = omega (arith, pos-Sees c (key ++ rest) l2 s2, ap length r.keeps) in
    let key_plain : IsPlain (c ∷ key) = subst IsPlain e (IsLocation-key i) in
    record {
      next = advance (length (c ∷ key)) l2;
      runs =
          rw
            (
              none_yet,
              r.runs,
              match-Sees (codes "/") behind r.next (omega arith) r.sees,
              uri-Sees c key rest l2 (IsPlain-uri (c ∷ key) key_plain) stop s2 (
                  take_plain _ (l2.pos + length (c ∷ key)) behind
                    (All-append _ (c ∷ key) rest (IsPlain-no_percent (c ∷ key) key_plain) plain)),
            )
            (ap
              (λ (p : ℕ). ok (
                record { addr = loc.addr; object_key = take (p + length (c ∷ key)) behind },
                advance (length (c ∷ key)) l2,
              ))
              place);
      sees = advance-Sees (c ∷ key) rest l2 s2;
      keeps = r.keeps;
    }

-- With no key the lexer is at the end of the text behind the addresses.
corbaloc-no_key :
    (loc old : CorbaLocation) (l : UrlLexer)
    → IsLocation loc
    → old.addr ≡ []
    → loc.object_key ≡ []
    → Sees l (location_text loc)
    → Reads (corbaloc old) (record { addr = loc.addr; object_key = old.object_key }) l []
unfolding corbaloc location_text marked
corbaloc-no_key loc old l i none_yet e sees =
    let whole : Sees l (addresses_text [] loc.addr ++ []) =
      sees ∙ ap (λ xs. addresses_text [] loc.addr ++ marked b'/' xs) e in
    let r = addresses-Reads loc [] l i tt tt whole in
    record {
      next = r.next;
      runs = rw (none_yet, r.runs, match-Misses b'/' [] [] r.next r.sees tt) refl;
      sees = r.sees;
      keeps = r.keeps;
    }

abbrev pub start_of : List ℕ → UrlLexer
start_of text = record { data_ = text; pos = 0 }

key-Reads :
    (loc : CorbaLocation) (key : List ℕ) (l : UrlLexer)
    → loc.object_key ≡ key
    → IsLocation loc
    → Sees l (location_text loc)
    → Reads (corbaloc new_location) loc l []
unfolding taken location_text marked
key-Reads loc [] l e i sees =
    subst (λ k. Reads (corbaloc new_location) (record { addr = loc.addr; object_key = k }) l [])
      (sym e) (corbaloc-no_key loc new_location l i refl e sees)
key-Reads loc (c ∷ key) l e i sees =
    let start : ℕ = length l.data_ - length ((c ∷ key) ++ []) in
    let text : List ℕ = addresses_text [] loc.addr in
    let size : length (text ++ marked b'/' loc.object_key) ≡ length text + suc (suc (length key)) =
      length-append text (marked b'/' loc.object_key)
      ∙ ap (λ k. length text + length (marked b'/' k)) e in
    let r =
      corbaloc-Reads loc new_location start c key [] l i refl e
        (omega (arith, size, ap length sees, length-drop l.pos l.data_, length-append (c ∷ key) []))
        tt tt (sees ∙ sym (append-nil (location_text loc))) in
    subst (λ k. Reads (corbaloc new_location) (record { addr = loc.addr; object_key = k }) l [])
      (taken-nil start (c ∷ key) ∙ sym e) r

-- `decodeURI` reads back the text that `CorbaLocation::str` gives: the same addresses, each with
-- its protocol, version, host and port, in the same order, and the same object key. The location
-- has an address; each address is `rir` with nothing else set, or `iiop` with a version and a
-- port that fit their types and a host made of labels or in brackets; and the key has only
-- characters that `uri` takes, without a percent sign.
pub decode_uri-location_str :
    (there : ByteOrder) (loc : CorbaLocation)
    → IsLocation loc
    → decode_uri there (location_str loc) ≡ ok (corba_location loc)
unfolding decode_uri parse location_str
decode_uri-location_str there loc i =
    let l : UrlLexer = start_of (location_str loc) in
    let r =
      key-Reads loc loc.object_key (advance 9 l) refl i
        (advance-Sees (codes "corbaloc:") (location_text loc) l refl) in
    rw
      (
        match-Misses b'I' (codes "OR:") (location_str loc) l refl (omega arith),
        match-Sees (codes "corbaloc:") (location_text loc) l (omega arith) refl,
        r.runs,
      )
      refl
