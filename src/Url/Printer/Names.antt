-- ===== src/Url/Printer/Names.antt =====
-- The text that `CorbaName::str` of url.cc gives, as `decodeURI` reads it.
use corba_cc.Base.{
  ℕ, suc, ◌+◌, List, [], ◌∷◌, ◌++◌, ◌≡◌, ◌≢◌, refl, sym, ap, ◌∙◌, none, ok, length, All,
  length-append, append_assoc, append-nil, arith, codes, bytes_eq, subst,
}
use corba_cc.Cdr.Bytes.{ByteOrder}
use corba_cc.Url.Lexer.{UrlLexer, advance, is_digit, is_uri, is_alnum, strchr, match}
use corba_cc.Url.Lexer.Sees.{Sees, advance-Sees, match-Sees, match-Misses, Stops}
use corba_cc.Url.Printer.{addresses_text, marked, location_text, name_str}
use corba_cc.Url.Parser.{corbaloc, corbaname, parse, decode_uri}
use corba_cc.Url.Parser.Keys.{IsPlain, IsPlain-uri, uri-Sees, take_plain}
use corba_cc.Url.{CorbaLocation, CorbaName, new_name, corba_name}
use corba_cc.Url.Printer.RoundTrip.{
  IsLocation, IsPlain-no_percent, corbaloc-Reads, taken, taken-nil, start_of,
}

hash-Stops : (name : List ℕ) → Stops is_uri (marked b'#' name)
unfolding is_uri marked strchr is_alnum is_digit
hash-Stops [] = tt
hash-Stops (c ∷ name) = refl

hash-no_percent : (name : List ℕ) → IsPlain name → All (λ c. c ≢ b'%') (marked b'#' name)
unfolding marked
hash-no_percent [] h = tt
hash-no_percent (c ∷ name) h = ((omega arith), IsPlain-no_percent (c ∷ name) h)

-- Behind the location: the name, if there is one.
name-Reads :
    (loc : CorbaLocation) (name : List ℕ) (l l1 : UrlLexer)
    → IsPlain name
    → corbaloc new_name.location l ≡ ok (loc, l1)
    → Sees l1 (marked b'#' name)
    → (next : UrlLexer) × (corbaname new_name l ≡ ok (record { location = loc; name = name }, next))
unfolding corbaname marked taken
name-Reads loc [] l l1 h e sees = (l1, rw (e, match-Misses b'#' [] [] l1 sees tt) refl)
name-Reads loc (c ∷ name) l l1 h e sees =
    let l2 : UrlLexer = advance 1 l1 in
    let s2 : Sees l2 ((c ∷ name) ++ []) =
      advance-Sees (codes "#") (c ∷ name) l1 sees ∙ sym (append-nil (c ∷ name)) in
    let clean : All (λ x. x ≢ b'%') ((c ∷ name) ++ []) =
      subst (All (λ x. x ≢ b'%')) (sym (append-nil (c ∷ name))) (IsPlain-no_percent (c ∷ name) h) in
    (
      advance (length (c ∷ name)) l2,
      rw
          (
            e,
            match-Sees (codes "#") (c ∷ name) l1 (omega arith) sees,
            uri-Sees c name [] l2 (IsPlain-uri (c ∷ name) h) tt s2
                (take_plain (λ x. x ≢ b'%') (l2.pos + length (c ∷ name)) ((c ∷ name) ++ []) clean),
          )
          (ap
            (λ (t : List ℕ).
              ok (record { location = loc; name = t }, advance (length (c ∷ name)) l2))
            (taken-nil l2.pos (c ∷ name))),
    )

misses-corbaloc :
    (text : List ℕ) → match (codes "corbaloc:") (start_of (codes "corbaname:" ++ text)) ≡ none
unfolding match bytes_eq
misses-corbaloc text = ground arith

-- How many octets stand before the object key in the text of a name.
pub key_start : CorbaName → ℕ
key_start n = length (codes "corbaname:" ++ addresses_text [] n.location.addr) + 1

-- What `decodeURI` makes of the text of a name: the name is right, the key has run on.
unfoldable pub decoded_name : CorbaName → CorbaName
decoded_name n = record {
  location = record {
    addr = n.location.addr;
    object_key = taken (key_start n) n.location.object_key (marked b'#' n.name);
  };
  name = n.name;
}

name_str-Reads :
    (n : CorbaName) (c : ℕ) (key : List ℕ)
    → IsLocation n.location
    → IsPlain n.name
    → n.location.object_key ≡ c ∷ key
    → (next : UrlLexer) × (corbaname new_name (advance 10 (start_of (name_str n)))
        ≡ ok (decoded_name n, next))
unfolding decoded_name key_start name_str location_text marked
name_str-Reads n c key i h e =
    let hash : List ℕ = marked b'#' n.name in
    let text : List ℕ = addresses_text [] n.location.addr in
    let l : UrlLexer = advance 10 (start_of (name_str n)) in
    let size : length (location_text n.location ++ hash)
        ≡ length text + suc (length ((c ∷ key) ++ hash)) =
      ap (λ k. length ((text ++ marked b'/' k) ++ hash)) e
      ∙ ap length (append_assoc text (b'/' ∷ c ∷ key) hash)
      ∙ length-append text (b'/' ∷ ((c ∷ key) ++ hash)) in
    let r =
      corbaloc-Reads n.location new_name.location (key_start n) c key hash l i refl e
        (omega (arith, size)) (hash-Stops n.name) (hash-no_percent n.name h) refl in
    let loc : CorbaLocation = record {
      addr = n.location.addr;
      object_key = taken (key_start n) (c ∷ key) hash;
    } in
    let (next, runs) = name-Reads loc n.name l r.next h r.runs r.sees in
    (
      next,
      runs
          ∙ ap
              (λ k. ok (
                record {
                  location = record {
                    addr = n.location.addr;
                    object_key = taken (key_start n) k hash;
                  };
                  name = n.name;
                },
                next,
              ))
              (sym e),
    )

-- From the text that `CorbaName::str` gives, `decodeURI` reads the same addresses and the same
-- name, but an object key that has run on: as many octets of the key and of the `#name` behind it
-- as there are octets of text up to the end of the key. The location is as for a `corbaloc`, its
-- key is not empty, and the name has only characters that `uri` takes, without a percent sign.
pub decode_uri-name_str :
    (there : ByteOrder) (n : CorbaName) {c : ℕ} {key : List ℕ}
    → IsLocation n.location
    → IsPlain n.name
    → n.location.object_key ≡ c ∷ key
    → decode_uri there (name_str n) ≡ ok (corba_name (decoded_name n))
unfolding decode_uri parse name_str
decode_uri-name_str there n {c} {key} i h e =
    let text : List ℕ = location_text n.location ++ marked b'#' n.name in
    let l : UrlLexer = start_of (name_str n) in
    let (next, runs) = name_str-Reads n c key i h e in
    rw
      (
        match-Misses b'I' (codes "OR:") (name_str n) l refl (omega arith),
        misses-corbaloc text,
        match-Sees (codes "corbaname:") text l (omega arith) refl,
        runs,
      )
      refl
