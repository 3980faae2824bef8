-- ===== src/Url/Parser/Lists.antt =====
-- The address list of a reference as `str` writes it, read by `obj_addr_list` of url.cc.
use corba_cc.Base.{
  ℕ, zero, suc, ◌<◌, ◌≤◌, List, [], ◌∷◌, ◌++◌, ◌≡◌, refl, sym, ap, ◌∙◌, ok, length, All,
  length-append, append_assoc, append-nil, arith, codes, bytes_eq,
}
use corba_cc.Url.Lexer.{UrlLexer, advance, is_digit}
use corba_cc.Url.Lexer.Sees.{Sees, advance-Sees, match-Sees, Misses, match-Misses, Stops}
use corba_cc.Url.Printer.{address_text, iiop_text, separator, addresses_text}
use corba_cc.Url.Parser.{obj_addr_list}
use corba_cc.Url.Parser.Hosts.{Reads}
use corba_cc.Url.Parser.Addresses.{IsAddress, iiop_address, rir_address, obj_addr-Reads}
use corba_cc.Url.{ObjectAddress}

-- Each address behind a comma.
pub tail_text : List ObjectAddress → List ℕ
tail_text [] = []
tail_text (a ∷ more) = b',' ∷ (address_text a ++ tail_text more)

addresses_text-tail :
    (c : ℕ) (txt : List ℕ) (more : List ObjectAddress)
    → addresses_text (c ∷ txt) more ≡ c ∷ (txt ++ tail_text more)
unfolding addresses_text separator tail_text
addresses_text-tail c txt [] = ap (◌∷◌ c) (sym (append-nil txt))
addresses_text-tail c txt (a ∷ more) =
    addresses_text-tail c (txt ++ (b',' ∷ address_text a)) more
    ∙ ap (◌∷◌ c) (append_assoc txt (b',' ∷ address_text a) (tail_text more))

pub addresses_text-cons :
    {a : ObjectAddress} (more : List ObjectAddress)
    → IsAddress a
    → addresses_text [] (a ∷ more) ≡ address_text a ++ tail_text more
unfolding addresses_text separator address_text iiop_text bytes_eq
addresses_text-cons {a} more (iiop_address e hm hn hh hp) = rw e (addresses_text-tail _ _ more)
addresses_text-cons {a} more (rir_address e) = rw e (addresses_text-tail _ _ more)

comma-Stops : (rest : List ℕ) → Stops is_digit (b',' ∷ rest)
unfolding is_digit
comma-Stops rest = refl

tail_text-Stops :
    (more : List ObjectAddress) (rest : List ℕ)
    → Stops is_digit rest
    → Stops is_digit (tail_text more ++ rest)
unfolding tail_text
tail_text-Stops [] rest h = h
tail_text-Stops (a ∷ more) rest h = comma-Stops ((address_text a ++ tail_text more) ++ rest)

pub obj_addr_list-Reads :
    (rounds : ℕ) (list : List ObjectAddress) (a : ObjectAddress) (more : List ObjectAddress)
    (rest : List ℕ) (l : UrlLexer)
    → IsAddress a
    → All IsAddress more
    → length more < rounds
    → Stops is_digit rest
    → Misses b',' rest
    → Sees l (address_text a ++ (tail_text more ++ rest))
    → Reads (obj_addr_list rounds list) (list ++ (a ∷ more)) l rest
unfolding obj_addr_list tail_text
obj_addr_list-Reads zero list a more rest l i is h stop miss sees = absurd (omega arith)
obj_addr_list-Reads (suc rounds) list a [] rest l i is h stop miss sees =
    let r = obj_addr-Reads rest l i stop sees in
    record {
      next = r.next;
      runs = rw (r.runs, match-Misses b',' [] rest r.next r.sees miss) refl;
      sees = r.sees;
      keeps = r.keeps;
    }
obj_addr_list-Reads (suc rounds) list a (b ∷ more) rest l i (j, is) h stop miss sees =
    let behind : List ℕ = address_text b ++ (tail_text more ++ rest) in
    let comma : tail_text (b ∷ more) ++ rest ≡ b',' ∷ behind =
      ap (◌∷◌ b',') (append_assoc (address_text b) (tail_text more) rest) in
    let r =
      obj_addr-Reads (tail_text (b ∷ more) ++ rest) l i (tail_text-Stops (b ∷ more) rest stop)
        sees in
    let at_comma : Sees r.next (b',' ∷ behind) = r.sees ∙ comma in
    let later =
      obj_addr_list-Reads rounds (list ++ (a ∷ [])) b more rest (advance 1 r.next) j is
        (omega arith) stop miss (advance-Sees (codes ",") behind r.next at_comma) in
    record {
      next = later.next;
      runs =
          rw (r.runs, match-Sees (codes ",") behind r.next (omega arith) at_comma, later.runs)
            (ap (λ (xs : List ObjectAddress). ok (xs, later.next))
              (append_assoc list (a ∷ []) (b ∷ more)));
      sees = later.sees;
      keeps = later.keeps ∙ r.keeps;
    }

-- There are fewer addresses behind the first than octets of text.
pub length-tail_text : (more : List ObjectAddress) → length more ≤ length (tail_text more)
unfolding tail_text
length-tail_text [] = omega arith
length-tail_text (a ∷ more) =
    omega (arith, length-append (address_text a) (tail_text more), length-tail_text more)
