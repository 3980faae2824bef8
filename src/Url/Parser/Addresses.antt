-- ===== src/Url/Parser/Addresses.antt =====
-- The text of an object address as `str` writes it, read by `obj_addr` of url.cc.
use corba_cc.Base.{
  small, ℕ, ◌%◌, ◌<◌, List, [], ◌∷◌, ◌++◌, ◌≡◌, refl, sym, ap, ◌∙◌, some, ok, length, append_assoc,
  arith, codes, bytes_eq,
}
use corba_cc.Url.Lexer.{UrlLexer, advance, is_digit, is_alnum, number}
use corba_cc.Url.Lexer.Sees.{Sees, advance-Sees, match-Sees, match-Misses, Stops}
use corba_cc.Url.Lexer.Numbers.{number-IsNumeral}
use corba_cc.Url.Printer.{decimal, iiop_text, address_text}
use corba_cc.Url.Printer.Digits.{decimal-IsNumeral}
use corba_cc.Url.Parser.{
  version, is_label, host, port, iiop_addr, iiop_id, iiop_prot_addr, rir_prot_addr, prot_addr,
  obj_addr,
}
use corba_cc.Url.Parser.Hosts.{IsHost, Reads, host-IsHost}
use corba_cc.Url.{ObjectAddress, iiop, rir, new_address}

-- An address that its text shows whole.
pub data IsAddress : ObjectAddress → Type 0 where
  iiop_address :
      {a : ObjectAddress}
      → a.proto ≡ iiop
      → a.major < 256
      → a.minor < 256
      → IsHost a.host
      → a.port < 65536
      → IsAddress a
  rir_address : {a : ObjectAddress} → a ≡ record new_address { proto = rir } → IsAddress a

mark-Stops : (c : ℕ) (rest : List ℕ) → c < b'0' → Stops is_digit (c ∷ rest)
unfolding is_digit
mark-Stops c rest h = ground arith

at-Stops : (rest : List ℕ) → Stops is_digit (b'@' ∷ rest)
unfolding is_digit
at-Stops rest = refl

decimal-number :
    (n : ℕ) (rest : List ℕ) (l : UrlLexer)
    → n < 65536
    → Stops is_digit rest
    → Sees l (decimal n ++ rest)
    → number l ≡ ok (some n, advance (length (decimal n)) l)
decimal-number n rest l h stop sees =
    number-IsNumeral (decimal n) rest n l (decimal-IsNumeral n (omega arith)) (omega arith) stop
      sees

version-Reads :
    (addr : ObjectAddress) (m n : ℕ) (rest : List ℕ) (l : UrlLexer)
    → m < 256
    → n < 256
    → Sees l (decimal m ++ (b'.' ∷ (decimal n ++ (b'@' ∷ rest))))
    → Reads (version addr) (record addr { major = m; minor = n }) l rest
unfolding version
version-Reads addr m n rest l hm hn sees =
    let behind : List ℕ = decimal n ++ (b'@' ∷ rest) in
    let l1 : UrlLexer = advance (length (decimal m)) l in
    let s1 : Sees l1 (b'.' ∷ behind) = advance-Sees (decimal m) (b'.' ∷ behind) l sees in
    let l2 : UrlLexer = advance 1 l1 in
    let s2 : Sees l2 behind = advance-Sees (codes ".") behind l1 s1 in
    let l3 : UrlLexer = advance (length (decimal n)) l2 in
    let s3 : Sees l3 (b'@' ∷ rest) = advance-Sees (decimal n) (b'@' ∷ rest) l2 s2 in
    record {
      next = advance 1 l3;
      runs =
          rw
            (
              decimal-number m (b'.' ∷ behind) l (omega arith)
                  (mark-Stops b'.' behind (omega arith)) sees,
              match-Sees (codes ".") behind l1 (omega arith) s1,
              decimal-number n (b'@' ∷ rest) l2 (omega arith) (at-Stops rest) s2,
              match-Sees (codes "@") rest l3 (omega arith) s3,
            )
            (ap (λ (a : ObjectAddress). ok (a, advance 1 l3)) (narrow addr m n hm hn));
      sees = advance-Sees (codes "@") rest l3 s3;
      keeps = refl;
    }
  where
    narrow :
        (addr : ObjectAddress) (m n : ℕ)
        → m < 256
        → n < 256
        → record addr { major = m % 256; minor = n % 256 } ≡ record addr { major = m; minor = n }
    narrow addr m n hm hn = rw (small m 256 hm, small n 256 hn) refl

host-Reads :
    (addr : ObjectAddress) {w : List ℕ} (rest : List ℕ) (l : UrlLexer)
    → IsHost w
    → Sees l (w ++ (b':' ∷ rest))
    → Reads (host (record addr { host = [] })) (record addr { host = w }) l (b':' ∷ rest)
unfolding is_label is_alnum is_digit
host-Reads addr {w} rest l i sees = record {
  next = advance (length w) l;
  runs = host-IsHost addr (b':' ∷ rest) l i refl (omega arith) (omega arith) sees;
  sees = advance-Sees w (b':' ∷ rest) l sees;
  keeps = refl;
}

port-Reads :
    (addr : ObjectAddress) (n : ℕ) (rest : List ℕ) (l : UrlLexer)
    → n < 65536
    → Stops is_digit rest
    → Sees l (decimal n ++ rest)
    → Reads (port addr) (some (record addr { port = n })) l rest
unfolding port
port-Reads addr n rest l h stop sees = record {
  next = advance (length (decimal n)) l;
  runs = rw (decimal-number n rest l h stop sees, small n 65536 h) refl;
  sees = advance-Sees (decimal n) rest l sees;
  keeps = refl;
}

iiop_addr-Reads :
    (a : ObjectAddress) (rest : List ℕ) (l : UrlLexer)
    → a.major < 256
    → a.minor < 256
    → IsHost a.host
    → a.port < 65536
    → Stops is_digit rest
    → Sees l (
        decimal a.major
        ++ (b'.' ∷ (decimal a.minor ++ (b'@' ∷ (a.host ++ (b':' ∷ (decimal a.port ++ rest)))))))
    → Reads (iiop_addr new_address) (record a { proto = iiop }) l rest
unfolding iiop_addr
iiop_addr-Reads a rest l hm hn hh hp stop sees =
    let behind : List ℕ = decimal a.port ++ rest in
    let v = version-Reads new_address a.major a.minor (a.host ++ (b':' ∷ behind)) l hm hn sees in
    let addr1 : ObjectAddress = record new_address { major = a.major; minor = a.minor } in
    let h = host-Reads addr1 behind v.next hh v.sees in
    let addr2 : ObjectAddress = record addr1 { host = a.host } in
    let l3 : UrlLexer = advance 1 h.next in
    let p =
      port-Reads addr2 a.port rest l3 hp stop (advance-Sees (codes ":") behind h.next h.sees) in
    record {
      next = p.next;
      runs =
          rw (v.runs, h.runs, match-Sees (codes ":") behind h.next (omega arith) h.sees, p.runs)
            refl;
      sees = p.sees;
      keeps = p.keeps ∙ h.keeps ∙ v.keeps;
    }

iiop_text-append :
    (a : ObjectAddress) (rest : List ℕ)
    → a.proto ≡ iiop
    → iiop_text a ++ rest
      ≡ codes "iiop:"
        ++ (decimal a.major
            ++ (b'.' ∷ (decimal a.minor ++ (b'@' ∷ (a.host ++ (b':' ∷ (decimal a.port ++ rest)))))))
unfolding iiop_text
iiop_text-append a rest e = rw e (simp append_assoc)

prot_addr-iiop :
    (a : ObjectAddress) (rest : List ℕ) (l : UrlLexer)
    → a.proto ≡ iiop
    → a.major < 256
    → a.minor < 256
    → IsHost a.host
    → a.port < 65536
    → Stops is_digit rest
    → Sees l (iiop_text a ++ rest)
    → Reads (prot_addr new_address) (some a) l rest
unfolding prot_addr rir_prot_addr iiop_prot_addr iiop_id
prot_addr-iiop a rest l e hm hn hh hp stop sees =
    let behind : List ℕ =
      decimal a.major
      ++ (b'.' ∷ (decimal a.minor ++ (b'@' ∷ (a.host ++ (b':' ∷ (decimal a.port ++ rest)))))) in
    let whole : Sees l (codes "iiop:" ++ behind) = sees ∙ iiop_text-append a rest e in
    let r =
      iiop_addr-Reads a rest (advance 5 l) hm hn hh hp stop
        (advance-Sees (codes "iiop:") behind l whole) in
    record {
      next = r.next;
      runs =
          rw
            (
              match-Misses b'r' (codes "ir:") (codes "iiop:" ++ behind) l whole (omega arith),
              match-Sees (codes "iiop:") behind l (omega arith) whole,
              r.runs,
            )
            (ap (λ (p : List ℕ). ok (some (record a { proto = p }), r.next)) (sym e));
      sees = r.sees;
      keeps = r.keeps;
    }

prot_addr-rir :
    (rest : List ℕ) (l : UrlLexer)
    → Sees l (codes "rir:" ++ rest)
    → Reads (prot_addr new_address) (some (record new_address { proto = rir })) l rest
unfolding prot_addr rir_prot_addr
prot_addr-rir rest l sees = record {
  next = advance 4 l;
  runs = rw (match-Sees (codes "rir:") rest l (omega arith) sees) refl;
  sees = advance-Sees (codes "rir:") rest l sees;
  keeps = refl;
}

pub obj_addr-Reads :
    {a : ObjectAddress} (rest : List ℕ) (l : UrlLexer)
    → IsAddress a
    → Stops is_digit rest
    → Sees l (address_text a ++ rest)
    → Reads (obj_addr new_address) (some a) l rest
unfolding obj_addr address_text bytes_eq
obj_addr-Reads {a} rest l (iiop_address e hm hn hh hp) stop sees =
    prot_addr-iiop a rest l e hm hn hh hp stop (sees ∙ rw e refl)
obj_addr-Reads {a} rest l (rir_address e) stop sees = rw e (prot_addr-rir rest l (rw e at sees))
