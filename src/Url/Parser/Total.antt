-- ===== src/Url/Parser/Total.antt =====
-- How `decodeURI` of url.cc ends.
use corba_cc.Base.{
  ℕ, zero, suc, ◌+◌, List, [], ◌∷◌, ◌≢◌, Option, some, none, length, take, drop, arith, codes,
  maybe, Result, ok, err, unfinished, ◌>>=◌, ltb, ◌==◌, Bool-cases, inl, inr, get_elem?, bytes_eq,
  ◌%◌,
}
use corba_cc.Cdr.Bytes.{ByteOrder}
use corba_cc.Cdr.Decoder.{
  Decoder, Read, new_decoder, fetch, ptr, at_offset, read_octet, read_endian, read_word, read_ulong,
  read_ushort, read_blob, read_string, read_string_of, drop_terminator, set_little_endian,
}
use corba_cc.Cdr.Decoder
use corba_cc.Giop.Enums.{ProfileId, profile_id}
use corba_cc.Giop.Decoder.{
  Profile, read_encapsulation, repeat, read_profile, make_ior, read_reference,
}
use corba_cc.Url.Lexer.{UrlLexer, advance, hex_value}
use corba_cc.Url.Parser.{decode_hex, read_ior, trim, ior_of, parse, corbaloc, corbaname, decode_uri}
use corba_cc.Url.Parser.Ends.{Ends, bind-Ends, maybe-Ends, match-Ends}
use corba_cc.Url.Parser.Rounds.{corbaloc-Parses, corbaname-Parses}
use corba_cc.Url.{new_location, new_name}

-- A call that ends, with whatever value or with an error of the program.
abbrev Stops {ℓ} : {A : Type ℓ} → Result A → Type 0
Stops r = Ends (λ x. Unit {0}) r

then-Stops {ℓ κ} :
    {A : Type ℓ} {B : Type κ} (m : Result A) (f : A → Result B)
    → Stops m
    → ((a : A) → Stops (f a))
    → Stops (m >>= f)
then-Stops m f h k = bind-Ends (λ x. Unit {0}) (λ x. Unit {0}) m f h (λ a _. k a)

fetch-Stops : (n : ℕ) (d : Decoder) → Stops (fetch n d)
unfolding fetch
fetch-Stops n d = elim (Bool-cases (ltb (length d.data_) (d.offset + n))) [
  | inl e ↦ rw e (cc)
  | inr e ↦ rw e tt
]

at_offset-Stops : (o : Option ℕ) (d : Decoder) → Stops (at_offset o d)
unfolding at_offset
at_offset-Stops none d = cc
at_offset-Stops (some b) d = tt

read_octet-Stops : (d : Decoder) → Stops (read_octet d)
unfolding read_octet
read_octet-Stops d = at_offset-Stops (get_elem? d.data_ d.offset) d

read_word-Stops : (there : ByteOrder) (k : ℕ) (d : Decoder) → Stops (read_word there k d)
unfolding read_word ptr
read_word-Stops there k d =
    then-Stops (fetch k (Decoder.align k d)) _ (fetch-Stops k (Decoder.align k d)) λ x. tt

drop_terminator-Stops : (n : ℕ) (bs : List ℕ) (d : Decoder) → Stops (drop_terminator n bs d)
unfolding drop_terminator
drop_terminator-Stops zero bs d = cc
drop_terminator-Stops (suc n) bs d = tt

read_string_of-Stops : (n : ℕ) (d : Decoder) → Stops (read_string_of n d)
unfolding read_string_of
read_string_of-Stops n d =
    then-Stops (fetch n d) _ (fetch-Stops n d) λ x. drop_terminator-Stops n x.0 x.1

read_string-Stops : (there : ByteOrder) (d : Decoder) → Stops (read_string there d)
unfolding read_string read_ulong
read_string-Stops there d =
    then-Stops (read_word there 4 d) _ (read_word-Stops there 4 d) λ x. read_string_of-Stops x.0 x.1

read_blob-Stops : (there : ByteOrder) (d : Decoder) → Stops (read_blob there d)
unfolding read_blob read_ulong
read_blob-Stops there d =
    then-Stops (read_word there 4 d) _ (read_word-Stops there 4 d) λ x. fetch-Stops x.0 x.1

read_profile-Stops :
    (there : ByteOrder) (id : ProfileId) (p : Profile) (d : Decoder)
    → Stops (read_profile there id p d)
unfolding read_profile read_ushort
read_profile-Stops there ProfileId.tag_internet_iop p d =
    then-Stops (read_octet d) _ (read_octet-Stops d) λ a.
      then-Stops (read_octet a.1) _ (read_octet-Stops a.1) λ b.
        then-Stops (read_string there b.1) _ (read_string-Stops there b.1) λ c.
          then-Stops (read_word there 2 c.1) _ (read_word-Stops there 2 c.1)
            λ e. then-Stops (read_blob there e.1) _ (read_blob-Stops there e.1) λ f. tt
read_profile-Stops there _ p d = tt

module _ {S : Type 0} where
  read_encapsulation-Stops :
      (there : ByteOrder) (closure : ℕ → S → Decoder → Read S) (s : S) (d : Decoder)
      → ((type : ℕ) (s : S) (d : Decoder) → Stops (closure type s d))
      → Stops (read_encapsulation there closure s d)
  unfolding read_encapsulation read_ulong
  read_encapsulation-Stops there closure s d h =
      then-Stops (read_word there 4 d) _ (read_word-Stops there 4 d) λ a.
        then-Stops (read_word there 4 a.1) _ (read_word-Stops there 4 a.1) λ b.
          then-Stops (read_octet b.1) _ (read_octet-Stops b.1) λ c.
            then-Stops (closure a.0 s (set_little_endian (c.0 % 2 == 1) c.1)) _
              (h a.0 s (set_little_endian (c.0 % 2 == 1) c.1)) λ e. tt

  repeat-Stops :
      (n : ℕ) (body : S → Decoder → Read S) (s : S) (d : Decoder)
      → ((s : S) (d : Decoder) → Stops (body s d))
      → Stops (repeat n body s d)
  unfolding repeat
  repeat-Stops zero body s d h = tt
  repeat-Stops (suc n) body s d h =
      then-Stops (body s d) _ (h s d) λ a. repeat-Stops n body a.0 a.1 h

make_ior-Stops : (oid : List ℕ) (p : Profile) (port : Option ℕ) → Stops (make_ior oid p port)
unfolding make_ior
make_ior-Stops oid p none = cc
make_ior-Stops oid p (some n) = tt

read_reference-Stops : (there : ByteOrder) (n : ℕ) (d : Decoder) → Stops (read_reference there n d)
unfolding read_reference read_ulong
read_reference-Stops there n d = then-Stops (read_string_of n d) _ (read_string_of-Stops n d) λ oid.
    then-Stops (read_word there 4 oid.1) _ (read_word-Stops there 4 oid.1) λ count.
      then-Stops (repeat count.0 _ _ count.1) _
        (repeat-Stops count.0 _ _ count.1 λ s e.
          read_encapsulation-Stops there _ s e
            λ type t f. read_profile-Stops there (profile_id type) t f)
        λ p. then-Stops (make_ior oid.0 p.0 p.0.port) _ (make_ior-Stops oid.0 p.0 p.0.port) λ i. tt

read_endian-Stops : (d : Decoder) → Stops (read_endian d)
unfolding read_endian
read_endian-Stops d = then-Stops (read_octet d) _ (read_octet-Stops d) λ a. tt

read_ior-Stops : (there : ByteOrder) (buffer : List ℕ) → Stops (read_ior there buffer)
unfolding read_ior read_ulong
read_ior-Stops there buffer =
    then-Stops (read_endian (new_decoder buffer)) _ (read_endian-Stops (new_decoder buffer)) λ a.
      then-Stops (read_word there 4 a.1) _ (read_word-Stops there 4 a.1) λ b.
        then-Stops (read_reference there b.0 b.1) _ (read_reference-Stops there b.0 b.1) λ c. tt

decode_hex-Stops : (s : List ℕ) → Stops (decode_hex s)
unfolding decode_hex
decode_hex-Stops [] = tt
decode_hex-Stops (a ∷ []) = cc
decode_hex-Stops (a ∷ b ∷ rest) =
    then-Stops (maybe (hex_value none (a ∷ b ∷ [])) _ ok) _
      (maybe-Ends _ (hex_value none (a ∷ b ∷ [])) _ ok (cc) λ n. tt)
      λ octet. then-Stops (decode_hex rest) _ (decode_hex-Stops rest) λ octets. tt

ior_of-Stops : (there : ByteOrder) (text : List ℕ) → Stops (ior_of there text)
unfolding ior_of
ior_of-Stops there text = elim (Bool-cases (bytes_eq (take 4 (trim text)) (codes "IOR:"))) [
  | inr other ↦ rw other (cc)
  | inl prefix ↦ elim (Bool-cases (length (trim text) % 2 == 1)) [
    | inl odd ↦ rw (prefix, odd) (cc)
    | inr even ↦
        rw (prefix, even)
          (then-Stops (decode_hex (drop 4 (trim text))) _ (decode_hex-Stops (drop 4 (trim text)))
            λ buffer. read_ior-Stops there buffer)
  ]
]

parse-Stops : (there : ByteOrder) (l : UrlLexer) → Stops (parse there l)
unfolding parse
parse-Stops there l =
    match-Ends _ (codes "IOR:") l _ _
      (match-Ends _ (codes "corbaloc:") l _ _
        (match-Ends _ (codes "corbaname:") l _ _ (cc) λ fits.
          bind-Ends _ _ (corbaname new_name (advance 10 l)) _
            (corbaname-Parses new_name (advance 10 l) fits) λ x _. tt)
        λ fits.
          bind-Ends _ _ (corbaloc new_location (advance 9 l)) _
            (corbaloc-Parses new_location (advance 9 l) fits) λ x _. tt)
      λ fits. then-Stops (ior_of there l.data_) _ (ior_of-Stops there l.data_) λ i. tt

refuses-unfinished {ℓ} : {A : Type ℓ} (r : Result A) → Stops r → r ≢ err unfinished
refuses-unfinished (ok a) h = cc
refuses-unfinished (err e) h = ground arith

-- On every text `decodeURI` returns a reference or throws, or meets a step that C++ leaves
-- undefined: its loops over labels and addresses never run out of the rounds that the length of
-- the text gives.
pub decode_uri-ends : (there : ByteOrder) (text : List ℕ) → decode_uri there text ≢ err unfinished
unfolding decode_uri
decode_uri-ends there text =
    refuses-unfinished (decode_uri there text)
      (parse-Stops there (record { data_ = text; pos = 0 }))
