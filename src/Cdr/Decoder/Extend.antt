-- ===== src/Cdr/Decoder/Extend.antt =====
-- The reads of cdr.cc, on a buffer and on a longer one.
use corba_cc.Base.{
  ℕ, zero, suc, ◌+◌, ◌≤◌, ◌≡◌, ap, List, [], ◌∷◌, ◌++◌, arith, length, take, drop, get_elem?, ltb,
  ok, ◌>>=◌, Bool-cases, inl, inr, Option, some, none, length-append, take-append_le,
  drop-append_le, length-drop, le→ltb, bind-eq-ok, false,
}
use corba_cc.Cdr.Bytes.{ByteOrder}
use corba_cc.Cdr.Decoder.{Decoder, Read, fetch, ptr, align, skip, at_offset, read_octet, read_word}

abbrev pub extend : List ℕ → Decoder → Decoder
extend more d = record d { data_ = d.data_ ++ more }

get_elem?-append_some :
    (xs ys : List ℕ) (i v : ℕ) → get_elem? xs i ≡ some v → get_elem? (xs ++ ys) i ≡ some v
get_elem?-append_some [] ys i v h = cc
get_elem?-append_some (x ∷ xs) ys zero v h = h
get_elem?-append_some (x ∷ xs) ys (suc i) v h = get_elem?-append_some xs ys i v h

-- `r` reads the same from any longer buffer.
abbrev pub Extends {ℓ} : {A : Type ℓ} → (Decoder → Read A) → Type ℓ
Extends {A} r =
    (more : List ℕ) (d : Decoder) (a : A) (d' : Decoder)
    → r d ≡ ok (a, d')
    → r (extend more d) ≡ ok (a, extend more d')

at_offset-Extends :
    (o : Option ℕ) (more : List ℕ) (d : Decoder) (a : ℕ) (d' : Decoder)
    → at_offset o d ≡ ok (a, d')
    → (o ≡ some a) × (skip 1 d ≡ d')
unfolding at_offset
at_offset-Extends none more d a d' h = cc
at_offset-Extends (some b) more d a d' h = (cc, cc)

pub read_octet-Extends : Extends read_octet
unfolding read_octet
read_octet-Extends more d a d' h =
    let (found, moved) = at_offset-Extends (get_elem? d.data_ d.offset) more d a d' h in
    rw (get_elem?-append_some d.data_ more d.offset a found)
      (unfold at_offset skip in ap (λ x. ok (a, extend more x)) moved)

pub fetch-Extends : (n : ℕ) → Extends (fetch n)
unfolding fetch skip
fetch-Extends n more d bs d' h = elim (Bool-cases (ltb (length d.data_) (d.offset + n))) [
  | inl far ↦ cc (rw far at h)
  | inr near ↦
      let inside : d.offset + n ≤ length d.data_ = ground arith in
      let read : ok (take n (drop d.offset d.data_), skip n d) ≡ ok (bs, d') = rw near at h in
      let still : ltb (length (d.data_ ++ more)) (d.offset + n) ≡ false =
        le→ltb _ _ (omega (arith, length-append d.data_ more)) in
      rw
        (
          still,
          drop-append_le d.offset d.data_ more (omega arith),
          take-append_le n (drop d.offset d.data_) more
              (omega (arith, length-drop d.offset d.data_)),
        )
        (ap (λ x. x >>= λ y. ok (y.0, extend more y.1)) read)
]

pub ptr-Extends : (k : ℕ) → Extends (ptr k)
unfolding ptr align
ptr-Extends k more d bs d' h = fetch-Extends k more (align k d) bs d' h

pub read_word-Extends : (there : ByteOrder) (k : ℕ) → Extends (read_word there k)
unfolding read_word
read_word-Extends there k more d v d' h =
    let ((bs, d1), fetched, read) = bind-eq-ok (ptr k d) _ (v, d') h in
    rw (ptr-Extends k more d bs d1 fetched) (ap (λ x. x >>= λ y. ok (y.0, extend more y.1)) read)
