-- ===== src/Cdr/Decoder/Bounds.antt =====
-- The reads of cdr.cc that test the moved offset, on every input.
use corba_cc.Base.{
  ℕ, zero, suc, ◌+◌, ◌≤◌, ◌<◌, ◌≡◌, ◌≢◌, refl, ◌∙◌, List, arith, length, ltb, ok, err, ◌>>=◌,
  overrun, Bool-cases, inl, inr,
}
use corba_cc.Cdr.Bytes.{ByteOrder}
use corba_cc.Cdr.Encoder.Append.{align_to-ge}
use corba_cc.Cdr.Decoder.{
  Decoder, Read, fetch, ptr, align, skip, read_word, read_ulong, read_blob, read_string,
  read_string_of, drop_terminator,
}

-- The decoder that a read leaves has moved on within the same buffer.
pub record Advanced (d d' : Decoder) : Type 0 where
  pub same_data : d'.data_ ≡ d.data_
  pub same_endian : d'.endian ≡ d.endian
  pub forward : d.offset ≤ d'.offset
  pub inside : d'.offset ≤ length d'.data_

-- A read ends inside the buffer or throws, and never goes outside.
abbrev pub IsChecked : {A : Type 0} → Decoder → Read A → Type 0
IsChecked d (ok (a, d')) = Advanced d d'
IsChecked d (err e) = e ≢ overrun

pub Advanced-trans : {c d e : Decoder} → Advanced c d → Advanced d e → Advanced c e
Advanced-trans a b = record {
  same_data = b.same_data ∙ a.same_data;
  same_endian = b.same_endian ∙ a.same_endian;
  forward = omega arith;
  inside = b.inside;
}

pub IsChecked-bind :
    {A B : Type 0} (d : Decoder) (m : Read A) (f : A × Decoder → Read B)
    → IsChecked d m
    → ((a : A) (d' : Decoder) → Advanced d d' → IsChecked d' (f (a, d')))
    → IsChecked d (m >>= f)
IsChecked-bind {B} d (ok (a, d')) f c next = later (f (a, d')) c (next a d' c)
  where
    later : (r : Read B) → Advanced d d' → IsChecked d' r → IsChecked d r
    later (ok (b, e)) c c' = Advanced-trans c c'
    later (err e) c c' = c'
IsChecked-bind d (err e) f c next = c

pub fetch-IsChecked : (n : ℕ) (d : Decoder) → IsChecked d (fetch n d)
unfolding fetch skip
fetch-IsChecked n d = elim (Bool-cases (ltb (length d.data_) (d.offset + n))) [
  | inl e ↦ rw e (λ x. cc)
  | inr e ↦ rw e (record {
    same_data = refl;
    same_endian = refl;
    forward = omega arith;
    inside = ground arith;
  })
]

pub ptr-IsChecked : (k : ℕ) (d : Decoder) → 0 < k → IsChecked d (ptr k d)
unfolding ptr
ptr-IsChecked k d pos = moved (fetch k (align k d)) (fetch-IsChecked k (align k d))
  where
    moved : (r : Read (List ℕ)) → IsChecked (align k d) r → IsChecked d r
    moved (ok (bs, e)) c =
        unfold align in
        record {
          same_data = c.same_data;
          same_endian = c.same_endian;
          forward = omega (arith, c.forward, align_to-ge k d.offset pos);
          inside = c.inside;
        }
    moved (err e) c = c

pub read_word-IsChecked :
    (host : ByteOrder) (k : ℕ) (d : Decoder) → 0 < k → IsChecked d (read_word host k d)
unfolding read_word
read_word-IsChecked host k d pos = IsChecked-bind d (ptr k d) _ (ptr-IsChecked k d pos) λ bs d' a.
    record { same_data = refl; same_endian = refl; forward = omega arith; inside = a.inside }

pub read_blob-IsChecked : (host : ByteOrder) (d : Decoder) → IsChecked d (read_blob host d)
unfolding read_blob read_ulong
read_blob-IsChecked host d =
    IsChecked-bind d (read_word host 4 d) _ (read_word-IsChecked host 4 d (omega arith))
      (λ len d' a. fetch-IsChecked len d')

pub read_string_of-IsChecked : (len : ℕ) (d : Decoder) → IsChecked d (read_string_of len d)
unfolding read_string_of drop_terminator
read_string_of-IsChecked zero d =
    IsChecked-bind d (fetch 0 d) _ (fetch-IsChecked 0 d) (λ bs d' a x. cc)
read_string_of-IsChecked (suc n) d =
    IsChecked-bind d (fetch (suc n) d) _ (fetch-IsChecked (suc n) d) λ bs d' a. record {
      same_data = refl;
      same_endian = refl;
      forward = omega arith;
      inside = a.inside;
    }

-- On every input `readString` either throws or moves forward within the same buffer; it never
-- reads outside the buffer, whatever length the input claims.
pub read_string-IsChecked : (host : ByteOrder) (d : Decoder) → IsChecked d (read_string host d)
unfolding read_string read_ulong
read_string-IsChecked host d =
    IsChecked-bind d (read_word host 4 d) _ (read_word-IsChecked host 4 d (omega arith))
      (λ len d' a. read_string_of-IsChecked len d')
