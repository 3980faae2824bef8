-- ===== src/Cdr/Decoder/Cursor.antt =====
-- A decoder of cdr.cc that stands between the octets it has read and those to come.
use corba_cc.Base.{
  ℕ, ◌+◌, ◌^◌, ◌<◌, ◌≡◌, sym, ap, ◌∙◌, List, [], ◌∷◌, ◌++◌, arith, Option, some, length, replicate,
  length-append, length-replicate, drop-append, take-append, append_assoc, get_elem?-append, ok,
  le→ltb,
}
use corba_cc.Cdr.Bytes.{ByteOrder, store}
use corba_cc.Cdr.Bytes.Laws.{length-store, load-store, swap_load, store-IsByte}
use corba_cc.Cdr.Encoder.Append.{padding, align_to-ge}
use corba_cc.Cdr.Decoder.{
  Decoder, align, skip, fetch, at_offset, read_octet, from_native, read_word, ptr,
}

abbrev pub cursor : Option ByteOrder → List ℕ → List ℕ → Decoder
cursor endian pre post = record { data_ = pre ++ post; offset = length pre; endian = endian }

pub decoder_path :
    (o : Option ByteOrder) (xs ys : List ℕ) (m n : ℕ)
    → xs ≡ ys
    → m ≡ n
    → ◌≡◌ {A = Decoder}
        (record { data_ = xs; offset = m; endian = o })
        (record { data_ = ys; offset = n; endian = o })
decoder_path o xs ys m n p q = λ i. record { data_ = p i; offset = q i; endian = o }

module _ (o : Option ByteOrder) where
  -- Passing over octets moves them to what has been read.
  pub skip-cursor :
      (pre bs rest : List ℕ)
      → skip (length bs) (cursor o pre (bs ++ rest)) ≡ cursor o (pre ++ bs) rest
  unfolding skip
  skip-cursor pre bs rest =
      decoder_path o _ _ _ _ (sym (append_assoc pre bs rest)) (sym (length-append pre bs))

  pub align-cursor :
      (k : ℕ) (pre rest : List ℕ)
      → 0 < k
      → align k (cursor o pre (replicate (padding k (length pre)) 0 ++ rest))
        ≡ cursor o (pre ++ replicate (padding k (length pre)) 0) rest
  unfolding align padding
  align-cursor k pre rest pos = decoder_path o _ _ _ _ (sym (append_assoc pre _ rest)) (
      omega (
        arith,
        length-append pre (replicate (padding k (length pre)) 0),
        length-replicate {A = ℕ} (padding k (length pre)) 0,
        align_to-ge k (length pre) pos,
      ))

  pub fetch-cursor :
      (pre bs rest : List ℕ)
      → fetch (length bs) (cursor o pre (bs ++ rest)) ≡ ok (bs, cursor o (pre ++ bs) rest)
  unfolding fetch
  fetch-cursor pre bs rest = rw (
    le→ltb (length (pre ++ (bs ++ rest))) (length pre + length bs)
        (omega (arith, length-append pre (bs ++ rest), length-append bs rest)),
    drop-append pre (bs ++ rest),
    take-append bs rest,
    skip-cursor pre bs rest,
  )

  pub read_octet-cursor :
      (pre : List ℕ) (b : ℕ) (rest : List ℕ)
      → read_octet (cursor o pre (b ∷ rest)) ≡ ok (b, cursor o (pre ++ (b ∷ [])) rest)
  unfolding read_octet at_offset
  read_octet-cursor pre b rest =
      rw (get_elem?-append pre b rest) (ap (λ d. ok (b, d)) (skip-cursor pre (b ∷ []) rest))

-- A decoder reads the number that a machine with the byte order of the message has stored.
pub from_native-store :
    (there host : ByteOrder) (k v : ℕ)
    → v < 256 ^ k
    → from_native there (some host) (store host k v) ≡ v
unfolding from_native
from_native-store there host k v h =
    swap_load there host (store host k v) (store-IsByte host k v) ∙ load-store host k v h

pub read_word-cursor :
    (there host : ByteOrder) (k v : ℕ) (pre rest : List ℕ)
    → 0 < k
    → v < 256 ^ k
    → let pad : List ℕ = replicate (padding k (length pre)) 0 in
      read_word there k (cursor (some host) pre (pad ++ (store host k v ++ rest)))
      ≡ ok (v, cursor (some host) ((pre ++ pad) ++ store host k v) rest)
unfolding read_word ptr
read_word-cursor there host k v pre rest pos h =
    let pad : List ℕ = replicate (padding k (length pre)) 0 in
    let fetched : fetch k (cursor (some host) (pre ++ pad) (store host k v ++ rest))
        ≡ ok (store host k v, cursor (some host) ((pre ++ pad) ++ store host k v) rest) =
      ap (λ n. fetch n (cursor (some host) (pre ++ pad) (store host k v ++ rest)))
        (sym (length-store host k v))
      ∙ fetch-cursor (some host) (pre ++ pad) (store host k v) rest in
    rw (align-cursor (some host) k pre (store host k v ++ rest) pos, fetched)
      (ap (λ x. ok (x, cursor (some host) ((pre ++ pad) ++ store host k v) rest))
        (from_native-store there host k v h))
