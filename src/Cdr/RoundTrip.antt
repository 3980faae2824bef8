-- ===== src/Cdr/RoundTrip.antt =====
-- The write operations of `CDREncoder` and the read operations of `CDRDecoder` of cdr.cc, in
-- pairs.
use corba_cc.Base.{
  ℕ, suc, ◌+◌, ◌*◌, ◌%◌, ◌^◌, ◌<◌, ◌≡◌, refl, sym, ap, ◌∙◌, List, [], ◌∷◌, ◌++◌, arith, Option,
  some, Bool, true, false, not, length, take, drop, length-append, append_assoc, take-append,
  drop-append, ok, ◌>>=◌, ◌==◌, All, le→ltb,
}
use corba_cc.Cdr.Bytes.{ByteOrder, store}
use corba_cc.Cdr.Bytes.Laws.{length-store, load-store}
use corba_cc.Cdr.Encoder.{
  emit, align, write_octet, write_boolean, write_word, write_ulong, write_blob, write_string,
  store_all, write_sequence_float, write_sequence_double,
}
use corba_cc.Cdr.Encoder.Append.{wire, wire-emit, emit-IsAppend}
use corba_cc.Cdr.Encoder.Strings.{pokes-emit}
use corba_cc.Cdr.Decoder
use corba_cc.Cdr.Decoder.{
  Decoder, Read, fetch, read_octet, read_boolean, read_word, read_ulong, read_blob, read_string,
  read_string_of, drop_terminator, read_string_view, read_string_view_of, view_to_terminator, span,
  load_all, read_sequence_float, read_sequence_double,
}
use corba_cc.Cdr.Decoder.Cursor.{cursor, fetch-cursor, skip-cursor, read_octet-cursor}
use corba_cc.Cdr.Codec.{Codec, seq-Codec, map-Codec, align-Codec, word-Codec}

-- A read that takes the octets of one `emit`.
pub emit-Codec {ℓ} :
    {A : Type ℓ} (o : Option ByteOrder) (bs : List ℕ) (r : Decoder → Read A) (a : A)
    → ((pre rest : List ℕ) → r (cursor o pre (bs ++ rest)) ≡ ok (a, cursor o (pre ++ bs) rest))
    → Codec o (emit bs) r a
emit-Codec o bs r a reads e h = record {
  bytes = bs;
  wire_eq = wire-emit bs e h;
  appends = emit-IsAppend bs e h;
  reads = λ pre rest _. reads pre rest;
}

pub octet-Codec : (o : Option ByteOrder) (v : ℕ) → v < 256 → Codec o (write_octet v) read_octet v
unfolding write_octet
octet-Codec o v h = emit-Codec o ((v % 256) ∷ []) read_octet v λ pre rest.
    read_octet-cursor o pre (v % 256) rest
    ∙ ap (λ x. ok (x, cursor o (pre ++ ((v % 256) ∷ [])) rest)) (omega arith)

-- A Boolean.
pub boolean-Codec : (o : Option ByteOrder) (v : Bool) → Codec o (write_boolean v) read_boolean v
unfolding write_boolean read_boolean
boolean-Codec o true =
    map-Codec o _ read_octet (λ b. not (b == 0)) 1
      (emit-Codec o (1 ∷ []) read_octet 1 (λ pre rest. read_octet-cursor o pre 1 rest))
boolean-Codec o false =
    map-Codec o _ read_octet (λ b. not (b == 0)) 0
      (emit-Codec o (0 ∷ []) read_octet 0 (λ pre rest. read_octet-cursor o pre 0 rest))

module _ (host there : ByteOrder) where
  -- A blob that `writeBlob` writes at any offset of an encoder that only appends, `readBlob`
  -- reads back on a machine of either byte order: for every blob shorter than 2 ^ 32 octets.
  pub blob-Codec :
      (bs : List ℕ)
      → length bs < 2 ^ 32
      → Codec (some host) (write_blob host bs) (read_blob there) bs
  unfolding write_blob read_blob write_ulong read_ulong
  blob-Codec bs h =
      seq-Codec (some host) (write_word host 4 (length bs)) (emit bs) (read_word there 4) fetch
        (length bs) bs (word-Codec host there 4 (length bs) (omega arith) h)
        (emit-Codec (some host) bs (fetch (length bs)) bs
          (λ pre rest. fetch-cursor (some host) pre bs rest))

  -- The string behind its length, read by a reader that drops the terminator.
  string_of-Codec :
      (bs : List ℕ) (r : ℕ → List ℕ → Decoder → Read (List ℕ))
      → ((d : Decoder) (xs : List ℕ) → r (suc (length bs)) (bs ++ xs) d ≡ ok (bs, d))
      → length bs + 1 < 2 ^ 32
      → Codec
          (some host)
          (write_string host bs)
          (λ d. read_ulong there d >>= λ x. fetch x.0 x.1 >>= λ y. r x.0 y.0 y.1)
          bs
  unfolding write_string write_ulong read_ulong
  string_of-Codec bs r dropped h e a =
      let n : ℕ = length bs + 1 in
      let prefix = word-Codec host there 4 n (omega arith) h in
      let body : Codec (some host) (emit (bs ++ (0 ∷ []))) (λ d. fetch n d >>= λ y. r n y.0 y.1)
          bs =
        emit-Codec (some host) (bs ++ (0 ∷ [])) _ bs λ pre rest.
          ap (λ k. fetch k (cursor (some host) pre ((bs ++ (0 ∷ [])) ++ rest)) >>= λ y. r n y.0 y.1)
            {x = n} {y = length (bs ++ (0 ∷ []))} (omega (arith, length-append bs (0 ∷ [])))
          ∙ rw (fetch-cursor (some host) pre (bs ++ (0 ∷ [])) rest) (
              ap (λ k. r k (bs ++ (0 ∷ [])) (cursor (some host) (pre ++ (bs ++ (0 ∷ []))) rest))
                {x = n} {y = suc (length bs)} (omega arith)
              ∙ dropped _ (0 ∷ [])) in
      let both =
        seq-Codec (some host) (write_word host 4 n) (emit (bs ++ (0 ∷ []))) (read_word there 4)
          (λ k d. fetch k d >>= λ y. r k y.0 y.1) n bs prefix body e a in
      let same = pokes-emit bs (write_word host 4 n e) (prefix e a).appends in
      record {
        bytes = both.bytes;
        wire_eq = ap wire same ∙ both.wire_eq;
        appends = rw same both.appends;
        reads = both.reads;
      }

  -- A string that `writeString` writes at any offset of an encoder that only appends,
  -- `readString` reads back on a machine of either byte order, and no octet more: for every
  -- string shorter than 2 ^ 32 - 1 octets.
  pub string-Codec :
      (bs : List ℕ)
      → length bs + 1 < 2 ^ 32
      → Codec (some host) (write_string host bs) (read_string there) bs
  unfolding read_string read_string_of drop_terminator
  string-Codec bs h =
      string_of-Codec bs drop_terminator (λ d xs. ap (λ ys. ok (ys, d)) (take-append bs xs)) h

  -- A string that `writeString` writes at any offset of an encoder that only appends,
  -- `readStringView` reads back on a machine of either byte order: for every string shorter than
  -- 2 ^ 32 - 1 octets.
  pub string_view-Codec :
      (bs : List ℕ)
      → length bs + 1 < 2 ^ 32
      → Codec (some host) (write_string host bs) (read_string_view there) bs
  unfolding read_string_view read_string_view_of view_to_terminator
  string_view-Codec bs h =
      string_of-Codec bs view_to_terminator (λ d xs. ap (λ ys. ok (ys, d)) (take-append bs xs)) h

-- A sequence of words in the memory of one machine.
length-store_all :
    (host : ByteOrder) (k : ℕ) (vs : List ℕ) → length (store_all host k vs) ≡ length vs * k
unfolding store_all
length-store_all host k [] = omega arith
length-store_all host k (v ∷ vs) =
    length-append (store host k v) (store_all host k vs)
    ∙ grind (arith, length-store host k v, length-store_all host k vs)

load_all-store_all :
    (host : ByteOrder) (k : ℕ) (vs rest : List ℕ)
    → All (λ v. v < 256 ^ k) vs
    → load_all host k (length vs) (store_all host k vs ++ rest) ≡ vs
unfolding load_all store_all
load_all-store_all host k [] rest h = refl
load_all-store_all host k (v ∷ vs) rest h =
    let xs : List ℕ = store_all host k vs ++ rest in
    let split : (store host k v ++ store_all host k vs) ++ rest ≡ store host k v ++ xs =
      append_assoc (store host k v) (store_all host k vs) rest in
    let front : take k (store host k v ++ xs) ≡ store host k v =
      ap (λ n. take n (store host k v ++ xs)) (sym (length-store host k v))
      ∙ take-append (store host k v) xs in
    let back : drop k (store host k v ++ xs) ≡ xs =
      ap (λ n. drop n (store host k v ++ xs)) (sym (length-store host k v))
      ∙ drop-append (store host k v) xs in
    rw (split, front, back, load-store host k v h.0, load_all-store_all host k vs rest h.1)

span-cursor :
    (host : ByteOrder) (o : Option ByteOrder) (k : ℕ) (vs pre rest : List ℕ)
    → All (λ v. v < 256 ^ k) vs
    → span host k (length vs) (cursor o pre (store_all host k vs ++ rest))
      ≡ ok (vs, cursor o (pre ++ store_all host k vs) rest)
unfolding span
span-cursor host o k vs pre rest h =
    let bs : List ℕ = store_all host k vs in
    let n : length bs ≡ length vs * k = length-store_all host k vs in
    rw
      (
        le→ltb (length (pre ++ (bs ++ rest))) (length pre + length vs * k)
            (omega (arith, length-append pre (bs ++ rest), length-append bs rest, n)),
        drop-append pre (bs ++ rest),
        load_all-store_all host k vs rest h,
      )
      (ap (λ m. ok (vs, Decoder.skip m (cursor o pre (bs ++ rest)))) (sym n)
        ∙ ap (λ d. ok (vs, d)) (skip-cursor o pre bs rest))

-- A sequence of floats, as their 32 bits, that `writeSequence` writes at any offset of an encoder
-- that only appends, `readSequenceVectorFloat` reads back on a machine of the same byte order:
-- for fewer than 2 ^ 32 elements.
pub sequence_float-Codec :
    (host : ByteOrder) (vs : List ℕ)
    → length vs < 2 ^ 32
    → All (λ v. v < 2 ^ 32) vs
    → Codec (some host) (write_sequence_float host vs) (read_sequence_float host) vs
unfolding write_sequence_float read_sequence_float write_ulong read_ulong
sequence_float-Codec host vs n h =
    seq-Codec (some host) (write_word host 4 (length vs)) (emit (store_all host 4 vs))
      (read_word host 4) (span host 4) (length vs) vs
      (word-Codec host host 4 (length vs) (omega arith) n)
      (emit-Codec (some host) (store_all host 4 vs) (span host 4 (length vs)) vs
        (λ pre rest. span-cursor host (some host) 4 vs pre rest h))

-- A sequence of doubles, as their 64 bits, that `writeSequence` writes at any offset of an
-- encoder that only appends, `readSequenceVectorDouble` reads back on a machine of the same byte
-- order: for fewer than 2 ^ 32 elements.
pub sequence_double-Codec :
    (host : ByteOrder) (vs : List ℕ)
    → length vs < 2 ^ 32
    → All (λ v. v < 2 ^ 64) vs
    → Codec (some host) (write_sequence_double host vs) (read_sequence_double host) vs
unfolding write_sequence_double read_sequence_double write_ulong read_ulong
sequence_double-Codec host vs n h =
    seq-Codec (some host) (write_word host 4 (length vs))
      (λ e. emit (store_all host 8 vs) (align 8 e)) (read_word host 4)
      (λ k d. span host 8 k (Decoder.align 8 d)) (length vs) vs
      (word-Codec host host 4 (length vs) (omega arith) n)
      (seq-Codec (some host) (align 8) (emit (store_all host 8 vs))
        (λ d. ok (tt {0}, Decoder.align 8 d)) (λ _ d. span host 8 (length vs) d) (tt {0}) vs
        (align-Codec (some host) 8 (omega arith))
        (emit-Codec (some host) (store_all host 8 vs) (span host 8 (length vs)) vs
          (λ pre rest. span-cursor host (some host) 8 vs pre rest h)))
