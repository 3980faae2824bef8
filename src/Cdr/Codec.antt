-- ===== src/Cdr/Codec.antt =====
-- A write operation of the encoder with the read operation of the decoder that undoes it.
use corba_cc.Base.{
  ℕ, ◌^◌, ◌<◌, ◌≡◌, refl, sym, ap, ◌∙◌, List, ◌++◌, Option, some, length, replicate, length-append,
  append_assoc, ok, ◌>>=◌, ◌+◌, arith, [], append-nil,
}
use corba_cc.Cdr.Bytes.{ByteOrder, store}
use corba_cc.Cdr.Encoder.{Encoder, emit, align, write_word}
use corba_cc.Cdr.Encoder.Append.{
  wire, IsAppend, padding, length-wire, wire-emit, emit-IsAppend, wire-align, align-IsAppend,
}
use corba_cc.Cdr.Decoder.{Decoder, Read, read_word, skip}
use corba_cc.Cdr.Decoder
use corba_cc.Cdr.Decoder.Cursor.{cursor, read_word-cursor, align-cursor}

-- From `e` to `e'` the message grew by octets from which `r` reads `a`, whatever stands before them in
-- the same place and whatever follows.
pub record Written {ℓ} {A : Type ℓ} (o : Option ByteOrder) (r : Decoder → Read A) (a : A)
    (e e' : Encoder) : Type ℓ where
  pub bytes : List ℕ
  pub wire_eq : wire e' ≡ wire e ++ bytes
  pub appends : IsAppend e'
  pub reads :
      (pre rest : List ℕ)
      → length pre ≡ e.offset
      → r (cursor o pre (bytes ++ rest)) ≡ ok (a, cursor o (pre ++ bytes) rest)

abbrev pub Codec {ℓ} :
    {A : Type ℓ} → Option ByteOrder → (Encoder → Encoder) → (Decoder → Read A) → A → Type ℓ
Codec o w r a = (e : Encoder) → IsAppend e → Written o r a e (w e)

pub offset-Written {ℓ} :
    {A : Type ℓ} {o : Option ByteOrder} {r : Decoder → Read A} {a : A} {e e' : Encoder}
    → IsAppend e
    → (t : Written o r a e e') → e'.offset ≡ e.offset + length t.bytes
offset-Written {e} {e'} h t = omega (
  arith,
  length-wire e h,
  length-wire e' t.appends,
  ap length t.wire_eq,
  length-append (wire e) t.bytes,
)

-- A read that takes nothing.
pub pure-Written {ℓ} :
    {A : Type ℓ} (o : Option ByteOrder) (a : A) (e : Encoder)
    → IsAppend e
    → Written o (λ d. ok (a, d)) a e e
pure-Written o a e h = record {
  bytes = [];
  wire_eq = sym (append-nil (wire e));
  appends = h;
  reads = λ pre rest at. rw (append-nil pre) refl;
}

-- Two reads in a row, of what was written in a row.
pub Written-seq {ℓ κ} :
    {A : Type ℓ} {B : Type κ} (o : Option ByteOrder) (r : Decoder → Read A)
    (r' : A → Decoder → Read B) (a : A) (b : B) (e e1 e2 : Encoder)
    → IsAppend e
    → Written o r a e e1
    → Written o (r' a) b e1 e2
    → Written o (λ d. r d >>= λ x. r' x.0 x.1) b e e2
Written-seq o r r' a b e e1 e2 h first second = record {
  bytes = first.bytes ++ second.bytes;
  wire_eq =
      second.wire_eq
      ∙ ap (λ xs. xs ++ second.bytes) first.wire_eq
      ∙ append_assoc (wire e) first.bytes second.bytes;
  appends = second.appends;
  reads = λ pre rest at. rw (
    append_assoc first.bytes second.bytes rest,
    first.reads pre (second.bytes ++ rest) at,
    second.reads (pre ++ first.bytes) rest
        (omega (arith, length-append pre first.bytes, offset-Written h first)),
    append_assoc pre first.bytes second.bytes,
  );
}

pub seq-Codec {ℓ κ} :
    {A : Type ℓ} {B : Type κ} (o : Option ByteOrder) (w w' : Encoder → Encoder)
    (r : Decoder → Read A) (r' : A → Decoder → Read B) (a : A) (b : B)
    → Codec o w r a
    → Codec o w' (r' a) b
    → Codec o (λ e. w' (w e)) (λ d. r d >>= λ x. r' x.0 x.1) b
seq-Codec o w w' r r' a b c c' e h =
    let first = c e h in Written-seq o r r' a b e (w e) (w' (w e)) h first (c' (w e) first.appends)

-- What a reader makes of the value read.
pub map-Codec {ℓ κ} :
    {A : Type ℓ} {B : Type κ} (o : Option ByteOrder) (w : Encoder → Encoder) (r : Decoder → Read A)
    (f : A → B) (a : A)
    → Codec o w r a
    → Codec o w (λ d. r d >>= λ x. ok (f x.0, x.1)) (f a)
map-Codec o w r f a c e h =
    let first = c e h in
    record {
      bytes = first.bytes;
      wire_eq = first.wire_eq;
      appends = first.appends;
      reads = λ pre rest at. rw (first.reads pre rest at);
    }

pub align-Codec :
    (o : Option ByteOrder) (k : ℕ)
    → 0 < k
    → Codec o (align k) (λ d. ok (tt, Decoder.align k d)) (tt {0})
align-Codec o k pos e h = record {
  bytes = replicate (padding k e.offset) 0;
  wire_eq = wire-align k e pos h;
  appends = align-IsAppend k e pos h;
  reads = λ pre rest at. rw (← at) (ap (λ d. ok (tt, d)) (align-cursor o k pre rest pos));
}

-- A number of `k` octets that `writeUshort`, `writeUlong` or `writeUlonglong` writes at any
-- offset of an encoder that only appends, the matching read of a machine of either byte order
-- reads back, from behind the same padding, whatever stands before and behind it: for every
-- number below 256 ^ k and k above zero.
pub word-Codec :
    (host there : ByteOrder) (k v : ℕ)
    → 0 < k
    → v < 256 ^ k
    → Codec (some host) (write_word host k v) (read_word there k) v
unfolding write_word
word-Codec host there k v pos bound e h =
    let pad : List ℕ = replicate (padding k e.offset) 0 in
    let a-h : IsAppend (align k e) = align-IsAppend k e pos h in
    let written : wire (emit (store host k v) (align k e)) ≡ (wire e ++ pad) ++ store host k v =
      wire-emit (store host k v) (align k e) a-h
      ∙ ap (λ xs. xs ++ store host k v) (wire-align k e pos h) in
    record {
      bytes = pad ++ store host k v;
      wire_eq = written ∙ append_assoc (wire e) pad (store host k v);
      appends = emit-IsAppend (store host k v) (align k e) a-h;
      reads = λ pre rest at.
          rw (append_assoc pad (store host k v) rest, ← at)
            (read_word-cursor there host k v pre rest pos bound
              ∙ ap (λ xs. ok (v, cursor (some host) xs rest))
                  (append_assoc pre (replicate (padding k (length pre)) 0) (store host k v)));
    }

-- The same octets at the same place of another message.
pub Written-rebase {ℓ} :
    {A : Type ℓ} {o : Option ByteOrder} {r : Decoder → Read A} {a : A} {e e' : Encoder}
    (f f' : Encoder) (t : Written o r a e e')
    → f.offset ≡ e.offset
    → wire f' ≡ wire f ++ t.bytes
    → IsAppend f'
    → Written o r a f f'
Written-rebase f f' t same laid h = record {
  bytes = t.bytes;
  wire_eq = laid;
  appends = h;
  reads = λ pre rest at. t.reads pre rest (at ∙ same);
}

-- What is made of the value read, without a further read.
pub Written-then {ℓ κ} :
    {A : Type ℓ} {B : Type κ} {o : Option ByteOrder} {r : Decoder → Read A} {a : A} {e e' : Encoder}
    (f : A → Decoder → Read B) (b : B)
    → ((d : Decoder) → f a d ≡ ok (b, d))
    → Written o r a e e'
    → Written o (λ d. r d >>= λ x. f x.0 x.1) b e e'
Written-then f b same t = record {
  bytes = t.bytes;
  wire_eq = t.wire_eq;
  appends = t.appends;
  reads = λ pre rest at. rw (t.reads pre rest at) (same _);
}

-- A reader that takes only a part of what was written, and may stand anywhere behind it.
pub record Covered {ℓ} {A : Type ℓ} (o : Option ByteOrder) (r : Decoder → Read A) (a : A)
    (e e' : Encoder) : Type ℓ where
  pub bytes : List ℕ
  pub wire_eq : wire e' ≡ wire e ++ bytes
  pub appends : IsAppend e'
  pub reads :
      (pre rest : List ℕ)
      → length pre ≡ e.offset
      → (stop : ℕ) × (r (cursor o pre (bytes ++ rest))
          ≡ ok (a, record { data_ = pre ++ (bytes ++ rest); offset = stop; endian = o }))

pub offset-Covered {ℓ} :
    {A : Type ℓ} {o : Option ByteOrder} {r : Decoder → Read A} {a : A} {e e' : Encoder}
    → IsAppend e
    → (t : Covered o r a e e') → e'.offset ≡ e.offset + length t.bytes
offset-Covered {e} {e'} h t = omega (
  arith,
  length-wire e h,
  length-wire e' t.appends,
  ap length t.wire_eq,
  length-append (wire e) t.bytes,
)

pub Written-Covered {ℓ} :
    {A : Type ℓ} {o : Option ByteOrder} {r : Decoder → Read A} {a : A} {e e' : Encoder}
    → Written o r a e e'
    → Covered o r a e e'
Written-Covered {o} {a = a} t = record {
  bytes = t.bytes;
  wire_eq = t.wire_eq;
  appends = t.appends;
  reads = λ pre rest at. (
    length (pre ++ t.bytes),
    t.reads pre rest at
        ∙ ap (λ xs. ok (a, record { data_ = xs; offset = length (pre ++ t.bytes); endian = o }))
            (append_assoc pre t.bytes rest),
  );
}

-- What is written behind the part that is read.
pub Covered-front {ℓ κ} :
    {A : Type ℓ} {B : Type κ} {o : Option ByteOrder} {r : Decoder → Read A} {r' : Decoder → Read B}
    {a : A} {b : B} {e e1 e2 : Encoder}
    → Written o r a e e1
    → Written o r' b e1 e2
    → Covered o r a e e2
Covered-front {o} {a = a} {e} t u = record {
  bytes = t.bytes ++ u.bytes;
  wire_eq = u.wire_eq ∙ ap (λ xs. xs ++ u.bytes) t.wire_eq ∙ append_assoc (wire e) t.bytes u.bytes;
  appends = u.appends;
  reads = λ pre rest at. (
    length (pre ++ t.bytes),
    rw (append_assoc t.bytes u.bytes rest) (
        t.reads pre (u.bytes ++ rest) at
        ∙ ap (λ xs. ok (a, record { data_ = xs; offset = length (pre ++ t.bytes); endian = o }))
            (append_assoc pre t.bytes (u.bytes ++ rest))),
  );
}

pub Written-cong {ℓ} :
    {A : Type ℓ} {o : Option ByteOrder} {r r' : Decoder → Read A} {a : A} {e e' : Encoder}
    → ((d : Decoder) → r' d ≡ r d)
    → Written o r a e e'
    → Written o r' a e e'
Written-cong same t = record {
  bytes = t.bytes;
  wire_eq = t.wire_eq;
  appends = t.appends;
  reads = λ pre rest at. same _ ∙ t.reads pre rest at;
}
