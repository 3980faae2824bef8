-- ===== src/Giop/Decoder/Reference/Objects.antt =====
-- `writeReference` of giop.cc, and `readReference` and `readObject` on what it has written.
use corba_cc.Base.{
  ℕ, zero, suc, ◌+◌, ◌^◌, ◌≤◌, ◌<◌, ◌≡◌, refl, ap, ◌∙◌, List, [], arith, Option, none, some, Bool,
  true, if◌then◌else◌, length, take, drop, length-take, length-drop, Result, ok, err, ◌>>=◌,
  bind-eq-ok, ltb, Bool-cases, inl, inr, out_of_range,
}
use corba_cc.Cdr.Bytes.{ByteOrder}
use corba_cc.Cdr.Encoder.{Encoder, write_octet, write_ulong, write_string}
use corba_cc.Cdr.Encoder.Append.{IsAppend}
use corba_cc.Cdr.Decoder.{
  Decoder, Read, fetch, skip, read_ulong, read_word, read_string, read_string_of, drop_terminator,
}
use corba_cc.Cdr.Codec.{Written, Written-cong, Written-seq, Written-then, word-Codec}
use corba_cc.Cdr.RoundTrip.{string-Codec}
use corba_cc.Giop.Enums.{profile_id}
use corba_cc.Giop.Types.{Endpoints}
use corba_cc.Giop.Encoder.{GiopEncoder, write_address, write_reference}
use corba_cc.Giop.Decoder.{
  repeat, read_encapsulation, Profile, read_profile, Ior, make_ior, read_reference, read_with_orb,
  read_tagged, read_object,
}
use corba_cc.Giop.Decoder.Context.{open_body}
use corba_cc.Giop.Decoder.Reference.Profiles.{
  point, shown, profile_end, profile-Written, profile_written,
}

bind_assoc {ℓ κ μ} :
    {A : Type ℓ} {B : Type κ} {C : Type μ} (m : Result A) (f : A → Result B) (g : B → Result C)
    → (m >>= (λ a. f a >>= g)) ≡ ((m >>= f) >>= g)
bind_assoc (ok a) f g = refl
bind_assoc (err e) f g = refl

fetch-length : (n : ℕ) (d : Decoder) (x : List ℕ × Decoder) → fetch n d ≡ ok x → length x.0 ≡ n
unfolding fetch
fetch-length n d x h = elim (Bool-cases (ltb (length d.data_) (d.offset + n))) [
  | inl out ↦
      let bad : ◌≡◌ {A = Result (List ℕ × Decoder)} (err out_of_range) (ok x) = rw out at h in cc
  | inr fits ↦
      let good : ok (take n (drop d.offset d.data_), skip n d) ≡ ok x = rw fits at h in
      let same : take n (drop d.offset d.data_) ≡ x.0 = cc in
      let room : d.offset + n ≤ length d.data_ = ground arith in
      omega (
        arith,
        ap length same,
        length-take n (drop d.offset d.data_),
        length-drop d.offset d.data_,
        room,
      )
]

drop_terminator-length :
    (n : ℕ) (bs : List ℕ) (d : Decoder) (x : List ℕ × Decoder)
    → length bs ≡ n
    → drop_terminator n bs d ≡ ok x
    → n ≡ length x.0 + 1
unfolding drop_terminator
drop_terminator-length zero bs d x e h = cc
drop_terminator-length (suc n) bs d x e h =
    let same : take n bs ≡ x.0 = cc in omega (arith, ap length same, length-take n bs)

read_string_of-length :
    (n : ℕ) (d : Decoder) (x : List ℕ × Decoder) → read_string_of n d ≡ ok x → n ≡ length x.0 + 1
unfolding read_string_of
read_string_of-length n d x h =
    let (y, got, dropped) = bind-eq-ok (fetch n d) (λ y. drop_terminator n y.0 y.1) x h in
    drop_terminator-length n y.0 y.1 x (fetch-length n d y got) dropped

-- What stands behind the type id of a reference.
profiles : ByteOrder → List ℕ → Decoder → Read Ior
profiles there oid d = do
  (count, d2) ← read_ulong there d
  (p, d3) ←
      repeat count (read_encapsulation there (λ type. read_profile there (profile_id type)))
        (record { host = []; port = none; object_key = [] }) d2
  ior ← make_ior oid p p.port
  ok (ior, d3)

make_ior-oid :
    (oid : List ℕ) (p : Profile) (port : Option ℕ) (i : Ior)
    → make_ior oid p port ≡ ok i
    → i.oid ≡ oid
unfolding make_ior
make_ior-oid oid p none i h = cc
make_ior-oid oid p (some n) i h = cc

-- The type id is as long as its length says.
read_reference-length :
    (there : ByteOrder) (n : ℕ) (d : Decoder) (x : Ior × Decoder)
    → read_reference there n d ≡ ok x
    → n ≡ length x.0.oid + 1
unfolding read_reference make_ior
read_reference-length there n d x h =
    let (y, got, later) = bind-eq-ok (read_string_of n d) _ x h in
    let (z, counted, last) = bind-eq-ok (read_ulong there y.1) _ x later in
    let (q, repeated, made) = bind-eq-ok (repeat z.0 _ _ z.1) _ x last in
    let (i, built, done) = bind-eq-ok (make_ior y.0 q.0 q.0.port) _ x made in
    let id : i.oid ≡ y.0 = make_ior-oid y.0 q.0 q.0.port i built in
    let same : i ≡ x.0 = cc in
    omega
      (arith, read_string_of-length n d y got, ap length id, ap (λ (i : Ior). length i.oid) same)

-- `readReference()`, which reads the length itself.
abbrev pub read_any_reference : ByteOrder → Decoder → Read Ior
read_any_reference there d = read_ulong there d >>= λ x. read_reference there x.0 x.1

read_any_reference-profiles :
    (there : ByteOrder) (d : Decoder)
    → read_any_reference there d ≡ (read_string there d >>= λ x. profiles there x.0 x.1)
unfolding read_reference read_string profiles
read_any_reference-profiles there d = bind_assoc (read_ulong there d) _ _

read_tagged-reference :
    (there : ByteOrder) (n : ℕ) (d : Decoder)
    → 0 < n
    → n < 0x7fffff00
    → read_tagged there true n d ≡ (read_reference there n d >>= λ x. ok (some x.0, x.1))
unfolding read_tagged read_with_orb
read_tagged-reference there n d pos h = ground arith

-- `readObject` reads the same reference, when its type id is not too long.
read_object-reference :
    (there : ByteOrder) (d d' : Decoder) (i : Ior)
    → read_any_reference there d ≡ ok (i, d')
    → length i.oid + 1 < 0x7fffff00
    → read_object there true d ≡ ok (some i, d')
unfolding read_object
read_object-reference there d d' i h long =
    let (x, got, read) =
      bind-eq-ok (read_ulong there d) (λ x. read_reference there x.0 x.1) (i, d') h in
    let size : x.0 ≡ length i.oid + 1 = read_reference-length there x.0 x.1 (i, d') read in
    rw (got, read_tagged-reference there x.0 x.1 (omega arith) (omega arith), read) refl

-- What `writeReference` leaves, and what is read from it.
pub record Referenced (there : ByteOrder) (host : ByteOrder) (i : Ior) (g : GiopEncoder)
    (r : Result GiopEncoder) : Type 0 where
  pub after : GiopEncoder
  pub result : r ≡ ok after
  pub read : Written (some host) (read_any_reference there) i g.buffer after.buffer
  pub read_object : Written (some host) (read_object there true) (some i) g.buffer after.buffer

module _ (host there : ByteOrder) (id key : List ℕ) (is_a_stub : Bool) (c : Endpoints)
    (g : GiopEncoder) where
  -- The type id and the number of profiles.
  headed : Encoder
  headed = write_ulong host 1 (write_string host id g.buffer)

  pub referenced : Ior
  referenced = record {
    oid = id;
    host = (if is_a_stub then c.remote else c.local).host;
    port = (if is_a_stub then c.remote else c.local).port;
    object_key = key;
  }

  -- `writeReference` succeeds when the encoder has a connection, and from what it has written
  -- `readReference` and `readObject` on a machine of either byte order read the same type id,
  -- object key, host and port, those of the remote end point for a stub and of the local one for
  -- a servant, and stand behind all of it. It holds for every version of 8 bits, with and without
  -- components, behind anything that an encoder which only appends has written; the type id is
  -- short enough to be no tag, the host is shorter than 2 ^ 16 octets and the key than 2 ^ 31,
  -- and the port has 16 bits.
  pub write_reference-Referenced :
      IsAppend g.buffer
      → g.connection ≡ some c
      → g.major_version < 256
      → g.minor_version < 256
      → length id + 1 < 0x7fffff00
      → length (if is_a_stub then c.remote else c.local).host < 2 ^ 16
      → (if is_a_stub then c.remote else c.local).port < 2 ^ 16
      → length key < 2 ^ 31
      → Referenced there host referenced g (write_reference host id key is_a_stub g)
  unfolding write_reference write_address repeat make_ior headed referenced open_body profiles
      read_ulong write_ulong shown point
  write_reference-Referenced h connected small small' named long port short =
      let e1 : Encoder = write_string host id g.buffer in
      let w1 = string-Codec host there id (omega arith) g.buffer h in
      let w2 = word-Codec host there 4 1 (omega arith) (omega arith) e1 w1.appends in
      let blank : Profile = record { host = []; port = none; object_key = [] } in
      let inner : GiopEncoder = record g { buffer = headed } in
      let w3 =
        profile-Written host there key is_a_stub c inner w2.appends small small' long port short
          blank in
      let end : GiopEncoder =
        profile_end host there key is_a_stub c inner w2.appends small small' long port short
          blank in
      let seen : Profile = record {
        host = referenced.host;
        port = some referenced.port;
        object_key = key;
      } in
      let cl = λ (type : ℕ). read_profile there (profile_id type) in
      let made = λ (p : Profile) (d : Decoder). make_ior id p p.port >>= λ i. ok (i, d) in
      let all : Written (some host) (λ d. read_string there d >>= λ x. profiles there x.0 x.1)
          referenced g.buffer end.buffer =
        Written-seq (some host) (read_string there) (profiles there) id referenced g.buffer e1
          end.buffer h w1
          (Written-seq (some host) (read_word there 4)
            (λ n d. repeat n (read_encapsulation there cl) blank d >>= λ q. made q.0 q.1) 1
            referenced e1 headed end.buffer w1.appends w2
            (Written-then made referenced (λ d. refl)
              (Written-then (λ p d. repeat 0 (read_encapsulation there cl) p d) seen (λ d. refl)
                w3))) in
      let read : Written (some host) (read_any_reference there) referenced g.buffer end.buffer =
        Written-cong (read_any_reference-profiles there) all in
      record {
        after = end;
        result =
            ap
              (λ k. write_address host key is_a_stub k (record g {
                buffer =
                    write_octet g.minor_version
                      (write_octet g.major_version (open_body host 0 headed));
              }))
              connected
            ∙ profile_written host there key is_a_stub c inner w2.appends small small' long port
                short blank;
        read = read;
        read_object = record {
          bytes = read.bytes;
          wire_eq = read.wire_eq;
          appends = read.appends;
          reads = λ pre rest at.
              read_object-reference there _ _ referenced (read.reads pre rest at) named;
        };
      }
