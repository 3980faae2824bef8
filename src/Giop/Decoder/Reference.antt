-- ===== src/Giop/Decoder/Reference.antt =====
-- An object reference, from `writeReference` of giop.cc to `readReference` and `readObject`: the
-- fields of the profile and its component.
pub mod Profiles
pub mod Objects
use corba_cc.Base.{
  ℕ, zero, suc, ◌+◌, ◌-◌, ◌%◌, ◌/◌, ◌^◌, ◌≤◌, ◌<◌, ◌≡◌, refl, sym, ap, ◌∙◌, List, [], ◌∷◌, ◌++◌,
  arith, Option, none, some, Bool, true, false, not, ◌||◌, ◌==◌, if◌then◌else◌, Bool-cases, inl,
  inr, length, take, drop, length-take, length-drop, Result, ok, err, ◌>>=◌, bind-eq-ok, ltb,
}
use corba_cc.Cdr.Bytes.{ByteOrder, store}
use corba_cc.Cdr.Encoder.{
  Encoder, align_to, align, emit, write_octet, write_ushort, write_ulong, write_string, write_blob,
  write_word, poke, reserve, reserve_size, write_endian, fill_in_size,
}
use corba_cc.Cdr.Encoder
use corba_cc.Cdr.Encoder.Encapsulation.{Filled}
use corba_cc.Cdr.Encoder.Append.{wire, IsAppend}
use corba_cc.Cdr.Bytes.Laws.{length-store}
use corba_cc.Cdr.Decoder.{
  Decoder, Read, fetch, skip, read_ulong, read_ushort, read_octet, read_word, read_string,
  read_blob, read_string_of, drop_terminator,
}
use corba_cc.Cdr.Codec.{
  Codec, Written, Covered, Written-Covered, Covered-front, Written-cong, offset-Written,
  offset-Covered, Written-seq, Written-then, word-Codec, pure-Written,
}
use corba_cc.Cdr.RoundTrip.{octet-Codec, string-Codec, blob-Codec}
use corba_cc.Giop.Enums.{ProfileId, profile_id}
use corba_cc.Giop.Types.{HostAndPort, Endpoints}
use corba_cc.Giop.Encoder.{
  GiopEncoder, write_encapsulation, write_profile, write_address, write_reference, fill_in,
  on_buffer,
}
use corba_cc.Giop.Decoder.{
  repeat, read_encapsulation, Profile, read_profile, Ior, make_ior, read_reference, read_with_orb,
  read_tagged, read_object,
}
use corba_cc.Giop.Decoder.Context.{
  open_body, open_body-IsAppend, filled, octets, encapsulation-Written,
}
use corba_cc.Giop.Decoder.Announce.{align_to_bound, word_bound, string_bound}

module _ (host there : ByteOrder) where
  module _ (major minor : ℕ) (at : HostAndPort) (key : List ℕ) (e : Encoder) (h : IsAppend e)
      (small : major < 256) (small' : minor < 256) (long : length at.host < 2 ^ 16)
      (port : at.port < 2 ^ 16) (short : length key < 2 ^ 31) where
    -- The profile's own fields.
    unfoldable pub fields : Encoder
    fields = write_blob host key (
        write_ushort host at.port
          (write_string host at.host (write_octet minor (write_octet major e))))

    unfoldable pub found : Profile
    found = record { host = at.host; port = some at.port; object_key = key }

    pub fields-Written :
        (p : Profile) → Written (some host) (read_profile there (profile_id 0) p) found e fields
    unfolding fields found read_profile profile_id read_ushort write_ushort
    fields-Written p =
        let e1 : Encoder = write_octet major e in
        let e2 : Encoder = write_octet minor e1 in
        let e3 : Encoder = write_string host at.host e2 in
        let e4 : Encoder = write_word host 2 at.port e3 in
        let w1 = octet-Codec (some host) major small e h in
        let w2 = octet-Codec (some host) minor small' e1 w1.appends in
        let w3 = string-Codec host there at.host (omega arith) e2 w2.appends in
        let w4 = word-Codec host there 2 at.port (omega arith) port e3 w3.appends in
        let w5 = blob-Codec host there key (omega arith) e4 w4.appends in
        let made : List ℕ → ℕ → List ℕ → Decoder → Read Profile =
          λ name n k d. ok (record { host = name; port = some n; object_key = k }, d) in
        Written-seq (some host) read_octet
          (λ a d. read_octet d >>= λ b. read_string there b.1 >>= λ s.
            read_word there 2 s.1 >>= λ n. read_blob there n.1 >>= λ k. made s.0 n.0 k.0 k.1)
          major found e e1 fields h w1
          (Written-seq (some host) read_octet
            (λ b d. read_string there d >>= λ s.
              read_word there 2 s.1 >>= λ n. read_blob there n.1 >>= λ k. made s.0 n.0 k.0 k.1)
            minor found e1 e2 fields w1.appends w2
            (Written-seq (some host) (read_string there)
              (λ s d. read_word there 2 d >>= λ n. read_blob there n.1 >>= λ k. made s n.0 k.0 k.1)
              at.host found e2 e3 fields w2.appends w3
              (Written-seq (some host) (read_word there 2)
                (λ n d. read_blob there d >>= λ k. made at.host n k.0 k.1) at.port found e3 e4
                fields w3.appends w4 (Written-then (made at.host at.port) found (λ d. refl) w5))))

-- What `writeReference` has written when it closes the profile.
pub record Body (host there : ByteOrder) (p q : Profile) (e : Encoder) (g : GiopEncoder)
    (r : Result GiopEncoder) : Type 0 where
  pub after : GiopEncoder
  pub result : r ≡ ok after
  pub read : Covered (some host) (read_profile there (profile_id 0) p) q e after.buffer
  pub stack : after.buffer.size_stack ≡ g.buffer.size_stack
  pub bound : after.buffer.offset ≤ g.buffer.offset + 64

fill_in-offset :
    (host : ByteOrder) (saved : List ℕ) (e e' : Encoder)
    → Encoder.fill_in host saved e ≡ ok e'
    → e'.offset ≡ e.offset
unfolding Encoder.fill_in
fill_in-offset host [] e e' h = cc
fill_in-offset host (at ∷ saved) e e' h = cc

-- The size is filled in at an earlier place, and the offset is as it was.
fill_in_size-offset :
    (host : ByteOrder) (e e' : Encoder) → fill_in_size host e ≡ ok e' → e'.offset ≡ e.offset
unfolding fill_in_size
fill_in_size-offset host e e' h = fill_in-offset host e.size_stack e e' h

pub ulong_bound :
    (host : ByteOrder) (v : ℕ) (e : Encoder) → (write_ulong host v e).offset ≤ e.offset + 8
unfolding write_ulong
ulong_bound host v e = omega (arith, word_bound host 4 v e (omega arith))

open_body_bound :
    (host : ByteOrder) (type : ℕ) (e : Encoder) → (open_body host type e).offset ≤ e.offset + 17
unfolding open_body write_endian write_octet emit poke reserve reserve_size align
open_body_bound host type e = omega (
  arith,
  ulong_bound host type e,
  align_to_bound 4 (write_ulong host type e).offset (omega arith),
)

module _ (host there : ByteOrder) where
  -- The one component that newer versions write behind the fields.
  module _ (e : Encoder) (h : IsAppend e) where
    orb_type : Encoder
    orb_type = write_ulong host 0x4d313300 (open_body host 0 (write_ulong host 1 e))

    counted : IsAppend (write_ulong host 1 e)
    unfolding write_ulong
    counted = (word-Codec host there 4 1 (omega arith) (omega arith) e h).appends

    opened : IsAppend (open_body host 0 (write_ulong host 1 e))
    opened = open_body-IsAppend host 0 (write_ulong host 1 e) counted

    pub reads_component : ℕ → ℕ → Decoder → Read ℕ
    reads_component type s = read_word there 4

    component :
        Covered
          (some host)
          (reads_component 0 0)
          0x4d313300
          (open_body host 0 (write_ulong host 1 e))
          orb_type
    unfolding orb_type write_ulong reads_component
    component = Written-Covered (
        word-Codec host there 4 0x4d313300 (omega arith) (omega arith)
          (open_body host 0 (write_ulong host 1 e)) opened)

    stack : orb_type.size_stack ≡ (open_body host 0 (write_ulong host 1 e)).size_stack
    unfolding orb_type write_ulong write_word emit poke reserve align
    stack = refl

    orb_type_bound : orb_type.offset ≤ (open_body host 0 (write_ulong host 1 e)).offset + 8
    unfolding orb_type write_ulong
    orb_type_bound = omega (
      arith,
      word_bound host 4 0x4d313300 (open_body host 0 (write_ulong host 1 e)) (omega arith),
    )

    component_short : suc (length component.bytes) < 2 ^ 32
    component_short = omega (arith, offset-Covered opened component, orb_type_bound)

    closing :
        (e3 : Encoder) × (fill_in_size host orb_type ≡ ok e3)
        × Filled host (write_ulong host 0 (write_ulong host 1 e)) e3 (
            octets host there 0 reads_component 0 0x4d313300
              (write_ulong host 1 e)
              orb_type
              counted
              (omega arith)
              component
              stack
              component_short)
    closing =
        filled host there 0 reads_component 0 0x4d313300 (write_ulong host 1 e) orb_type counted
          (omega arith) component stack component_short

    pub closed : Encoder
    closed = closing.0

    pub closed_lem :
        fill_in_size host (
          write_ulong host 0x4d313300
            (write_endian host (reserve_size (write_ulong host 0 (write_ulong host 1 e)))))
        ≡ ok closed
    unfolding closed orb_type open_body
    closed_lem = closing.1

    pub components-Written :
        Written
          (some host)
          (λ d. read_word there 4 d >>= λ n. read_encapsulation there reads_component 0 n.1)
          0x4d313300
          e
          closed
    unfolding closed closing write_ulong
    components-Written =
        Written-seq (some host) (read_word there 4)
          (λ n. read_encapsulation there reads_component 0) 1 0x4d313300 e (write_ulong host 1 e)
          closed h (word-Codec host there 4 1 (omega arith) (omega arith) e h)
          (encapsulation-Written host there 0 reads_component 0 0x4d313300 (write_ulong host 1 e)
            orb_type counted (omega arith) component stack component_short)

    pub closed_stack : closed.size_stack ≡ e.size_stack
    unfolding closed write_ulong write_word emit poke reserve align
    closed_stack = closing.2.stack_eq

    pub closed_bound : closed.offset ≤ e.offset + 64
    unfolding closed
    closed_bound = omega (
      arith,
      fill_in_size-offset host orb_type closing.0 closing.1,
      orb_type_bound,
      open_body_bound host 0 (write_ulong host 1 e),
      ulong_bound host 1 e,
    )
