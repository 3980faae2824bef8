-- ===== src/Giop/Decoder/Reference/Profiles.antt =====
-- The profile that `writeReference` of giop.cc writes, of every version, with its length filled in.
use corba_cc.Base.{
  ℕ, suc, ◌+◌, ◌^◌, ◌≤◌, ◌<◌, ◌≡◌, refl, ap, ◌∙◌, List, arith, some, Bool, not, ◌||◌, ◌==◌,
  if◌then◌else◌, Bool-cases, inl, inr, length, Result, ok, ◌>>=◌,
}
use corba_cc.Cdr.Bytes.{ByteOrder}
use corba_cc.Cdr.Encoder.{
  Encoder, align, emit, write_octet, write_ushort, write_ulong, write_string, write_blob,
  write_word, poke, reserve, fill_in_size,
}
use corba_cc.Cdr.Encoder.Encapsulation.{Filled}
use corba_cc.Cdr.Encoder.Append.{IsAppend}
use corba_cc.Cdr.Decoder.{Decoder, Read}
use corba_cc.Cdr.Codec.{Written, Covered, Written-Covered, Covered-front, offset-Covered}
use corba_cc.Giop.Enums.{profile_id}
use corba_cc.Giop.Types.{HostAndPort, Endpoints}
use corba_cc.Giop.Encoder.{GiopEncoder, write_encapsulation, write_profile, fill_in, on_buffer}
use corba_cc.Giop.Decoder.{read_encapsulation, Profile, read_profile}
use corba_cc.Giop.Decoder.Context.{
  open_body, open_body-IsAppend, filled, octets, encapsulation-Written,
}
use corba_cc.Giop.Decoder.Announce.{word_bound, string_bound}
use corba_cc.Giop.Decoder.Reference.{
  fields, found, fields-Written, Body, closed, closed_lem, components-Written, closed_stack,
  closed_bound, ulong_bound,
}

module _ (host there : ByteOrder) where
  blob_bound :
      (bs : List ℕ) (e : Encoder) → (write_blob host bs e).offset ≤ e.offset + 8 + length bs
  unfolding write_blob emit poke reserve
  blob_bound bs e = omega (arith, ulong_bound host (length bs) e)

  -- What a profile is built from, and what is written for it.
  module _ (key : List ℕ) (is_a_stub : Bool) (c : Endpoints) (g : GiopEncoder)
      (h : IsAppend g.buffer) (small : g.major_version < 256) (small' : g.minor_version < 256)
      (long : length (if is_a_stub then c.remote else c.local).host < 2 ^ 16)
      (port : (if is_a_stub then c.remote else c.local).port < 2 ^ 16) (short : length key < 2 ^ 31)
      (p : Profile) where
    unfoldable pub point : HostAndPort
    point = if is_a_stub then c.remote else c.local

    opened_body : Encoder
    opened_body = open_body host 0 g.buffer

    opened_body-IsAppend : IsAppend opened_body
    unfolding opened_body
    opened_body-IsAppend = open_body-IsAppend host 0 g.buffer h

    laid : Encoder
    unfolding opened_body point
    laid =
        fields host there g.major_version g.minor_version point key opened_body opened_body-IsAppend
          small small' long port short

    unfoldable pub shown : Profile
    unfolding point
    shown = record { host = point.host; port = some point.port; object_key = key }

    laid-Written : Written (some host) (read_profile there (profile_id 0) p) shown opened_body laid
    unfolding opened_body point laid shown found
    laid-Written =
        fields-Written host there g.major_version g.minor_version point key opened_body
          opened_body-IsAppend small small' long port short p

    laid_bound : laid.offset ≤ opened_body.offset + 64 + length point.host + length key
    unfolding laid fields write_octet write_ushort
    laid_bound =
        let e1 : Encoder = write_octet g.major_version opened_body in
        let e2 : Encoder = write_octet g.minor_version e1 in
        let e3 : Encoder = write_string host point.host e2 in
        let e4 : Encoder = write_word host 2 point.port e3 in
        let two : e2.offset ≡ opened_body.offset + 2 = unfold emit poke reserve in omega arith in
        omega (
          arith,
          two,
          string_bound host point.host e2,
          word_bound host 2 point.port e3 (omega arith),
          blob_bound key e4,
        )

    -- The versions that write components.
    has_components : Bool
    has_components = not (g.major_version == 1) || not (g.minor_version == 0)

    tail : Result GiopEncoder
    tail =
        if has_components
        then write_encapsulation host 0 (λ g'. ok (on_buffer (write_ulong host 0x4d313300) g'))
            (record g { buffer = write_ulong host 1 laid })
        else ok (record g { buffer = laid })

    tail-Body : Body host there p shown opened_body (record g { buffer = laid }) tail
    unfolding tail write_encapsulation fill_in
    tail-Body = elim (Bool-cases has_components) [
      | inl new ↦ record {
        after = record g { buffer = closed host there laid laid-Written.appends };
        result = rw (new, closed_lem host there laid laid-Written.appends) refl;
        read = Covered-front laid-Written (components-Written host there laid laid-Written.appends);
        stack = closed_stack host there laid laid-Written.appends;
        bound = closed_bound host there laid laid-Written.appends;
      }
      | inr old ↦ record {
        after = record g { buffer = laid };
        result = rw old refl;
        read = Written-Covered laid-Written;
        stack = refl;
        bound = omega arith;
      }
    ]

    -- The whole profile, its length filled in.
    reads_profile : ℕ → Profile → Decoder → Read Profile
    reads_profile type = read_profile there (profile_id type)

    body :
        Covered
          (some host)
          (reads_profile 0 p)
          shown
          (open_body host 0 g.buffer)
          tail-Body.after.buffer
    unfolding reads_profile opened_body
    body = tail-Body.read

    body_fits : suc (length body.bytes) < 2 ^ 32
    unfolding opened_body
    body_fits =
        let long' : length point.host < 2 ^ 16 = unfold point in long in
        omega (
          arith,
          offset-Covered opened_body-IsAppend body,
          tail-Body.bound,
          laid_bound,
          long',
          short,
        )

    laid_stack : laid.size_stack ≡ opened_body.size_stack
    unfolding laid fields write_octet write_string write_ushort write_blob write_ulong write_word
        emit poke reserve align
    laid_stack = refl

    body_stack : tail-Body.after.buffer.size_stack ≡ (open_body host 0 g.buffer).size_stack
    unfolding opened_body
    body_stack = tail-Body.stack ∙ laid_stack

    filling :
        (e3 : Encoder) × (fill_in_size host tail-Body.after.buffer ≡ ok e3)
        × Filled host (write_ulong host 0 g.buffer) e3 (
            octets host there 0 reads_profile p shown g.buffer tail-Body.after.buffer h
              (omega arith)
              body
              body_stack
              body_fits)
    filling =
        filled host there 0 reads_profile p shown g.buffer tail-Body.after.buffer h (omega arith)
          body body_stack body_fits

    pub profile_end : GiopEncoder
    profile_end = record tail-Body.after { buffer = filling.0 }

    pub profile-Written :
        Written
          (some host)
          (read_encapsulation there (λ type. read_profile there (profile_id type)) p)
          shown
          g.buffer
          profile_end.buffer
    unfolding reads_profile profile_end filling
    profile-Written =
        encapsulation-Written host there 0 reads_profile p shown g.buffer tail-Body.after.buffer h
          (omega arith) body body_stack body_fits

    pub profile_written :
        write_profile host key is_a_stub c (record g {
          buffer =
              write_octet g.minor_version (write_octet g.major_version (open_body host 0 g.buffer));
        })
        ≡ ok profile_end
    unfolding write_profile fill_in profile_end tail has_components laid fields point opened_body
    profile_written = ap (λ r. r >>= λ g2. fill_in host g2) tail-Body.result ∙ rw filling.1 refl
