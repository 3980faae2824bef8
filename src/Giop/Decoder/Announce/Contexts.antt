-- ===== src/Giop/Decoder/Announce/Contexts.antt =====
-- `writeServiceContext` of giop.cc, on every connection, and `readServiceContext`.
use corba_cc.Base.{
  ◌^◌, ◌<◌, ◌≡◌, refl, sym, ap, ◌∙◌, [], append-nil, Option, none, some, Bool, true, false,
  if◌then◌else◌, Bool-cases, inl, inr, length, Result, ok, ◌>>=◌,
}
use corba_cc.Cdr.Bytes.{ByteOrder}
use corba_cc.Cdr.Encoder.{Encoder, write_ulong, fill_in_size, write_endian, reserve_size}
use corba_cc.Cdr.Encoder.Append.{wire, IsAppend}
use corba_cc.Cdr.Codec.{Written, Written-rebase}
use corba_cc.Giop.Types.{HostAndPort, Endpoints}
use corba_cc.Giop.Enums.{ServiceId, service_id_code}
use corba_cc.Giop.Encoder.{
  GiopEncoder, rewrite_ulong, write_listen_point, write_contexts, write_encapsulation, fill_in,
  on_buffer,
}
use corba_cc.Giop.Decoder.{switch_remote, read_service_context}
use corba_cc.Giop.Decoder.Context.{
  open_body, no_context-Written, rewrite_ulong-IsAppend, wire-rewrite_ulong,
}
use corba_cc.Giop.Decoder.Announce.{
  Announced, Announced-switch, Announced-keep, unconnected, announced-Written, listed, written,
  closed, ending,
}

-- A listen point that fits: names of hosts are short, and ports are `uint16_t`.
abbrev pub IsShort : Option Endpoints → Type 0
IsShort none = Unit
IsShort (some c) = (length c.local.host < 2 ^ 16) × (c.local.port < 2 ^ 16)

-- What a write of the contexts leaves: the reader gets what was announced.
pub record Announces (host there : ByteOrder) (remote remote' : Option HostAndPort)
    (g : GiopEncoder) (r : Result GiopEncoder) : Type 0 where
  pub after : GiopEncoder
  pub result : r ≡ ok after
  pub major : after.major_version ≡ g.major_version
  pub minor : after.minor_version ≡ g.minor_version
  pub read : Written (some host) (read_service_context there remote) remote' g.buffer after.buffer

module _ (host there : ByteOrder) (remote remote' : Option HostAndPort) (g : GiopEncoder)
    (h : IsAppend g.buffer) where
  none-Announces :
      remote ≡ remote' → Announces host there remote remote' g (write_contexts host none g)
  unfolding write_contexts
  none-Announces same = record {
    after = record g { buffer = write_ulong host 0 g.buffer };
    result = refl;
    major = refl;
    minor = refl;
    read = rw (← same) (no_context-Written host there remote g.buffer h);
  }

  sent-Announces :
      (c : Endpoints)
      → c.did_send_bi_dir ≡ true
      → remote ≡ remote'
      → Announces host there remote remote' g (write_contexts host (some c) g)
  unfolding write_contexts
  sent-Announces c sent same =
      let e = g.buffer in
      let e1 = write_ulong host 0 e in
      let t = no_context-Written host there remote e h in
      let laid = sym (append-nil (wire e1)) in
      record {
        after = record g { buffer = rewrite_ulong host e.offset 0 e1 };
        result = rw sent refl;
        major = refl;
        minor = refl;
        read = rw (← same) (
            Written-rebase e (rewrite_ulong host e.offset 0 e1) t refl
              (wire-rewrite_ulong host 0 0 e e1 [] h t.appends laid
                ∙ append-nil (wire e1)
                ∙ t.wire_eq)
              (rewrite_ulong-IsAppend host 0 0 e e1 [] h t.appends laid));
      }

  -- The one encapsulation of a first request.
  module _ (c : Endpoints) (short : IsShort (some c))
      (switched : switch_remote c.local.host c.local.port remote ≡ ok remote') where
    sending : GiopEncoder
    sending = record g {
      buffer = write_ulong host 0 g.buffer;
      connection = some (record c { did_send_bi_dir = true });
    }

    body : Encoder
    body = (closed host there c remote remote' g.buffer h short.0 short.1 switched).0

    encapsulated :
        write_encapsulation host
          (service_id_code ServiceId.bi_dir_iiop)
          (λ g'. ok (on_buffer (write_listen_point host c.local) g'))
          sending
        ≡ ok (record sending { buffer = body })
    unfolding write_encapsulation fill_in sending body service_id_code
    encapsulated =
        let e : fill_in_size host (
              write_listen_point host c.local (
                write_endian host
                  (reserve_size (write_ulong host 5 (write_ulong host 0 g.buffer)))))
            ≡ ok body =
          unfold written listed open_body body in
          (closed host there c remote remote' g.buffer h short.0 short.1 switched).1 in
        rw e refl

    -- `writeServiceContext` behind the first count.
    if_sent : Bool → Result GiopEncoder
    if_sent b =
        if b
        then ok
            (on_buffer (rewrite_ulong host g.buffer.offset 0) (on_buffer (write_ulong host 0) g))
        else (write_encapsulation host (service_id_code ServiceId.bi_dir_iiop)
              (λ g'. ok (on_buffer (write_listen_point host c.local) g')) sending
            >>= λ g3. ok (on_buffer (rewrite_ulong host g.buffer.offset 1) g3))

    first-Announces :
        c.did_send_bi_dir ≡ false
        → Announces host there remote remote' g (write_contexts host (some c) g)
    unfolding write_contexts sending body ending if_sent
    first-Announces sent = record {
      after = record sending {
        buffer = ending host there c remote remote' g.buffer h short.0 short.1 switched;
      };
      result =
          ap if_sent sent
          ∙ ap (λ r. r >>= λ g3. ok (on_buffer (rewrite_ulong host g.buffer.offset 1) g3))
              encapsulated;
      major = refl;
      minor = refl;
      read = announced-Written host there c remote remote' g.buffer h short.0 short.1 switched;
    }

  -- `writeServiceContext` succeeds whatever connection the encoder has, and `readServiceContext`
  -- reads what it has written: with no connection, or when the listen point was sent before, the
  -- remote end point stays; otherwise it becomes the announced listen point if both host and port
  -- of that are other than its own, and stays if one of them is the same. The encoder has written
  -- nothing behind its offset, the listen point is within bounds, and the reader knew an end
  -- point before, if one is announced.
  pub write_contexts-Announces :
      (c : Option Endpoints)
      → IsShort c
      → Announced c remote remote'
      → Announces host there remote remote' g (write_contexts host c g)
  write_contexts-Announces none short same = none-Announces (kept same)
    where
      kept : {r r' : Option HostAndPort} → Announced none r r' → r ≡ r'
      kept (unconnected r) = refl
  write_contexts-Announces (some c) short same = elim (Bool-cases c.did_send_bi_dir) [
    | inl sent ↦ sent-Announces c sent (Announced-keep c remote remote' same sent)
    | inr sent ↦ first-Announces c short (Announced-switch c remote remote' same sent) sent
  ]
