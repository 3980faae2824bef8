-- ===== src/Giop/Decoder/Announce.antt =====
-- The listen point that the first request of a connection announces, from `writeServiceContext` of
-- giop.cc to `readServiceContext`.
pub mod Contexts
use corba_cc.Base.{
  ℕ, suc, ◌+◌, ◌*◌, ◌^◌, ◌≤◌, ◌<◌, ◌≡◌, ◌≢◌, ◌==◌, bytes_eq, bytes_eq_sound, bytes_eq_refl, ==_refl,
  refl, sym, ap, ◌∙◌, List, [], ◌∷◌, ◌++◌, arith, Option, none, some, Bool, true, false,
  if◌then◌else◌, Bool-cases, inl, inr, length, Result, ok, err, ◌>>=◌,
}
use corba_cc.Cdr.Bytes.{ByteOrder, store}
use corba_cc.Cdr.Encoder.{
  Encoder, align_to, align, emit, write_ushort, write_ulong, write_string, write_word, poke,
  reserve, fill_in_size,
}
use corba_cc.Cdr.Encoder.Append.{wire, IsAppend}
use corba_cc.Cdr.Bytes.Laws.{length-store}
use corba_cc.Cdr.Decoder.{Decoder, Read, read_ulong, read_ushort, read_word, read_string_view}
use corba_cc.Cdr.Codec.{
  Codec, Written, Written-Covered, offset-Covered, Written-seq, Written-then, Written-rebase,
  word-Codec, pure-Written,
}
use corba_cc.Cdr.RoundTrip.{string_view-Codec}
use corba_cc.Giop.Enums.{ServiceId, service_id}
use corba_cc.Giop.Types.{HostAndPort, Endpoints}
use corba_cc.Giop.Encoder.{
  GiopEncoder, rewrite_ulong, write_listen_point, write_contexts, write_encapsulation,
}
use corba_cc.Giop.Decoder.{
  repeat, switch_remote, read_listen_point, read_context_body, read_service_context,
  read_encapsulation,
}
use corba_cc.Giop.Decoder.Context.{
  open_body, open_body-IsAppend, filled, encapsulation-Written, no_context-Written,
  rewrite_ulong-IsAppend, wire-rewrite_ulong,
}

-- The end point by which a receiver knows its peer, after the contexts of a request: before, and
-- behind. A listen point that is announced is taken if both its host and its port are other than those
-- known, and only then.
pub data Announced : Option Endpoints → Option HostAndPort → Option HostAndPort → Type 0 where
  unconnected : (r : Option HostAndPort) → Announced none r r
  sent_before :
      (c : Endpoints) (r : Option HostAndPort) → c.did_send_bi_dir ≡ true → Announced (some c) r r
  moves :
      (c : Endpoints) (r : HostAndPort)
      → c.did_send_bi_dir ≡ false
      → c.local.host ≢ r.host
      → c.local.port ≢ r.port
      → Announced (some c) (some r) (some c.local)
  same_host :
      (c : Endpoints) (r : HostAndPort)
      → c.did_send_bi_dir ≡ false
      → c.local.host ≡ r.host
      → Announced (some c) (some r) (some r)
  same_port :
      (c : Endpoints) (r : HostAndPort)
      → c.did_send_bi_dir ≡ false
      → c.local.port ≡ r.port
      → Announced (some c) (some r) (some r)

differ : (a b : List ℕ) → a ≢ b → bytes_eq a b ≡ false
differ a b h = elim (Bool-cases (bytes_eq a b)) [
  | inl same ↦ absurd (h (bytes_eq_sound a b same))
  | inr e ↦ e
]

-- The decoder switches in just that case.
pub Announced-switch :
    (c : Endpoints) (r r' : Option HostAndPort)
    → Announced (some c) r r'
    → c.did_send_bi_dir ≡ false
    → switch_remote c.local.host c.local.port r ≡ ok r'
unfolding switch_remote
Announced-switch _ _ _ (sent_before c r sent) first = absurd (true_false (sym sent ∙ first))
  where
    true_false : ◌≡◌ {A = Bool} true false → ⊥
    true_false h = cc
Announced-switch _ _ _ (moves c r first hosts ports) _ =
    let other : (c.local.port == r.port) ≡ false = ground arith in
    rw (differ c.local.host r.host hosts, other) refl
Announced-switch _ _ _ (same_host c r first hosts) _ = rw (hosts, bytes_eq_refl r.host) refl
Announced-switch _ _ _ (same_port c r first ports) _ =
    elim (Bool-cases (bytes_eq c.local.host r.host)) [
      | inl e ↦ rw e refl
      | inr e ↦ rw (e, ports, ==_refl r.port) refl
    ]

pub Announced-keep :
    (c : Endpoints) (r r' : Option HostAndPort)
    → Announced (some c) r r'
    → c.did_send_bi_dir ≡ true
    → r ≡ r'
Announced-keep _ _ _ (sent_before c r sent) _ = refl
Announced-keep _ _ _ (moves c r first hosts ports) sent = cc (first, sent)
Announced-keep _ _ _ (same_host c r first hosts) sent = refl
Announced-keep _ _ _ (same_port c r first ports) sent = refl

pub align_to_bound : (k o : ℕ) → 0 < k → align_to k o ≤ o + k
unfolding align_to
align_to_bound k o h = grind arith

pub word_bound :
    (host : ByteOrder) (k v : ℕ) (e : Encoder)
    → 0 < k
    → (write_word host k v e).offset ≤ e.offset + k + k
unfolding write_word emit poke reserve align
word_bound host k v e h = omega (arith, align_to_bound k e.offset h, length-store host k v)

pub string_bound :
    (host : ByteOrder) (bs : List ℕ) (e : Encoder)
    → (write_string host bs e).offset ≤ e.offset + 8 + length bs + 1
unfolding write_string write_ulong poke reserve
string_bound host bs e = omega (arith, word_bound host 4 (length bs + 1) e (omega arith))

module _ (host there : ByteOrder) where
  -- A listen point, read by a reader that expects as many as there are.
  listen_point-Codec :
      (local : HostAndPort) (remote remote' : Option HostAndPort)
      → length local.host + 1 < 2 ^ 32
      → local.port < 2 ^ 16
      → switch_remote local.host local.port remote ≡ ok remote'
      → Codec
          (some host)
          (write_listen_point host local)
          (read_context_body there (service_id 5) remote)
          remote'
  unfolding write_listen_point read_context_body service_id read_listen_point repeat read_ulong
      write_ulong read_ushort write_ushort
  listen_point-Codec local remote remote' long port switched e h =
      let first = word-Codec host there 4 1 (omega arith) (omega arith) e h in
      let e1 = write_word host 4 1 e in
      let second = string_view-Codec host there local.host long e1 first.appends in
      let e2 = write_string host local.host e1 in
      let third = word-Codec host there 2 local.port (omega arith) port e2 second.appends in
      let e3 = write_word host 2 local.port e2 in
      let switch =
        λ (name : List ℕ) (n : ℕ) (d : Decoder). switch_remote name n remote >>= λ r. ok (r, d) in
      let point : Written (some host) (read_listen_point there remote) remote' e1 e3 =
        Written-seq (some host) (read_string_view there)
          (λ name d. read_word there 2 d >>= λ n. switch name n.0 n.1) local.host remote' e1 e2 e3
          first.appends second
          (Written-then (switch local.host) remote' (λ d. rw switched refl) third) in
      Written-seq (some host) (read_word there 4)
        (λ n d. repeat n (read_listen_point there) remote d) 1 remote' e e1 e3 h first
        (Written-then (λ r d. repeat 0 (read_listen_point there) r d) remote' (λ d. refl) point)

  -- The list of contexts: its length, and the one context that a first request has.
  module _ (c : Endpoints) (remote remote' : Option HostAndPort) (e : Encoder) (h : IsAppend e)
      (long : length c.local.host < 2 ^ 16) (port : c.local.port < 2 ^ 16)
      (switched : switch_remote c.local.host c.local.port remote ≡ ok remote') where
    pub listed : Encoder
    listed = write_ulong host 0 e

    listed-IsAppend : IsAppend listed
    unfolding listed write_ulong
    listed-IsAppend = (word-Codec host there 4 0 (omega arith) (omega arith) e h).appends

    pub written : Encoder
    written = write_listen_point host c.local (open_body host 5 listed)

    point :
        Written
          (some host)
          (read_context_body there (service_id 5) remote)
          remote'
          (open_body host 5 listed)
          written
    unfolding written
    point =
        listen_point-Codec c.local remote remote' (omega arith) port switched
          (open_body host 5 listed) (open_body-IsAppend host 5 listed listed-IsAppend)

    -- The body is short.
    written_short : written.offset ≤ (open_body host 5 listed).offset + length c.local.host + 32
    unfolding written write_listen_point write_ulong write_ushort
    written_short =
        let e0 : Encoder = open_body host 5 listed in
        let e1 : Encoder = write_word host 4 1 e0 in
        omega (
          arith,
          word_bound host 4 1 e0 (omega arith),
          string_bound host c.local.host e1,
          word_bound host 2 c.local.port (write_string host c.local.host e1) (omega arith),
        )

    fits : suc (length (Written-Covered point).bytes) < 2 ^ 32
    fits = omega (
      arith,
      written_short,
      offset-Covered (open_body-IsAppend host 5 listed listed-IsAppend) (Written-Covered point),
    )

    pub closure : ℕ → Option HostAndPort → Decoder → Read (Option HostAndPort)
    closure type = read_context_body there (service_id type)

    stack : written.size_stack ≡ (open_body host 5 listed).size_stack
    unfolding written write_listen_point write_ulong write_ushort write_string write_word emit poke
        reserve align
    stack = refl

    pub closed :
        (e3 : Encoder) × (fill_in_size host written ≡ ok e3)
        × Written (some host) (read_encapsulation there closure remote) remote' listed e3
    unfolding closure
    closed =
        let body =
          filled host there 5 closure remote remote' listed written listed-IsAppend (omega arith)
            (Written-Covered point) stack fits in
        (
          body.0,
          body.1,
          encapsulation-Written host there 5 closure remote remote' listed written listed-IsAppend
              (omega arith) (Written-Covered point) stack fits,
        )

    pub ending : Encoder
    ending = rewrite_ulong host e.offset 1 closed.0

    -- The count in front is replaced, so the reader finds one context.
    counted : Encoder
    counted = write_ulong host 1 e

    context : Written (some host) (read_encapsulation there closure remote) remote' counted ending
    unfolding ending counted listed write_ulong write_word emit poke reserve
    context =
        Written-rebase counted ending closed.2
          (omega (arith, length-store host 4 0, length-store host 4 1))
          (wire-rewrite_ulong host 1 0 e closed.0 closed.2.bytes h closed.2.appends
            closed.2.wire_eq)
          (rewrite_ulong-IsAppend host 1 0 e closed.0 closed.2.bytes h closed.2.appends
            closed.2.wire_eq)

    pub announced-Written : Written (some host) (read_service_context there remote) remote' e ending
    unfolding read_service_context read_ulong counted write_ulong repeat closure
    announced-Written =
        let first = word-Codec host there 4 1 (omega arith) (omega arith) e h in
        Written-seq (some host) (read_word there 4)
          (λ n d. repeat n (read_encapsulation there closure) remote d) 1 remote' e counted ending h
          first
          (Written-then (λ r d. repeat 0 (read_encapsulation there closure) r d) remote' (λ d. refl)
            context)
