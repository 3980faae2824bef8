-- ===== src/Orb/Client/Called.antt =====
-- A call of orb.cc, from the client's stub to the server's decoder.
use corba_cc.Base.{
  ℕ, ◌+◌, ◌^◌, ◌<◌, ◌%◌, ◌≡◌, ap, ◌∙◌, List, [], ◌∷◌, ◌++◌, Bool, true, false, Option, none, some,
  length, Result, ok, Error,
}
use corba_cc.Cdr.Bytes.{ByteOrder}
use corba_cc.Cdr.Encoder.{emit}
use corba_cc.Giop.Types.{HostAndPort, Endpoints}
use corba_cc.Giop.Encoder.{GiopEncoder, new_giop_encoder, encode_request}
use corba_cc.Giop.Decoder.Announce.{Announced}
use corba_cc.Giop.Decoder.Announce.Contexts.{IsShort}
use corba_cc.Giop.Decoder.Request.Received.{
  Delivered, receive_request, request_message, request-Delivered,
}
use corba_cc.Orb.Client.{
  Channel, Sending, taken, take_id, share, ends_after, suspend, posted, post, with_arguments,
  request, oneway_call, twoway_call,
}

-- A stub's closure that appends the octets of the arguments.
abbrev pub append_args : List ℕ → GiopEncoder → Result GiopEncoder
append_args args g = ok (record g { buffer = emit args g.buffer })

-- The connection behind a call whose packet `send` has taken.
abbrev pub called : {C : Type 0} → Channel C → Option Endpoints → List ℕ → C → Channel C
called c shared waiting t = record {
  request_id = (c.request_id + 2) % 2 ^ 32;
  ends = ends_after c.ends shared;
  waiting = waiting;
  transport = t;
}

-- The two kinds of call, by whether a response is expected.
abbrev pub call :
    {C : Type 0}
    → ByteOrder
    → (List ℕ → C → Sending C)
    → Option (Channel C → Channel C)
    → Bool
    → List ℕ
    → Option (Channel C)
    → List ℕ
    → (GiopEncoder → Result GiopEncoder)
    → Option Error × Option (Channel C)
call host send handler true key c operation encode =
    twoway_call host send handler key c operation encode
call host send handler false key c operation encode =
    oneway_call host send handler key c operation encode

abbrev pub waits : Bool → ℕ → List ℕ → List ℕ
waits true id waiting = waiting ++ (id ∷ [])
waits false id waiting = waiting

module _ {C : Type 0} (host : ByteOrder) (send : List ℕ → C → Sending C)
    (handler : Option (Channel C → Channel C)) (key operation args : List ℕ) (c : Channel C)
    (g : GiopEncoder) (t : C) where
  request-taken :
      (expected : Bool)
      → encode_request host key operation c.request_id expected (new_giop_encoder (some c.ends))
        ≡ ok g
      → send (request_message host g args) c.transport ≡ taken t
      → request host send handler expected key operation (append_args args) c
        ≡ (none, called c g.connection c.waiting t)
  unfolding request with_arguments post posted share take_id request_message
  request-taken expected encoded sent =
      ap (λ r. with_arguments host send handler (append_args args) r (take_id c)) encoded
      ∙ ap (λ x. posted host send handler x (share g.connection (take_id c))) sent

  call-taken :
      (expected : Bool)
      → encode_request host key operation c.request_id expected (new_giop_encoder (some c.ends))
        ≡ ok g
      → send (request_message host g args) c.transport ≡ taken t
      → call host send handler expected key (some c) operation (append_args args)
        ≡ (none, some (called c g.connection (waits expected c.request_id c.waiting) t))
  unfolding oneway_call twoway_call suspend
  call-taken true encoded sent =
      ap (λ r. let r' = suspend c.request_id r in (r'.0, some r'.1))
        (request-taken true encoded sent)
  call-taken false encoded sent = ap (λ r. (r.0, some r.1)) (request-taken false encoded sent)

  -- What a stub asks of `ORB::_twowayCall` or `ORB::onewayCall` reaches the server whole, on
  -- machines of either byte order: the call throws nothing, its connection counts the request id
  -- up by two, keeps what has been announced and the state that `send` has left, and has the call
  -- waiting exactly if a response is expected; and from the packet that `send` has taken,
  -- `scanGIOPHeader` and `scanRequestHeader` give the same request id, response flag, object key
  -- and operation, with the decoder before exactly the arguments. The closure of the stub appends
  -- the octets of the arguments, `encodeRequest` has succeeded, the sizes are those that a
  -- request allows, and the server knew an end point before, if the client announces one.
  pub call-Delivered :
      (there : ByteOrder) (remote remote' : Option HostAndPort) (expected : Bool)
      → length key < 2 ^ 32
      → length operation + 1 < 2 ^ 32
      → c.request_id < 2 ^ 32
      → IsShort (some c.ends)
      → Announced (some c.ends) remote remote'
      → encode_request host key operation c.request_id expected (new_giop_encoder (some c.ends))
        ≡ ok g
      → g.buffer.offset + length args < 2 ^ 32
      → send (request_message host g args) c.transport ≡ taken t
      → (call host send handler expected key (some c) operation (append_args args)
          ≡ (none, some (called c g.connection (waits expected c.request_id c.waiting) t)))
        × Delivered remote'
            (record {
              request_id = c.request_id;
              response_expected = expected;
              object_key = key;
              operation = operation;
            })
            host
            args
            (receive_request there remote (request_message host g args))
  call-Delivered there remote remote' expected key_fits operation_fits id_fits short announces
        encoded fits sent =
      (
        call-taken expected encoded sent,
        request-Delivered host there key operation c.request_id expected key_fits operation_fits
            id_fits (some c.ends) remote remote' short announces g args encoded fits,
      )
