-- ===== src/Orb/Client.antt =====
-- The sending half of a call in orb.cc: `ORB::_twowayCall` up to the reply, and `ORB::onewayCall`. The
-- method `send` of a connection is an argument.
pub mod Called
pub mod Distinct
use corba_cc.Base.{
  ℕ, ◌+◌, ◌%◌, ◌^◌, List, [], ◌∷◌, ◌++◌, Bool, true, false, Option, none, some, Result, ok, err,
  Error, stub_without_connection,
}
use corba_cc.Cdr.Bytes.{ByteOrder}
use corba_cc.Giop.Enums.{MessageType}
use corba_cc.Giop.Types.{Endpoints}
use corba_cc.Giop.Encoder.{GiopEncoder, new_giop_encoder, set_giop_header, encode_request}

-- A connection: its counter, its ends, the ids of the calls that wait for a reply, and the state of
-- the transport.
pub record Channel (C : Type 0) : Type 0 where
  pub request_id : ℕ
  pub ends : Endpoints
  pub waiting : List ℕ
  pub transport : C

-- How `send` ends.
pub data Sending (C : Type 0) : Type 0 where
  taken comm_failure : C → Sending C
  throws : Error → C → Sending C

-- `fetch_add(2)` on 32 bits.
unfoldable pub take_id : {C : Type 0} → Channel C → Channel C
take_id c = record c { request_id = (c.request_id + 2) % 2 ^ 32 }

-- The encoder and the connection share what has been announced.
unfoldable pub ends_after : Endpoints → Option Endpoints → Endpoints
ends_after ends none = ends
ends_after ends (some shared) = shared

unfoldable pub share : {C : Type 0} → Option Endpoints → Channel C → Channel C
share shared c = record c { ends = ends_after c.ends shared }

-- The handler that has been installed for the stub.
unfoldable pub notify : {C : Type 0} → Option (Channel C → Channel C) → Channel C → Channel C
notify none c = c
notify (some handler) c = handler c

unfoldable pub suspend : {C : Type 0} → ℕ → Option Error × Channel C → Option Error × Channel C
suspend id (none, c) = (none, record c { waiting = c.waiting ++ (id ∷ []) })
suspend id (some e, c) = (some e, c)

module _ {C : Type 0} (host : ByteOrder) (send : List ℕ → C → Sending C)
    (handler : Option (Channel C → Channel C)) where
  unfoldable pub posted : Sending C → Channel C → Option Error × Channel C
  posted (taken t) c = (none, record c { transport = t })
  posted (comm_failure t) c = (none, notify handler (record c { transport = t }))
  posted (throws e t) c = (some e, record c { transport = t })

  unfoldable pub post : Result GiopEncoder → Channel C → Option Error × Channel C
  post (err e) c = (some e, c)
  post (ok g) c =
      posted (send (set_giop_header host MessageType.request g).buffer.buffer c.transport) c

  unfoldable pub with_arguments :
      (GiopEncoder → Result GiopEncoder) → Result GiopEncoder → Channel C → Option Error × Channel C
  with_arguments encode (err e) c = (some e, c)
  with_arguments encode (ok g) c = post (encode g) (share g.connection c)

  -- What the two kinds of call share.
  unfoldable pub request :
      Bool
      → List ℕ
      → List ℕ
      → (GiopEncoder → Result GiopEncoder)
      → Channel C
      → Option Error × Channel C
  request expected key operation encode c =
      with_arguments encode
        (encode_request host key operation c.request_id expected (new_giop_encoder (some c.ends)))
        (take_id c)

  -- A stub is its object key and its connection, if it has one.
  unfoldable pub oneway_call :
      List ℕ
      → Option (Channel C)
      → List ℕ
      → (GiopEncoder → Result GiopEncoder)
      → Option Error × Option (Channel C)
  oneway_call key none operation encode = (some stub_without_connection, none)
  oneway_call key (some c) operation encode =
      let r = request false key operation encode c in (r.0, some r.1)

  unfoldable pub twoway_call :
      List ℕ
      → Option (Channel C)
      → List ℕ
      → (GiopEncoder → Result GiopEncoder)
      → Option Error × Option (Channel C)
  twoway_call key none operation encode = (some stub_without_connection, none)
  twoway_call key (some c) operation encode =
      let r = suspend c.request_id (request true key operation encode c) in (r.0, some r.1)
