-- ===== src/Net/Stream.antt =====
-- `IIOPStream2Packet` of net/stream2packet.cc and stream2packet.hh cuts the octets of a TCP stream into
-- messages. `data_` holds the octets received, so its length is `size`; `reserved` is the capacity.
pub mod Framing
pub mod Chunks
pub mod Delivery
pub mod Progress
pub mod Messages
pub mod First
use corba_cc.Base.{
  ℕ, zero, suc, ◌+◌, ◌-◌, List, [], ◌∷◌, ◌++◌, Bool, Option, none, some, length, take, drop, ltb,
  leb, ◌==◌, ◌&&◌, if◌then◌else◌, Result, ok, err, ◌>>=◌,
}
use corba_cc.Cdr.Bytes.{ByteOrder}
use corba_cc.Cdr.Decoder.{new_decoder}
use corba_cc.Giop.Decoder.{GiopDecoder, new_giop_decoder, scan_giop_header}

pub record Stream : Type 0 where
  pub receive_buffer_size : ℕ
  pub data_ : List ℕ
  pub reserved : ℕ
  pub offset : ℕ
  pub message_size : ℕ

unfoldable pub new_stream : ℕ → Stream
new_stream n = record {
  receive_buffer_size = n;
  data_ = [];
  reserved = 0;
  offset = 0;
  message_size = 0;
}

-- `length()`: the octets that fit behind those received.
unfoldable pub room : Stream → ℕ
room s = s.reserved - length s.data_

-- `buffer()`: room for one more receive.
unfoldable pub buffer : Stream → Stream
buffer s =
    if ltb (s.reserved - length s.data_) s.receive_buffer_size
    then record s { reserved = s.reserved + s.receive_buffer_size }
    else s

unfoldable pub received : List ℕ → Stream → Stream
received bs s = record s { data_ = s.data_ ++ bs }

-- The octets received and not yet handed out.
abbrev pub pending : Stream → List ℕ
pending s = drop s.offset s.data_

-- The size of the message at the front of the octets given.
unfoldable pub scan_size : ByteOrder → List ℕ → Result ℕ
scan_size there bs = do
  g ← scan_giop_header there (new_giop_decoder (new_decoder bs) none)
  ok (g.message_length + 12)

-- `message()` up to the point where the message's size is known, or 0.
unfoldable pub find_size : ByteOrder → Stream → Result ℕ
find_size there s =
    if s.message_size == 0 && leb 16 (length s.data_ - s.offset)
    then scan_size there (pending s)
    else ok s.message_size

-- The rest of `message()`: `none` is the empty span.
unfoldable pub cut : ℕ → Stream → Option (List ℕ) × Stream
cut n s =
    if n == 0
    then (none, record s { message_size = n })
    else if ltb (length s.data_ - s.offset) n
    then (none, record s { data_ = pending s; offset = 0; message_size = n })
    else if s.offset + n == length s.data_
    then (some (take n (pending s)), record s { data_ = []; offset = 0; message_size = 0 })
    else (some (take n (pending s)), record s { offset = s.offset + n; message_size = 0 })

unfoldable pub message : ByteOrder → Stream → Result (Option (List ℕ) × Stream)
message there s = do n ← find_size there s; ok (cut n s)

-- One round of the loop of `TcpConnection::canRead`; `next` is the rest of the loop.
abbrev pub deliver :
    (Stream → Result (List (List ℕ) × Stream))
    → Option (List ℕ) × Stream
    → Result (List (List ℕ) × Stream)
deliver next (none, s) = ok ([], s)
deliver next (some bs, s) = do (ms, s') ← next s; ok (bs ∷ ms, s')

-- Messages are taken until none is complete.
unfoldable pub drain : ℕ → ByteOrder → Stream → Result (List (List ℕ) × Stream)
drain zero there s = ok ([], s)
drain (suc fuel) there s = message there s >>= deliver (drain fuel there)

-- One receive and the loop behind it; each round takes at least 12 octets.
unfoldable pub feed : ByteOrder → Stream → List ℕ → Result (List (List ℕ) × Stream)
feed there s chunk =
    let s1 = received chunk (buffer s) in drain (suc (length (pending s1))) there s1

-- The messages of a stream that arrives in pieces.
unfoldable pub run : ByteOrder → Stream → List (List ℕ) → Result (List (List ℕ) × Stream)
run there s [] = ok ([], s)
run there s (chunk ∷ chunks) = do
  (ms, s1) ← feed there s chunk
  (ns, s2) ← run there s1 chunks
  ok (ms ++ ns, s2)
