-- ===== src/Orb/Server/Reply/Received.antt =====
-- A reply of GIOP 1.2 from the server's encoder to the client's `scanReplyHeader`.
use corba_cc.Base.{
  ℕ, ◌^◌, ◌≤◌, ◌<◌, ◌≡◌, refl, ap, ◌∙◌, List, [], ◌++◌, append_assoc, append-nil, arith, Option,
  some, length, replicate, length-append, Result, ok, ◌>>=◌, subst,
}
use corba_cc.Cdr.Bytes.{ByteOrder, store}
use corba_cc.Cdr.Bytes.Laws.{length-store}
use corba_cc.Cdr.Encoder.{Encoder, align_to, write_ulong}
use corba_cc.Cdr.Encoder.Append.{wire, IsAppend, padding, length-wire}
use corba_cc.Cdr.Decoder.{new_decoder, read_word, read_ulong}
use corba_cc.Cdr.Decoder.Cursor.{cursor, read_word-cursor}
use corba_cc.Giop.Enums.{
  MessageType, message_type, message_type_code, ReplyStatus, reply_status, reply_status_code,
}
use corba_cc.Giop.Types.{HostAndPort, Endpoints, ReplyHeader}
use corba_cc.Giop.Encoder.{GiopEncoder, set_giop_header, set_reply_header, skip_giop_header}
use corba_cc.Giop.Encoder.Header.{header_bytes, length-header_bytes, message-set_giop_header}
use corba_cc.Giop.Decoder.{
  GiopDecoder, new_giop_decoder, scan_giop_header, scan_reply_header, read_context_if,
  read_service_context, repeat,
}
use corba_cc.Giop.Decoder.Header.{scan_giop_header-header}
use corba_cc.Orb.Server.{reply}
use corba_cc.Orb.Server.Reply.{reply_octets, write_fields, buffer-fields}

-- The two scans of `ORB::socketRcvd` on a reply.
unfoldable pub receive_reply :
    ByteOrder → Option HostAndPort → List ℕ → Result (ReplyHeader × GiopDecoder)
receive_reply there remote m =
    scan_giop_header there (new_giop_decoder (new_decoder m) remote) >>= scan_reply_header there

-- A number at an aligned place.
read_word-aligned :
    (there host : ByteOrder) (v n : ℕ) (pre rest : List ℕ)
    → length pre ≡ n
    → align_to 4 n ≡ n
    → v < 2 ^ 32
    → read_word there 4 (cursor (some host) pre (store host 4 v ++ rest))
      ≡ ok (v, cursor (some host) (pre ++ store host 4 v) rest)
read_word-aligned there host v n pre rest at aligned h =
    let none_left : padding 4 (length pre) ≡ 0 =
      unfold padding in omega (arith, ap (align_to 4) at, aligned) in
    let e = read_word-cursor there host 4 v pre rest (omega arith) h in
    subst
      (λ (k : ℕ).
        read_word there 4 (cursor (some host) pre (replicate k 0 ++ (store host 4 v ++ rest)))
        ≡ ok (v, cursor (some host) ((pre ++ replicate k 0) ++ store host 4 v) rest))
      none_left e
    ∙ ap (λ xs. ok (v, cursor (some host) (xs ++ store host 4 v) rest)) (append-nil pre)

module _ (host there : ByteOrder) (id : ℕ) (status : ReplyStatus) (e : Encoder)
    (c : Option Endpoints) (pre old body : List ℕ) (h : IsAppend e)
    (laid : wire e ≡ pre ++ (old ++ body)) (p : length pre ≡ 12) (o : length old ≡ 12)
    (fits : e.offset < 2 ^ 32) where
  abbrev pub g : GiopEncoder
  g = record { buffer = e; major_version = 1; minor_version = 2; connection = c }

  size : ℕ
  size = length (old ++ body)

  head : List ℕ
  head = header_bytes host 1 2 MessageType.reply size

  fields : List ℕ
  fields = reply_octets host id (reply_status_code status)

  message : reply host id status g ≡ head ++ (fields ++ body)
  unfolding reply set_reply_header skip_giop_header g fields head size set_giop_header write_ulong
  message =
      let base : Encoder = (set_giop_header host MessageType.reply g).buffer in
      let set : base.buffer ≡ head ++ (old ++ body) =
        message-set_giop_header host MessageType.reply g pre (old ++ body) h laid p (omega arith) in
      let room : 24 ≤ length base.buffer = omega (
        arith,
        ap length set,
        length-append head (old ++ body),
        length-append old body,
        length-header_bytes host 1 2 MessageType.reply size,
      ) in
      ap (λ x. x.buffer) (write_fields host id (reply_status_code status) base room)
      ∙ buffer-fields host id (reply_status_code status) base room head old body set
          (length-header_bytes host 1 2 MessageType.reply size) o

  -- What the client has of it.
  pub record Returned (remote : Option HostAndPort) (r : Result (ReplyHeader × GiopDecoder))
      : Type 0 where
    pub decoder : GiopDecoder
    pub front : List ℕ
    pub result : r ≡ ok (record { request_id = id; reply_status = status }, decoder)
    pub status_eq : decoder.reply_status ≡ status
    pub length_front : length front ≡ 24
    pub buffer_eq : decoder.buffer ≡ cursor (some host) front body

  module _ (remote : Option HostAndPort) (id_fits : id < 2 ^ 32)
      (code_fits : reply_status_code status < 2 ^ 32)
      (named : reply_status (reply_status_code status) ≡ status) where
    fresh : GiopDecoder
    fresh = new_giop_decoder (new_decoder []) remote

    scanned : GiopDecoder
    scanned = record fresh {
      buffer = cursor (some host) head (fields ++ body);
      major_version = 1;
      minor_version = 2;
      message_type = MessageType.reply;
      message_length = size;
    }

    scan :
        scan_giop_header there (new_giop_decoder (new_decoder (head ++ (fields ++ body))) remote)
        ≡ ok scanned
    unfolding scanned fresh head fields size new_giop_decoder new_decoder message_type_code
    scan =
        scan_giop_header-header host there 1 2 size MessageType.reply (fields ++ body) fresh
          (omega arith) (omega arith) (omega arith)
          (omega (arith, length-wire e h, ap length laid, length-append pre (old ++ body)))
          (unfold message_type in refl)
          (omega (
            arith,
            length-append fields body,
            length-append (store host 4 id)
                (store host 4 (reply_status_code status) ++ store host 4 0),
            length-store host 4 id,
          ))

    f1 : List ℕ
    f1 = head ++ store host 4 id

    f2 : List ℕ
    f2 = f1 ++ store host 4 (reply_status_code status)

    f3 : List ℕ
    f3 = f2 ++ store host 4 0

    n0 : length head ≡ 12
    unfolding head
    n0 = length-header_bytes host 1 2 MessageType.reply size

    n1 : length f1 ≡ 16
    unfolding f1
    n1 = omega (arith, n0, length-append head (store host 4 id), length-store host 4 id)

    n2 : length f2 ≡ 20
    unfolding f2
    n2 = omega (
      arith,
      n1,
      length-append f1 (store host 4 (reply_status_code status)),
      length-store host 4 (reply_status_code status),
    )

    n3 : length f3 ≡ 24
    unfolding f3
    n3 = omega (arith, n2, length-append f2 (store host 4 0), length-store host 4 0)

    left : List ℕ
    left = store host 4 0 ++ body

    split : fields ++ body ≡ store host 4 id ++ (store host 4 (reply_status_code status) ++ left)
    unfolding fields left
    split =
        append_assoc (store host 4 id) (store host 4 (reply_status_code status) ++ store host 4 0)
          body
        ∙ ap (λ xs. store host 4 id ++ xs)
            (append_assoc (store host 4 (reply_status_code status)) (store host 4 0) body)

    scan_reply :
        scan_reply_header there scanned
        ≡ ok (
          record { request_id = id; reply_status = status },
          record scanned {
            buffer = cursor (some host) f3 body;
            request_id = id;
            reply_status = status;
          },
        )
    unfolding scan_reply_header scanned fresh new_giop_decoder read_context_if read_service_context
        repeat read_ulong f3 f2 f1 left
    scan_reply =
        rw
          (
            split,
            read_word-aligned there host id 12 head
                (store host 4 (reply_status_code status) ++ left) n0 (unfold align_to in refl)
                id_fits,
            read_word-aligned there host (reply_status_code status) 16 f1 left n1
                (unfold align_to in refl) code_fits,
            read_word-aligned there host 0 20 f2 body n2 (unfold align_to in refl) (omega arith),
            named,
          )
          refl

    pub reply-Returned : Returned remote (receive_reply there remote (reply host id status g))
    unfolding receive_reply scanned
    reply-Returned = record {
      decoder = record scanned {
        buffer = cursor (some host) f3 body;
        request_id = id;
        reply_status = status;
      };
      front = f3;
      result =
          ap
            (λ m.
              scan_giop_header there (new_giop_decoder (new_decoder m) remote)
              >>= scan_reply_header there)
            message
          ∙ ap (λ r. r >>= scan_reply_header there) scan
          ∙ scan_reply;
      status_eq = refl;
      length_front = n3;
      buffer_eq = refl;
    }
