-- ===== src/Lib.antt =====
-- corba.cc: a model of the CORBA object request broker in src/corba, and what makes it correct.
--
-- A client's stub encodes a request (GIOPEncoder over CDREncoder) and hands the packet to a
-- connection, which queues it and sends it when the event loop says that the socket can take octets.
-- The peer's connection cuts the octets that it receives into packets (IIOPStream2Packet) and hands
-- them to its ORB, which scans the headers (GIOPDecoder over CDRDecoder), calls the servant and
-- sends a reply, in which an exception of the servant travels back to the waiting call.
--
-- Cdr models src/corba/cdr.cc and cdr.hh. Cdr/Encoder is CDREncoder and Cdr/Decoder is CDRDecoder: a
-- record for each, and a function per operation, from the state to the state behind it. An operation
-- that lays out a number takes the byte order of the machine (Cdr/Bytes), so the theorems speak of two
-- machines. Cdr/Codec relates a write to the read that undoes it, wherever in a message they stand.
-- Giop models src/corba/giop.cc and giop.hh: Giop/Enums and Giop/Types are the enumerations and
-- structures, Giop/Encoder is GIOPEncoder and Giop/Decoder is GIOPDecoder. A connection is to the
-- encoder its two end points and didSendBiDirIIOP, and to the decoder its remote end point.
-- Net/Stream models src/corba/net/stream2packet.cc, and the loop of TcpConnection::canRead that
-- drives it; Net/Stream/Messages says by the layout of the headers which messages are in a sequence
-- of octets; Net/Tcp models src/corba/net/tcp/connection.cc, one function per method and callback.
-- Net/Tcp/Steps has the steps that a connection can take. What the operating system answers
-- (connect_to, send, recv, getpeername) is an argument, and the interlock of async.cc, which is not
-- part of the repository, a record of its operations.
-- Net/Ws models src/corba/net/ws/connection.cc: the handshake in HTTP, and the packets that wslay frames
-- behind it; wslay and nettle, which are not part of the repository, are records of their operations.
-- Orb/Exceptions models src/corba/exception.hh, and how src/corba/orb.cc writes a system exception
-- into a reply and throws the one that a reply holds.
-- Orb/Server models ORB::socketRcvd of src/corba/orb.cc: a packet, the servants and the end points of
-- the connection give the packet that is sent back or the call that is resumed; a servant is its
-- repository id and a function that says how its method ends. Orb/Naming models src/corba/naming.cc;
-- Orb/Pool models ORB::getConnection and the pool of src/corba/net/connection.cc; Orb/Table is the
-- std::map that they look names up in, Orb/Servants the activation of servants, and Orb/Binding is
-- ORB::bind, a skeleton being a number there, and ORB::_narrow_servant. Orb/Client is ORB::_twowayCall
-- up to the reply, and ORB::onewayCall, for any transport; Orb/Resolving is ORB::stringToObject up
-- to the call of the name service.
-- Url models src/corba/url.cc and url.hh: Url/Lexer is UrlLexer, a text and a position, Url/Parser is
-- UrlParser, with the constructor of IOR from src/corba/ior.cc, and Url/Printer the methods str. A text
-- is a list of octets.
-- Runs holds concrete inputs.
--
-- A throw, and a step that C++ leaves undefined (a read outside the buffer, a null pointer, a variable
-- that was never set), are the values of Error in Base/Errors; a function that can end in one returns a
-- Result. Numbers are natural numbers, cut to 8, 16, 32 or 64 bits where the source stores or converts
-- them. Octets of floats are their bits.
--
-- The loops over the packets of a stream and over waiting calls run on fuel: the number of pending
-- octets, of which each message takes twelve, and the number of waiting calls, one of which each round
-- takes out; the digits of a generated key run on the number itself; the lists of labels and addresses of a
-- URL run on the octets that are left, of which each round takes one or more. In each case that is
-- enough.
--
-- Not modelled: logging, the sockets of net/util/socket.cc and libev, readFloat and readDouble of
-- cdr.cc, the coroutines, which run to their end at once, ORB::shutdown, and the files of old, which
-- no build uses.
pub mod Base
pub mod Cdr
pub mod Giop
pub mod Net
pub mod Orb
pub mod Url
pub mod Runs
