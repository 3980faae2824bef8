-- ===== src/Orb/Pool.antt =====
-- `ConnectionPool` of net/connection.cc, and `ORB::registerProtocol` and `ORB::getConnection` of orb.cc.
pub mod Reuse
use corba_cc.Base.{
  ℕ, zero, suc, List, [], ◌∷◌, ◌++◌, Bool, false, Option, none, some, ◌==◌, ◌&&◌, if◌then◌else◌,
  bytes_eq, length, get_elem?, Result, ok, err, no_protocol,
}
use corba_cc.Giop.Types.{HostAndPort}

-- A connection: which one it is, the place of its protocol among those of the ORB, and its remote end.
pub record Peer : Type 0 where
  pub number : ℕ
  pub protocol : ℕ
  pub remote : HostAndPort

-- The local ends of the protocols in the order of their registration, and the connections in the order
-- in which the set is searched, which is that of their addresses.
pub record Broker : Type 0 where
  pub protocols : List HostAndPort
  pub connections : List Peer
  pub made : ℕ

abbrev pub is_at : List ℕ → ℕ → HostAndPort → Bool
is_at host port p = bytes_eq p.host host && p.port == port

unfoldable pub find_by_remote : List ℕ → ℕ → List Peer → Option Peer
find_by_remote host port [] = none
find_by_remote host port (c ∷ cs) =
    let rest = find_by_remote host port cs in if is_at host port c.remote then some c else rest

unfoldable pub is_local : List ℕ → ℕ → Option HostAndPort → Bool
is_local host port none = false
is_local host port (some p) = is_at host port p

unfoldable pub find_by_local : List HostAndPort → List ℕ → ℕ → List Peer → Option Peer
find_by_local protocols host port [] = none
find_by_local protocols host port (c ∷ cs) =
    let rest = find_by_local protocols host port cs in
    if is_local host port (get_elem? protocols c.protocol) then some c else rest

unfoldable pub register_protocol : HostAndPort → Broker → Broker
register_protocol p b = record b { protocols = b.protocols ++ (p ∷ []) }

-- What a new connection gets that the ORB does not choose: the name that is generated, and the place of
-- its address among those of the others.
pub record Fresh : Type 0 where
  pub uuid : List ℕ
  pub place : ℕ

-- `connections.insert`
unfoldable pub insert : ℕ → Peer → List Peer → List Peer
insert zero c cs = c ∷ cs
insert (suc place) c [] = c ∷ []
insert (suc place) c (d ∷ ds) = d ∷ insert place c ds

-- A protocol that does not listen gets a name that no other has; `uuid` is the one generated.
unfoldable pub named_local : List ℕ → HostAndPort → HostAndPort
named_local uuid p = if length p.host == 0 then record { host = uuid; port = 2809 } else p

unfoldable pub connect_outgoing :
    List ℕ → ℕ → Fresh → List HostAndPort → Broker → Result (Peer × Broker)
connect_outgoing host port fresh [] b = err no_protocol
connect_outgoing host port fresh (p ∷ ps) b =
    let c : Peer = record {
      number = b.made;
      protocol = 0;
      remote = record { host = host; port = port };
    } in
    ok (
      c,
      record {
        protocols = named_local fresh.uuid p ∷ ps;
        connections = insert fresh.place c b.connections;
        made = suc b.made;
      },
    )

unfoldable pub reuse_or_connect : Option Peer → List ℕ → ℕ → Fresh → Broker → Result (Peer × Broker)
reuse_or_connect (some c) host port fresh b = ok (c, b)
reuse_or_connect none host port fresh b = connect_outgoing host port fresh b.protocols b

unfoldable pub get_connection : List ℕ → ℕ → Fresh → Broker → Result (Peer × Broker)
get_connection host port fresh b =
    reuse_or_connect (find_by_remote host port b.connections) host port fresh b
