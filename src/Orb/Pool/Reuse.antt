-- ===== src/Orb/Pool/Reuse.antt =====
-- `ORB::getConnection` of orb.cc, called again.
use corba_cc.Base.{
  ℕ, zero, suc, true, Bool-cases, inl, inr, sym, ◌≡◌, refl, ap, ◌∙◌, List, [], ◌∷◌, Option, none,
  some, bytes_eq_refl, ==_refl, ok,
}
use corba_cc.Giop.Types.{HostAndPort}
use corba_cc.Orb.Pool.{
  Peer, Broker, Fresh, insert, is_at, find_by_remote, connect_outgoing, reuse_or_connect,
  get_connection, named_local,
}

-- The first connection to an end point is found wherever it stands.
find_by_remote-insert :
    (host : List ℕ) (port place : ℕ) (c : Peer) (cs : List Peer)
    → is_at host port c.remote ≡ true
    → find_by_remote host port cs ≡ none
    → find_by_remote host port (insert place c cs) ≡ some c
unfolding find_by_remote insert
find_by_remote-insert host port zero c cs here absent = rw here refl
find_by_remote-insert host port (suc place) c [] here absent = rw here refl
find_by_remote-insert host port (suc place) c (d ∷ ds) here absent =
    elim (Bool-cases (is_at host port d.remote)) [
      | inl other ↦ let found : some d ≡ none = rw other at absent in cc
      | inr other ↦
          let rest : find_by_remote host port ds ≡ none = rw other at absent in
          rw other (find_by_remote-insert host port place c ds here rest)
    ]

connect_outgoing-found :
    (host : List ℕ) (port : ℕ) (fresh : Fresh) (ps : List HostAndPort) (b b' : Broker) (c : Peer)
    → find_by_remote host port b.connections ≡ none
    → connect_outgoing host port fresh ps b ≡ ok (c, b')
    → find_by_remote host port b'.connections ≡ some c
unfolding connect_outgoing find_by_remote
connect_outgoing-found host port fresh [] b b' c e h = cc
connect_outgoing-found host port fresh (p ∷ ps) b b' c e h =
    let made : b' ≡ record {
      protocols = named_local fresh.uuid p ∷ ps;
      connections =
          insert fresh.place
            (record { number = b.made; protocol = 0; remote = record { host = host; port = port } })
            b.connections;
      made = suc b.made;
    } =
      cc in
    let new : c
        ≡ record { number = b.made; protocol = 0; remote = record { host = host; port = port } } =
      cc in
    let here : is_at host port (record { host = host; port = port }) ≡ true =
      rw (bytes_eq_refl host, ==_refl port) refl in
    rw (made, new)
      (find_by_remote-insert host port fresh.place
        (record { number = b.made; protocol = 0; remote = record { host = host; port = port } })
        b.connections here e)

reuse_or_connect-found :
    (o : Option Peer) (host : List ℕ) (port : ℕ) (fresh : Fresh) (b b' : Broker) (c : Peer)
    → find_by_remote host port b.connections ≡ o
    → reuse_or_connect o host port fresh b ≡ ok (c, b')
    → find_by_remote host port b'.connections ≡ some c
unfolding reuse_or_connect
reuse_or_connect-found (some x) host port fresh b b' c e h =
    let same : b ≡ b' = cc in
    let it : x ≡ c = cc in
    ap (λ z. find_by_remote host port z.connections) (sym same) ∙ e ∙ ap some it
reuse_or_connect-found none host port fresh b b' c e h =
    connect_outgoing-found host port fresh b.protocols b b' c e h

-- When `getConnection` has given a connection, a further call for the same host and port gives
-- the same connection and changes nothing.
pub get_connection-again :
    (host : List ℕ) (port : ℕ) (fresh fresh' : Fresh) (b b' : Broker) (c : Peer)
    → get_connection host port fresh b ≡ ok (c, b')
    → get_connection host port fresh' b' ≡ ok (c, b')
unfolding get_connection reuse_or_connect
get_connection-again host port fresh fresh' b b' c h =
    let found =
      reuse_or_connect-found (find_by_remote host port b.connections) host port fresh b b' c refl
        h in
    rw found refl
