-- ===== src/Proxy/Udp/Laws.antt =====
-- What a UdpProxy passes on, proxy/udp.go.
use ezproxy.Base.{
  ◌≡◌, refl, ap, Bool, true, false, ◌||◌, none, some, List, [], ◌∷◌, if◌then◌else◌, All, arith, ◌⊎◌,
  inl, inr, Bool-cases,
}
use ezproxy.Handler.State.{Bytes, Addr}
use ezproxy.Errors.{Error}
use ezproxy.Handler.Container.{PacketData}
use ezproxy.Proxy.Net.{NetError, is_timeout_error, compare_net_addr, Datagram, arrived, unread}
use ezproxy.Proxy.Udp.{UdpProxy, first_packet, route, Turn, turn_of, read_loop, listen}

-- What a turn hears: nothing more, nothing this time, or a datagram.
abbrev pub is_fatal : NetError → Turn → Bool
is_fatal net t = if t.over then true else elim t.read [
  | unread e ↦ if is_timeout_error net (some e) then false else true
  | arrived bytes from ↦ false
]

-- The datagrams that arrive before the context is over or the socket fails.
abbrev pub heard : NetError → List Turn → List (Bytes × Addr)
heard net [] = []
heard net (t ∷ ts) =
    let rest = heard net ts in
    if is_fatal net t
    then []
    else elim t.read [ unread e ↦ rest | arrived bytes from ↦ (bytes, from) ∷ rest ]

-- A datagram from the client or from the server
abbrev pub is_known : UdpProxy → Addr → Bool
is_known u from = compare_net_addr from u.client || compare_net_addr from u.server

-- The packet that a datagram becomes: from the client to the server, or else to the client.
abbrev pub packet : UdpProxy → Bytes → Addr → PacketData
packet u bytes from = record {
  serverbound = compare_net_addr from u.client;
  source = from;
  dest = if compare_net_addr from u.client then u.server else u.client;
  content = bytes;
}

route-packet :
    (u : UdpProxy) (from : Addr) (bytes : Bytes)
    → route u from bytes ≡ (if is_known u from then some (packet u bytes from) else none)
unfolding route
route-packet u from bytes = elim (Bool-cases (compare_net_addr from u.client)) [
  | inl c ↦ rw (route, c) refl
  | inr c ↦ elim (Bool-cases (compare_net_addr from u.server)) [
    | inl s ↦ rw (route, c, s) refl
    | inr s ↦ rw (route, c, s) refl
  ]
]

-- Those of the datagrams that are known, as packets.
abbrev pub routed : UdpProxy → List (Bytes × Addr) → List PacketData
routed u [] = []
routed u ((bytes, from) ∷ l) =
    let rest = routed u l in if is_known u from then packet u bytes from ∷ rest else rest

Datagram-cases :
    (d : Datagram)
    → ((bytes : Bytes) × (from : Addr) × (d ≡ arrived bytes from)) ⊎ ((e : Error) × (d ≡ unread e))
Datagram-cases (arrived bytes from) = inl (bytes, from, refl)
Datagram-cases (unread e) = inr (e, refl)

read_loop-routed :
    (net : NetError) (u : UdpProxy) (ts : List Turn)
    → (read_loop net u ts).0 ≡ routed u (heard net ts)
unfolding read_loop turn_of
read_loop-routed net u [] = refl
read_loop-routed net u (t ∷ ts) = elim (Datagram-cases t.read) [
  | inl (bytes, from, e) ↦ ground (arith, read_loop-routed net u ts, route-packet u from bytes)
  | inr (x, e) ↦ ground (arith, read_loop-routed net u ts)
]

-- The proxy passes on the packet that it was made for, from its client to its server, and after it, in
-- order, every datagram from its client or its server that arrives before its context is over or its
-- socket fails, to the other of the two; a timeout ends nothing.
pub listen-routed :
    (net : NetError) (u : UdpProxy) (ts : List Turn)
    → (listen net u ts).0
      ≡ record {
        serverbound = true;
        source = u.client;
        dest = u.server;
        content = u.first_pkt_data;
      }
        ∷ routed u (heard net ts)
unfolding listen first_packet
listen-routed net u ts = ap (λ l. first_packet u ∷ l) (read_loop-routed net u ts)

-- The packet is from the client to the server, or the other way.
abbrev pub IsBetween : UdpProxy → PacketData → Type 0
IsBetween u d =
    ((d.serverbound ≡ true) × (compare_net_addr d.source u.client ≡ true) × (d.dest ≡ u.server))
    ⊎ ((d.serverbound ≡ false) × (compare_net_addr d.source u.server ≡ true) × (d.dest ≡ u.client))

packet-IsBetween :
    (u : UdpProxy) (bytes : Bytes) (from : Addr)
    → is_known u from ≡ true
    → IsBetween u (packet u bytes from)
packet-IsBetween u bytes from e = elim (Bool-cases (compare_net_addr from u.client)) [
  | inl c ↦ inl (c, c, rw c refl)
  | inr c ↦ inr (c, ground arith, rw c refl)
]

routed-IsBetween : (u : UdpProxy) (l : List (Bytes × Addr)) → All (IsBetween u) (routed u l)
routed-IsBetween u [] = tt
routed-IsBetween u ((bytes, from) ∷ l) = elim (Bool-cases (is_known u from)) [
  | inr e ↦ rw (All, e) (routed-IsBetween u l)
  | inl e ↦ rw (All, e) (packet-IsBetween u bytes from e, routed-IsBetween u l)
]

-- Nothing that a third party sends gets in: every packet that a UdpProxy reads and passes on is from its
-- client to its server or from its server to its client.
pub read_loop-IsBetween :
    (net : NetError) (u : UdpProxy) (ts : List Turn) → All (IsBetween u) (read_loop net u ts).0
read_loop-IsBetween net u ts = rw (read_loop-routed net u ts) (routed-IsBetween u (heard net ts))
