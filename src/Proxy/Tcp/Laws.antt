-- ===== src/Proxy/Tcp/Laws.antt =====
-- What a TcpProxy passes on from one of its connections, proxy/tcp.go.
use ezproxy.Base.{
  ◌≡◌, refl, Bool, true, false, some, List, [], ◌∷◌, map, if◌then◌else◌, arith, not, ◌⊎◌, inl, inr,
  Bool-cases,
}
use ezproxy.Errors.{Error, proxy_retry, formatted}
use ezproxy.Handler.State.{Bytes, Addr}
use ezproxy.Handler.Container.{PacketData}
use ezproxy.Proxy.Net.{
  NetError, is_timeout_error, compare_net_addr, Ending, waits, ended, cancelled,
}
use ezproxy.Proxy.Tcp.{
  TcpProxy, Read, got, unread, Turn, packet_from, is_end_of_file, cause_of_failure, turn_of, listen,
}

abbrev pub is_fatal : NetError → Turn → Bool
is_fatal net t = if t.over then true else elim t.read [
  | unread e ↦ if is_timeout_error net (some e) then false else true
  | got bytes ↦ false
]

Read-cases : (r : Read) → ((bytes : Bytes) × (r ≡ got bytes)) ⊎ ((e : Error) × (r ≡ unread e))
Read-cases (got bytes) = inl (bytes, refl)
Read-cases (unread e) = inr (e, refl)

-- What is read before the context is over or the connection fails.
abbrev pub heard : NetError → List Turn → List Bytes
heard net [] = []
heard net (t ∷ ts) =
    let rest = heard net ts in
    if is_fatal net t then [] else elim t.read [ unread e ↦ rest | got bytes ↦ bytes ∷ rest ]

-- The first turn that ends the loop says how.
abbrev pub ending : NetError → List Turn → Ending
ending net [] = waits
ending net (t ∷ ts) =
    let rest = ending net ts in
    if t.over then ended else elim t.read [
      | unread e ↦
          if is_timeout_error net (some e)
          then rest
          else cancelled (if is_end_of_file e then proxy_retry else formatted e)
      | got bytes ↦ rest
    ]

-- From the connection to the server everything goes to the client, from the other one to the server.
abbrev pub packet : TcpProxy → Addr → Bytes → PacketData
packet t c bytes =
    let inwards = compare_net_addr c t.server in
    record {
      serverbound = not inwards;
      source = if inwards then t.server else t.client;
      dest = if inwards then t.client else t.server;
      content = bytes;
    }

packet_from-packet :
    (t : TcpProxy) (c : Addr) (bytes : Bytes) → packet_from t c bytes ≡ packet t c bytes
unfolding packet_from
packet_from-packet t c bytes = elim (Bool-cases (compare_net_addr c t.server)) [
  | inl e ↦ rw (packet_from, e) refl
  | inr e ↦ rw (packet_from, e) refl
]

-- From its connection to the server a proxy passes on to the client, and from the other one to the
-- server, in order, all that it reads before its context is over or the connection fails; it cancels its
-- context with ErrProxyRetry at the end of the file, with a text of its own after any other failure but
-- a timeout, and not otherwise.
pub listen-heard :
    (net : NetError) (t : TcpProxy) (c : Addr) (us : List Turn)
    → listen net t c us ≡ (map (packet t c) (heard net us), ending net us)
unfolding listen turn_of cause_of_failure
listen-heard net t c [] = refl
listen-heard net t c (u ∷ us) = elim (Read-cases u.read) [
  | inl (bytes, e) ↦ ground (arith, listen-heard net t c us, packet_from-packet t c bytes)
  | inr (x, e) ↦ ground (arith, listen-heard net t c us)
]
