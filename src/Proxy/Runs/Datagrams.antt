-- ===== src/Proxy/Runs/Datagrams.antt =====
-- A connection of the UDP proxy from end to end: proxy/udp.go with handler/proxy.go.
use ezproxy.Base.{
  ℕ, ◌≡◌, refl, ap, ◌∙◌, Bool, true, false, not, ◌&&◌, List, [], ◌∷◌, ◌++◌, map, if◌then◌else◌,
  Bool-cases, inl, inr, Returns, Returns-map,
}
use ezproxy.Handler.State.{Addr, Bytes, Env, Spawner}
use ezproxy.Handler.Container.{PacketData}
use ezproxy.Handler.Process.Laws.{IsRunning}
use ezproxy.Handler.Process.Runs.{process}
use ezproxy.Handler.Process.Relay.{
  handle_packets, writes, kept, Relays, IsRelay, handle_packets-IsRelay,
}
use ezproxy.Proxy.Net.{NetError, compare_net_addr}
use ezproxy.Proxy.Runs.Relay.{all}
use ezproxy.Proxy.Runs.Sends.{
  toward, toward-append, through, IsAddressed, Parts, Carries, Parts-Carries,
}
use ezproxy.Proxy.Udp.{UdpProxy, Turn, listen, Write, send_to_client, send_to_server, udp_send}
use ezproxy.Proxy.Udp.Laws.{heard, routed, listen-routed}

-- The contents of the datagrams whose sender passes a test.
abbrev pub sent_by : (Addr → Bool) → List (Bytes × Addr) → List Bytes
sent_by test [] = []
sent_by test ((bytes, from) ∷ l) =
    let rest = sent_by test l in if test from then bytes ∷ rest else rest

abbrev pub is_client : UdpProxy → Addr → Bool
is_client u from = compare_net_addr from u.client

-- The client is looked for first.
abbrev pub is_server : UdpProxy → Addr → Bool
is_server u from = not (compare_net_addr from u.client) && compare_net_addr from u.server

routed-toward :
    (u : UdpProxy) (l : List (Bytes × Addr))
    → (toward true (kept all (routed u l)) ≡ sent_by (is_client u) l)
      × (toward false (kept all (routed u l)) ≡ sent_by (is_server u) l)
routed-toward u [] = (refl, refl)
routed-toward u ((bytes, from) ∷ l) =
    let (a, b) = routed-toward u l in
    elim (Bool-cases (compare_net_addr from u.client)) [
      | inl c ↦ rw c (ap (λ x. bytes ∷ x) a, b)
      | inr c ↦ elim (Bool-cases (compare_net_addr from u.server)) [
        | inl s ↦ rw (c, s) (a, ap (λ x. bytes ∷ x) b)
        | inr s ↦ rw (c, s) (a, b)
      ]
    ]

-- What the relay of a connection comes to in each direction.
relay-toward :
    (n k : ℕ) (env : Env) (h : ℕ) (net : NetError) (u : UdpProxy) (ts : List Turn)
    (ds : List ((Spawner → Spawner) × PacketData)) (p : Spawner)
    → map (λ d. d.1) ds ≡ (listen net u ts).0
    → IsRunning k (process n p)
    → Relays n k env h all ds p
    → Returns (handle_packets env h ds p) (
        Parts n h
          (u.first_pkt_data ∷ sent_by (is_client u) (heard net ts))
          (sent_by (is_server u) (heard net ts))
          p)
relay-toward n k env h net u ts ds p e r f =
    let (a, b) = routed-toward u (heard net ts) in
    let all_of = e ∙ listen-routed net u ts in
    Returns-map (IsRelay n k env h all (map (λ d. d.1) ds) p) _ _
      (handle_packets-IsRelay n k env h all ds p r f)
      (λ q _ x. (
        x.0,
        ap (toward true) x.1
            ∙ toward-append true (writes h p.log) _
            ∙ ap (λ l. toward true (writes h p.log) ++ toward true (kept all l)) all_of
            ∙ ap (λ l. toward true (writes h p.log) ++ u.first_pkt_data ∷ l) a,
        ap (toward false) x.1
            ∙ toward-append false (writes h p.log) _
            ∙ ap (λ l. toward false (writes h p.log) ++ toward false (kept all l)) all_of
            ∙ ap (λ l. toward false (writes h p.log) ++ l) b,
      ))

udp_send-IsAddressed :
    (write : Write) (u : UdpProxy) → IsAddressed (udp_send write u) u.client u.server
unfolding udp_send send_to_client send_to_server
udp_send-IsAddressed write u bytes = (refl, refl)

-- Without a filter the proxy is transparent for a UDP connection of a running spawner: however its
-- loop, its container and all others interleave, what its sends write to the address of its server is,
-- after what they wrote before, the packet that it was made for and then, in order, the datagrams of its
-- client, and what they write to that of its client the datagrams of its server, if the two have
-- different addresses, no filter holds anything back and others write nothing to the connection; what
-- strangers send goes nowhere. A write that fails is one of them.
pub handle_packets-IsRouted :
    (n k : ℕ) (env : Env) (h : ℕ) (net : NetError) (write : Write) (u : UdpProxy) (ts : List Turn)
    (ds : List ((Spawner → Spawner) × PacketData)) (p : Spawner)
    → let send = udp_send write u in
      let env' = through h send env in
      compare_net_addr u.client u.server ≡ false
      → map (λ d. d.1) ds ≡ (listen net u ts).0
      → IsRunning k (process n p)
      → Relays n k env' h all ds p
      → Returns (handle_packets env' h ds p) (
          Carries n h send u.client u.server
            (u.first_pkt_data ∷ sent_by (is_client u) (heard net ts))
            (sent_by (is_server u) (heard net ts))
            p)
handle_packets-IsRouted n k env h net write u ts ds p c e r f =
    let send = udp_send write u in
    let xs = u.first_pkt_data ∷ sent_by (is_client u) (heard net ts) in
    let ys = sent_by (is_server u) (heard net ts) in
    Returns-map (Parts n h xs ys p) (Carries n h send u.client u.server xs ys p) _
      (relay-toward n k (through h send env) h net u ts ds p e r f)
      (λ q _ x.
        Parts-Carries n h send u.client u.server xs ys p q (udp_send-IsAddressed write u) c x)
