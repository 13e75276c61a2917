-- ===== src/Proxy/Runs/Relay.antt =====
-- A connection of the TCP proxy from end to end: proxy/tcp.go with handler/proxy.go.
use ezproxy.Base.{
  ℕ, ◌≡◌, refl, ap, ◌∙◌, Bool, true, false, List, [], ◌∷◌, ◌++◌, map, arith, ◌⊎◌, inl, inr, Returns,
  Returns-map,
}
use ezproxy.Handler.State.{Bytes, Env, Spawner}
use ezproxy.Handler.Container.{PacketData}
use ezproxy.Handler.Process.Laws.{IsRunning}
use ezproxy.Handler.Process.Runs.{process}
use ezproxy.Handler.Process.Relay.{
  handle_packets, writes, kept, Relays, IsRelay, handle_packets-IsRelay,
}
use ezproxy.Proxy.Net.{NetError, compare_net_addr}
use ezproxy.Proxy.Runs.Sends.{
  toward, toward-append, through, IsAddressed, compare_net_addr_self, Parts, Carries, Parts-Carries,
}
use ezproxy.Proxy.Tcp.{TcpProxy, Turn, listen, Write, send_to_client, send_to_server, tcp_send}
use ezproxy.Proxy.Tcp.Laws.{heard, packet, listen-heard}

-- The third list is the first two, interleaved.
abbrev pub Merges : List PacketData → List PacketData → List PacketData → Type 0
Merges xs ys [] = (xs ≡ []) × (ys ≡ [])
Merges xs ys (z ∷ zs) =
    ((l : List PacketData) × (xs ≡ z ∷ l) × Merges l ys zs)
    ⊎ ((l : List PacketData) × (ys ≡ z ∷ l) × Merges xs l zs)

-- Nothing is held back.
abbrev pub all : PacketData → Bool
all d = true

-- What the two loops of a connection read, in both directions.
merged-toward :
    (t : TcpProxy) (us vs : List Bytes) (ds : List PacketData)
    → compare_net_addr t.client t.server ≡ false
    → compare_net_addr t.server t.server ≡ true
    → Merges (map (packet t t.client) us) (map (packet t t.server) vs) ds
    → (toward true (kept all ds) ≡ us) × (toward false (kept all ds) ≡ vs)
merged-toward t [] [] [] c s m = (refl, refl)
merged-toward t [] (v ∷ vs) [] c s (e, f) = absurd (ground arith)
merged-toward t (u ∷ us) vs [] c s (e, f) = absurd (ground arith)
merged-toward t [] vs (d ∷ ds) c s (inl (l, e, m)) = absurd (ground arith)
merged-toward t (u ∷ us) vs (d ∷ ds) c s (inl (l, e, m)) =
    let same : map (packet t t.client) us ≡ l = ground arith in
    let one : d ≡ packet t t.client u = ground arith in
    let (a, b) = merged-toward t us vs ds c s (rw same m) in rw (one, c) (ap (λ x. u ∷ x) a, b)
merged-toward t us [] (d ∷ ds) c s (inr (l, e, m)) = absurd (ground arith)
merged-toward t us (v ∷ vs) (d ∷ ds) c s (inr (l, e, m)) =
    let same : map (packet t t.server) vs ≡ l = ground arith in
    let one : d ≡ packet t t.server v = ground arith in
    let (a, b) = merged-toward t us vs ds c s (rw same m) in rw (one, s) (a, ap (λ x. v ∷ x) b)

-- What the relay of a connection comes to in each direction.
relay-toward :
    (n k : ℕ) (env : Env) (h : ℕ) (net : NetError) (t : TcpProxy) (us vs : List Turn)
    (ds : List ((Spawner → Spawner) × PacketData)) (p : Spawner)
    → compare_net_addr t.client t.server ≡ false
    → Merges (listen net t t.client us).0 (listen net t t.server vs).0 (map (λ d. d.1) ds)
    → IsRunning k (process n p)
    → Relays n k env h all ds p
    → Returns (handle_packets env h ds p) (Parts n h (heard net us) (heard net vs) p)
relay-toward n k env h net t us vs ds p c m r f =
    let m' : Merges (map (packet t t.client) (heard net us))
        (map (packet t t.server) (heard net vs)) (map (λ d. d.1) ds) =
      rw
        (
          ← (ap (λ x. x.0) (listen-heard net t t.client us)),
          ← (ap (λ x. x.0) (listen-heard net t t.server vs)),
        )
        m in
    let (a, b) =
      merged-toward t (heard net us) (heard net vs) (map (λ d. d.1) ds) c
        (compare_net_addr_self t.server) m' in
    Returns-map (IsRelay n k env h all (map (λ d. d.1) ds) p) _ _
      (handle_packets-IsRelay n k env h all ds p r f)
      (λ q _ x. (
        x.0,
        ap (toward true) x.1
            ∙ toward-append true (writes h p.log) (kept all (map (λ d. d.1) ds))
            ∙ ap (λ l. toward true (writes h p.log) ++ l) a,
        ap (toward false) x.1
            ∙ toward-append false (writes h p.log) (kept all (map (λ d. d.1) ds))
            ∙ ap (λ l. toward false (writes h p.log) ++ l) b,
      ))

tcp_send-IsAddressed :
    (write : Write) (t : TcpProxy) → IsAddressed (tcp_send write t) t.client t.server
unfolding tcp_send send_to_client send_to_server
tcp_send-IsAddressed write t bytes = (refl, refl)

-- Without a filter the proxy is transparent for a TCP connection of a running spawner: however its two
-- loops, its container and all others interleave, what its sends write to the address of its server is,
-- after what they wrote before, in order what was read from its client, and what they write to that of its
-- client what was read from its server, if the two have different addresses, no filter holds anything
-- back, and others write nothing to the connection. A write that fails is one of them.
pub handle_packets-IsTransparent :
    (n k : ℕ) (env : Env) (h : ℕ) (net : NetError) (write : Write) (t : TcpProxy)
    (us vs : List Turn) (ds : List ((Spawner → Spawner) × PacketData)) (p : Spawner)
    → let send = tcp_send write t in
      let env' = through h send env in
      compare_net_addr t.client t.server ≡ false
      → Merges (listen net t t.client us).0 (listen net t t.server vs).0 (map (λ d. d.1) ds)
      → IsRunning k (process n p)
      → Relays n k env' h all ds p
      → Returns
          (handle_packets env' h ds p)
          (Carries n h send t.client t.server (heard net us) (heard net vs) p)
handle_packets-IsTransparent n k env h net write t us vs ds p c m r f =
    let send = tcp_send write t in
    let xs = heard net us in
    let ys = heard net vs in
    Returns-map (Parts n h xs ys p) (Carries n h send t.client t.server xs ys p) _
      (relay-toward n k (through h send env) h net t us vs ds p c m r f)
      (λ q _ x.
        Parts-Carries n h send t.client t.server xs ys p q (tcp_send-IsAddressed write t) c x)
