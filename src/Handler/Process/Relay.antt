-- ===== src/Handler/Process/Relay.antt =====
-- The goroutine of a container over all that it takes: handlePacket, handler/proxy.go.
use ezproxy.Base.{
  ℕ, ◌<◌, ◌≡◌, refl, sym, ap, ◌∙◌, Bool, ◌==◌, Option, none, some, List, [], ◌∷◌, ◌++◌, length, map,
  arith, Returns, Returns-map, Bool-cases, Option-cases, inl, inr, if◌then◌else◌, get_elem?,
  get_elem?-some, ◌>>=◌, Returns-some,
}
use ezproxy.Errors.{Error}
use ezproxy.Handler.State.{Bytes, Packet, Container, Effect, wrote, Env, Spawner}
use ezproxy.Handler.Invariant.{IsValid}
use ezproxy.Handler.Send.{packet_of}
use ezproxy.Handler.Send.Delivery.{live_places, OffersEach}
use ezproxy.Handler.Send.Laws.{passes, asked, IsHandled, handle_send_total}
use ezproxy.Handler.Container.{PacketData, packet_flags, handle_packet}
use ezproxy.Handler.Container.Laws.{IsWritten, at-steady, write_out-IsWritten}
use mathlib.Core.List.{append-nil, append_assoc}
use ezproxy.Handler.Process.{Reach, here, next, receives}
use ezproxy.Handler.Process.Laws.{IsRunning, Reach-IsRunning}
use ezproxy.Handler.Process.Runs.{process, Reach-trans}

-- handlePacket until its context is over: the packets that it takes, each after what others do.
unfoldable pub handle_packets :
    Env → ℕ → List ((Spawner → Spawner) × PacketData) → Spawner → Option Spawner
handle_packets env h [] p = some p
handle_packets env h ((m, d) ∷ ds) p = handle_packet env d h (m p) >>= handle_packets env h ds

-- What the sockets of container h were to write, and in which direction, oldest first.
abbrev pub write_of : ℕ → Effect → Option (Bool × Bytes)
write_of h (wrote k serverbound bytes) = if k == h then some (serverbound, bytes) else none
write_of h _ = none

abbrev pub writes : ℕ → List Effect → List (Bool × Bytes)
writes h [] = []
writes h (x ∷ l) =
    let rest = writes h l in elim (write_of h x) [ none ↦ rest | some w ↦ rest ++ w ∷ [] ]

OffersEach-writes :
    (h : ℕ) (pkt : Packet) (is : List ℕ) (old new : List Effect)
    → OffersEach pkt is old new
    → writes h new ≡ writes h old
OffersEach-writes h pkt [] old new e = ap (writes h) e
OffersEach-writes h pkt (i ∷ is) old new (x, inl o, r) =
    OffersEach-writes h pkt is (x ∷ old) new r ∙ rw o refl
OffersEach-writes h pkt (i ∷ is) old new (x, inr o, r) =
    OffersEach-writes h pkt is (x ∷ old) new r ∙ rw o refl

asked-writes :
    (h j : ℕ) (bytes : Bytes) (flags : ℕ) (p : Spawner)
    → writes h (asked bytes flags j p) ≡ writes h p.log
asked-writes h j bytes flags p = ground arith

-- HandleSend writes nothing itself.
handle_send-writes :
    (env : Env) (bytes : Bytes) (flags h j : ℕ) (c : Container) (p : Spawner) (r : Bool × Spawner)
    → IsHandled env bytes flags j c p r
    → writes h r.1.log ≡ writes h p.log
handle_send-writes env bytes flags h j c p r d = elim (Bool-cases (passes env bytes flags j p)) [
  | inl on ↦
      OffersEach-writes h (packet_of bytes flags c p) (live_places p.contexts 0 p.rc_chan) _ r.1.log
        (rw on at d.logged)
      ∙ asked-writes h j bytes flags p
  | inr off ↦ ap (writes h) (rw off at d.logged) ∙ asked-writes h j bytes flags p
]

IsWritten-writes :
    (env : Env) (sb : Bool) (bytes : Bytes) (h : ℕ) (c : Container) (q : Spawner)
    (r : Option Error × Spawner)
    → IsWritten env sb bytes h c q r
    → writes h r.1.log ≡ writes h q.log ++ (sb, bytes) ∷ []
IsWritten-writes env sb bytes h c q r w = elim (Option-cases r.0) [
  | inl e ↦ ap (writes h) (rw e at w.logged) ∙ ground arith
  | inr (x, e) ↦ elim (Option-cases q.error_callback) [
    | inl f ↦ ap (writes h) (rw f at (rw e at w.logged)) ∙ ground arith
    | inr (cb, f) ↦ ap (writes h) (rw f at (rw e at w.logged)) ∙ ground arith
  ]
]

abbrev marked : PacketData → Bool × Bytes
marked d = (d.serverbound, d.content)

-- One packet adds at most itself to what the sockets of its container were given.
handle_packet-writes :
    (env : Env) (d : PacketData) (h : ℕ) (c : Container) (p : Spawner)
    → IsValid p
    → get_elem? p.containers h ≡ some c
    → Returns (handle_packet env d h p) (λ q. writes h q.log ≡ (
        if passes env d.content (packet_flags d.serverbound) h p
        then writes h p.log ++ marked d ∷ []
        else writes h p.log))
unfolding handle_packet
handle_packet-writes env d h c p v e =
    let (r, m, handled, kept) =
      handle_send_total env d.content (packet_flags d.serverbound) h c p v e in
    let quiet = handle_send-writes env d.content (packet_flags d.serverbound) h h c p r handled in
    let w =
      IsWritten-writes env d.serverbound d.content h c r.1 _
        (write_out-IsWritten env h c d.serverbound d.content r.1 (at-steady p r.1 h kept e)) in
    rw e (
      rw m (elim (Bool-cases (passes env d.content (packet_flags d.serverbound) h p)) [
        | inl on ↦ rw (handled.result ∙ on, on) (w ∙ ap (λ l. l ++ marked d ∷ []) quiet)
        | inr off ↦ rw (handled.result ∙ off, off) quiet
      ]))

-- The packets that are to go on, in order, with their directions.
abbrev pub kept : (PacketData → Bool) → List PacketData → List (Bool × Bytes)
kept judge [] = []
kept judge (d ∷ ds) = let rest = kept judge ds in if judge d then marked d ∷ rest else rest

module _ (n k : ℕ) (env : Env) (h : ℕ) (judge : PacketData → Bool) where
  -- Between two packets others take steps that write nothing to the sockets of the container, and what
  -- HandleSend is to say to a packet is `judge`.
  abbrev pub Relays : List ((Spawner → Spawner) × PacketData) → Spawner → Type 0
  Relays [] p = Unit {0}
  Relays ((m, d) ∷ ds) p =
      Reach (process n p) (process n (m p))
      × (h < length (m p).containers)
      × (writes h (m p).log ≡ writes h p.log)
      × (passes env d.content (packet_flags d.serverbound) h (m p) ≡ judge d)
      × elim (handle_packet env d h (m p)) as (λ _. Type 0) [
        | none ↦ Unit {0}
        | some q ↦ Relays ds q
      ]

  -- What the loop leaves: steps of the process, and the packets that were to go on.
  abbrev pub IsRelay : List PacketData → Spawner → Spawner → Type 0
  IsRelay ds p q =
      Reach (process n p) (process n q) × (writes h q.log ≡ writes h p.log ++ kept judge ds)

  kept-snoc :
      (d : PacketData) (ds : List PacketData) (l : List (Bool × Bytes))
      → (if judge d then l ++ marked d ∷ [] else l) ++ kept judge ds ≡ l ++ kept judge (d ∷ ds)
  kept-snoc d ds l = elim (Bool-cases (judge d)) [
    | inl e ↦ rw e (append_assoc l (marked d ∷ []) (kept judge ds))
    | inr e ↦ rw e refl
  ]

  -- However others interleave with the goroutine of a container of a running spawner, if they write
  -- nothing to its sockets themselves, the goroutine does not panic, and its sockets are to write, in the
  -- order in which they were taken, exactly the packets that the filter is to let pass.
  pub handle_packets-IsRelay :
      (ds : List ((Spawner → Spawner) × PacketData)) (p : Spawner)
      → IsRunning k (process n p)
      → Relays ds p
      → Returns (handle_packets env h ds p) (IsRelay (map (λ d. d.1) ds) p)
  unfolding handle_packets
  handle_packets-IsRelay [] p r f = (here, sym (append-nil (writes h p.log)))
  handle_packets-IsRelay ((m, d) ∷ ds) p r (a, l, w, j, f) =
      let r' = Reach-IsRunning r a in
      let (c, e) = get_elem?-some (m p).containers h l in
      let (q, s, x) =
        Returns-some _ (handle_packet env d h (m p))
          (handle_packet-writes env d h c (m p) r'.valid e) in
      let to_q = next a (receives env d h q l s refl) in
      let rest = handle_packets-IsRelay ds q (Reach-IsRunning r to_q) (rw s at f) in
      rw s (
        Returns-map (IsRelay (map (λ d. d.1) ds) q) _ _ rest (λ u _ b. (
          Reach-trans to_q b.0,
          b.1
              ∙ ap (λ z. z ++ kept judge (map (λ d. d.1) ds)) (rw j at x)
              ∙ kept-snoc d (map (λ d. d.1) ds) (writes h (m p).log)
              ∙ ap (λ z. z ++ kept judge (d ∷ map (λ d. d.1) ds)) w,
        )))
