-- ===== src/Handler/Send/Delivery.antt =====
-- What the loop over the receivers does, in handler/spawner.go.
use ezproxy.Base.{
  ℕ, ◌+◌, ◌≡◌, refl, List, [], ◌∷◌, if◌then◌else◌, All, arith, Returns, Returns-map, Bool-cases,
  ◌⊎◌, inl, inr,
}
use ezproxy.Context.{Contexts, is_done}
use ezproxy.Handler.State.{Packet, RecvChan, Effect, delivered, missed, Env, Spawner, emit}
use ezproxy.Handler.Invariant.{IsChannel}
use ezproxy.Handler.Send.{offer, deliver}

-- The receivers whose context is alive, by their places.
abbrev pub live_places : Contexts → ℕ → List RecvChan → List ℕ
live_places s i [] = []
live_places s i (v ∷ vs) =
    if is_done s v.ctx then live_places s (i + 1) vs else i ∷ live_places s (i + 1) vs

-- The packet is put forward at a place, and taken there or not.
abbrev pub IsOffer : Packet → ℕ → Effect → Type 0
IsOffer pkt i x = (x ≡ delivered i pkt) ⊎ (x ≡ missed i pkt)

-- The log `new` grew from `old` by one offer of the packet to each place, in this order.
abbrev pub OffersEach : Packet → List ℕ → List Effect → List Effect → Type 0
OffersEach pkt [] old new = new ≡ old
OffersEach pkt (i ∷ is) old new = (x : Effect) × IsOffer pkt i x × OffersEach pkt is (x ∷ old) new

-- Only the log changes, by one offer to each place.
abbrev pub IsDelivery : Packet → List ℕ → Spawner → Spawner → Type 0
IsDelivery pkt is p q = (q ≡ record p { log = q.log }) × OffersEach pkt is p.log q.log

abbrev attempt : Env → Packet → ℕ → List Effect → Effect
attempt env pkt i l = if env.receives l i then delivered i pkt else missed i pkt

IsOffer-attempt :
    (env : Env) (pkt : Packet) (i : ℕ) (l : List Effect) → IsOffer pkt i (attempt env pkt i l)
IsOffer-attempt env pkt i l = ground arith

-- Every receiver with a live context gets one offer of the packet, no other does, and nothing but
-- the log changes; no send on a closed channel panics.
pub deliver-Returns :
    (env : Env) (pkt : Packet) (i : ℕ) (vs : List RecvChan) (p : Spawner)
    → All (IsChannel p.contexts) vs
    → Returns (deliver env pkt i vs p) (IsDelivery pkt (live_places p.contexts i vs) p)
unfolding deliver offer
deliver-Returns env pkt i [] p h = (refl, refl)
deliver-Returns env pkt i (v ∷ vs) p h = elim (Bool-cases (is_done p.contexts v.ctx)) [
  | inl dead ↦ rw dead (deliver-Returns env pkt (i + 1) vs p h.1)
  | inr live ↦ elim (Bool-cases v.closed) [
    | inl shut ↦ absurd (cc (h.0.1 shut))
    | inr open_ ↦
        rw (live, open_)
          (Returns-map (IsDelivery pkt rest (emit x p)) (IsDelivery pkt (i ∷ rest) p) _
            (deliver-Returns env pkt (i + 1) vs (emit x p) h.1)
            λ q _ d. (d.0, (x, IsOffer-attempt env pkt i p.log, d.1)))
  ]
]
  where
    rest : List ℕ
    rest = live_places p.contexts (i + 1) vs

    x : Effect
    x = attempt env pkt i p.log
