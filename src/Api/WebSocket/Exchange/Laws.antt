-- ===== src/Api/WebSocket/Exchange/Laws.antt =====
-- What handleRecvFilter returns in any interleaving: api/websocket.go and api/ws_client.go.
use ezproxy.Handler.Flags.{is_injected}
use ezproxy.Base.{
  not, ℕ, ◌≡◌, Bool, true, ◌⊎◌, Bool-cases, some, [], ◌∷◌, arith, All, All-map, inl, inr,
  Option-cases,
}
use ezproxy.Base.Maps.{lookup}
use ezproxy.Handler.State.{Bytes, Container, Spawner}
use ezproxy.Api.WebSocket.{
  is_allow, handle_recv_filter, matches_network_filter, Socket, ended, timed_out, updated,
  await_verdict,
}
use ezproxy.Api.WebSocket.Exchange.{
  Exchange, Step, arrives, passes, acts, wakes, settles, gives_up, closes, Reach, here, next,
  opening,
}
use ezproxy.Api.WebSocket.Exchange.Growth.{
  IsNumbered, Follows, IsTold, IsTold-Follows, Follows-refl, send_pkt-Follows,
  handle_recv_filter-Follows, await_verdict-Follows, handle_client_action-Follows,
}

-- What is returned for a packet that does not wait: the default action, or true if it is injected.
abbrev pub IsPassed : Socket → ℕ × Bool → Type 0
IsPassed w (flags, b) = (b ≡ is_allow w.default_action) ⊎ ((is_injected flags ≡ true) × (b ≡ true))

IsPassed-Follows : (w w' : Socket) (d : ℕ × Bool) → Follows w w' → IsPassed w d → IsPassed w' d
IsPassed-Follows w w' d f (inl e) = inl (ground (arith, f.default))
IsPassed-Follows w w' d f (inr e) = inr e

handle_recv_filter-IsPassed :
    (fails : Bool) (bytes : Bytes) (flags : ℕ) (c : Container) (p : Spawner) (b : Bool)
    (w w' : Socket)
    → handle_recv_filter fails [] bytes flags c p w ≡ some (b, w')
    → IsPassed w (flags, b)
unfolding handle_recv_filter await_verdict
handle_recv_filter-IsPassed fails bytes flags c p b w w' e = elim (Bool-cases (is_injected flags)) [
  | inl i ↦ elim (Bool-cases (not (matches_network_filter w c))) [
    | inl m ↦ inl (ground arith)
    | inr m ↦ elim (Bool-cases fails) [ inl f ↦ inl (ground arith) | inr f ↦ inr (i, ground arith) ]
  ]
  | inr i ↦ inl (ground arith)
]

-- What holds of an exchange in any interleaving.
pub record IsSound (t : Exchange) : Type 0 where
  pub numbered : IsNumbered t.socket
  pub told : All (IsTold t.socket) t.decided
  pub let_by : All (IsPassed t.socket) t.passed

verdict-IsTold :
    (n : ℕ) (b : Bool) (w w' : Socket)
    → await_verdict n (updated w.filter_map ∷ []) w ≡ some (b, w')
    → IsTold w (n, b)
unfolding await_verdict
verdict-IsTold n b w w' e = elim (Option-cases (lookup n w.filter_map)) [
  | inl m ↦ absurd (ground arith)
  | inr (v, m) ↦ inl (v, m, (λ f. absurd (ground arith)), ground arith)
]

-- A step never takes back a number or a verdict.
pub Step-Follows : {t u : Exchange} → IsSound t → Step t u → Follows t.socket u.socket
Step-Follows {t} s (arrives bytes flags c p a0 l a e) =
    rw e (send_pkt-Follows bytes flags c p t.socket l s.numbered)
Step-Follows {t} s (passes fails bytes flags c p b w a0 l a e) =
    rw e (handle_recv_filter-Follows fails bytes flags c p b t.socket w l s.numbered a)
Step-Follows {t} s (acts env m p q w f a e) =
    rw e (handle_client_action-Follows env m p q t.socket w s.numbered a)
Step-Follows {t} s (wakes n f i a e) = rw e (Follows-refl t.socket s.numbered)
Step-Follows {t} s (settles n b w f i a e) =
    rw e (await_verdict-Follows n (updated t.socket.filter_map) b t.socket w s.numbered a)
Step-Follows {t} s (gives_up n b w i a e) =
    rw e (await_verdict-Follows n timed_out b t.socket w s.numbered a)
Step-Follows {t} s (closes n b w i a e) =
    rw e (await_verdict-Follows n ended b t.socket w s.numbered a)

-- The decisions that a step adds are told.
Step-told : {t u : Exchange} → IsSound t → Step t u → All (IsTold t.socket) u.decided
unfolding await_verdict
Step-told s (arrives bytes flags c p a0 l a e) = rw e s.told
Step-told s (passes fails bytes flags c p b w a0 l a e) = rw e s.told
Step-told s (acts env m p q w f a e) = rw e s.told
Step-told s (wakes n f i a e) = rw e s.told
Step-told {t} s (settles n b w f i a e) = rw e (verdict-IsTold n b t.socket w a, s.told)
Step-told {t} s (gives_up n b w i a e) = rw e (inr (ground arith), s.told)
Step-told {t} s (closes n b w i a e) = rw e (inr (ground arith), s.told)

-- What a step lets by.
Step-let_by : {t u : Exchange} → IsSound t → Step t u → All (IsPassed t.socket) u.passed
Step-let_by s (arrives bytes flags c p a0 l a e) = rw e s.let_by
Step-let_by {t} s (passes fails bytes flags c p b w a0 l a e) =
    rw e (handle_recv_filter-IsPassed fails bytes flags c p b t.socket w a, s.let_by)
Step-let_by s (acts env m p q w f a e) = rw e s.let_by
Step-let_by s (wakes n f i a e) = rw e s.let_by
Step-let_by s (settles n b w f i a e) = rw e s.let_by
Step-let_by s (gives_up n b w i a e) = rw e s.let_by
Step-let_by s (closes n b w i a e) = rw e s.let_by

pub Step-IsSound : {t u : Exchange} → IsSound t → Step t u → IsSound u
Step-IsSound {t} {u} s x =
    let f = Step-Follows s x in
    record {
      numbered = f.numbered;
      told = All-map _ _ u.decided (λ d k. IsTold-Follows t.socket u.socket d f k) (Step-told s x);
      let_by =
          All-map _ _ u.passed (λ d k. IsPassed-Follows t.socket u.socket d f k) (Step-let_by s x);
    }

Reach-IsSound : {t u : Exchange} → IsSound t → Reach t u → IsSound u
Reach-IsSound s here = s
Reach-IsSound s (next r x) = Step-IsSound (Reach-IsSound s r) x

-- However the goroutines of a WebSocket that filters interleave, once Accept has returned and as
-- long as its packets are fewer than 2^64, handleRecvFilter returns for each packet that comes to
-- wait either what the client's verdict on that very packet says, which is final, or the default
-- action, and for each other packet the default action, or true if the packet is injected.
pub Reach-IsTold :
    (w : Socket) (u : Exchange)
    → w.filter_map ≡ []
    → Reach (opening w) u
    → All (IsTold u.socket) u.decided × All (IsPassed u.socket) u.passed
unfolding lookup
Reach-IsTold w u e r =
    let begun : IsSound (opening w) = record {
      numbered = λ n v h. absurd (ground arith);
      told = tt;
      let_by = tt;
    } in
    let sound = Reach-IsSound begun r in (sound.told, sound.let_by)
