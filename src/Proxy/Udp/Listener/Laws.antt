-- ===== src/Proxy/Udp/Listener/Laws.antt =====
-- UdpListener has one client at a time, proxy/udp.go.
use Prim.Native.String.{String}
use ezproxy.Base.{
  ℕ, ◌+◌, ◌<◌, ◌≡◌, refl, sym, ap, ◌∙◌, true, false, Option, none, some, List, [], ◌∷◌, ◌++◌, All,
  All-map, All-zip, All-append, arith, inl, inr, length, get_elem?, get_elem?-append_left,
  Bool-cases, Option-cases,
}
use ezproxy.Base.Maps.{lookup, insert, insert_fresh, lookup_above}
use ezproxy.Errors.{Error, formatted}
use ezproxy.Context.{is_done}
use ezproxy.Handler.State.{word, Addr, Proxy, Container, Env, Spawner}
use ezproxy.Handler.Invariant.{IsValid, IsMap, id_at}
use ezproxy.Handler.Invariant.Frame.{id_at-stored, cancel-Grows}
use ezproxy.Handler.Container.{is_alive, new_proxy_container}
use ezproxy.Handler.Connections.{add_connection, get_proxy, register}
use ezproxy.Handler.Connections.Adding.{
  made, newcomer, failed, add_connection_dead, add_connection-failed, add_connection-made,
  handle_error-keeps, id_at-append_last,
}
use ezproxy.Handler.Life.Ageing.{Ages, Ages-refl, is_alive-Ages}
use ezproxy.Handler.Life.Births.{made-Ages, failed-Ages}
use ezproxy.Proxy.Net.{compare_net_addr, Datagram, arrived, unread}
use ezproxy.Proxy.Udp.Listener.{fail, Turn, Next, stop, go, is_current, added, receive, turn_of}

abbrev network_at : List Container → ℕ → Option String
network_at cs h = elim (get_elem? cs h) [ none ↦ none | some c ↦ some c.px.network ]

-- A live UDP connection is the one with the id.
abbrev pub IsOwn : Option ℕ → Spawner → ℕ × ℕ → Type 0
IsOwn id p e = is_alive p e.1 ≡ true → network_at p.containers e.1 ≡ some "udp" → id ≡ some e.0

-- There is no live UDP connection but the one with the id.
abbrev pub IsSole : Option ℕ → Spawner → Type 0
IsSole id p = All (IsOwn id p) p.connections

network_at-append :
    (cs : List Container) (d : Container) (h k : ℕ)
    → id_at cs h ≡ some k
    → network_at (cs ++ d ∷ []) h ≡ network_at cs h
network_at-append cs d h k e =
    ap (λ o. elim o [ none ↦ none | some c ↦ some c.px.network ])
      (get_elem?-append_left cs (d ∷ []) h (id_at-stored cs h k e))

-- A state that has aged, with the same table.
aged-IsSole :
    (p q : Spawner) (px : Proxy)
    → IsValid p
    → Ages p q
    → q.containers ≡ p.containers ++ newcomer px p.current_id p ∷ []
    → IsSole none p
    → All (IsOwn none q) p.connections
aged-IsSole p q px v a c s =
    All-map _ _ p.connections
      (λ e k alive n.
        let l = id_at-stored p.containers e.1 e.0 k.0 in
        k.1 (is_alive-Ages p q e.1 a l alive) (
          sym (network_at-append p.containers (newcomer px p.current_id p) e.1 e.0 k.0)
          ∙ sym (ap (λ cs. network_at cs e.1) c)
          ∙ n))
      (All-zip _ _ p.connections v.located s)

-- There is no live UDP connection but the one that the next turn knows of; none at the end.
abbrev pub IsSoleNext : Next → Type 0
IsSoleNext (stop q) = IsSole none q
IsSoleNext (go id q) = IsSole id q

registered-IsSole :
    (px : Proxy) (p : Spawner)
    → IsValid p
    → IsSole none p
    → IsSole (some p.current_id) (register (length p.containers) (made px p.current_id p))
unfolding register insert is_alive
registered-IsSole px p v s =
    let h = length p.containers in
    let grown = insert_fresh p.current_id h p.connections (lookup_above p.current_id _ v.fresh) in
    let a = made-Ages p.current_id px p in
    let old =
      aged-IsSole p (register h (made px p.current_id p)) px v
        (unfold register in record { grown = a.grown; same = a.same }) (unfold register in refl)
        s in
    rw grown (
      All-append _ p.connections _
        (All-map _ _ p.connections (λ e k alive n. absurd (cc (k alive n))) old)
        (λ alive n. refl, tt))

added-IsSole :
    (env : Env) (px : Proxy) (p : Spawner)
    → IsValid p
    → p.current_id + 1 < word
    → IsSole none p
    → IsSoleNext (added (add_connection (new_proxy_container env) px p))
unfolding added register
added-IsSole env px p v l s = elim (Bool-cases (is_done p.contexts p.context)) [
  | inl e ↦ rw (add_connection_dead env px p e) s
  | inr live ↦ elim (Option-cases (env.init p.log px)) [
    | inr (x, e) ↦
        let a = failed-Ages px x p v in
        rw (add_connection-failed env px p x live e) (
          rw (handle_error-keeps x none (failed px x p))
            (aged-IsSole p _ px v (record { grown = a.grown; same = a.same }) refl s))
    | inl e ↦
        rw
          (
            add_connection-made env px p live e,
            id_at-append_last p.containers (newcomer px p.current_id p),
          )
          (registered-IsSole px p v s)
  ]
]

-- In a map, the entries are what lookup finds.
All-lookup : (m : List (ℕ × ℕ)) → IsMap m → All (λ e. lookup e.0 m ≡ some e.1) m
unfolding lookup
All-lookup [] d = tt
All-lookup ((k, h) ∷ m) d =
    (ground arith, All-map _ _ m (λ e f. ground (arith, d.0)) (All-lookup m d.1))

-- The connection with the id is gone or dead: no UDP connection is alive.
gone-IsSole :
    (id : ℕ) (p : Spawner)
    → IsValid p
    → is_current id p ≡ false
    → IsSole (some id) p
    → IsSole none p
unfolding is_current get_proxy
gone-IsSole id p v c s =
    All-map _ _ p.connections (λ e k alive n. absurd (dead_too e k alive n))
      (All-zip _ _ p.connections (All-lookup p.connections v.distinct) s)
  where
    dead_too :
        (e : ℕ × ℕ)
        → (lookup e.0 p.connections ≡ some e.1) × IsOwn (some id) p e
        → is_alive p e.1 ≡ true
        → network_at p.containers e.1 ≡ some "udp"
        → ⊥
    dead_too e k alive n =
        let same : id ≡ e.0 = ground (arith, k.1 alive n) in
        let f : lookup id p.connections ≡ some e.1 = ap (λ x. lookup x p.connections) same ∙ k.0 in
        ground arith

receive-IsSole :
    (env : Env) (server : Addr) (d : Datagram) (p : Spawner)
    → IsValid p
    → p.current_id + 1 < word
    → IsSole none p
    → IsSoleNext (receive env server d p)
unfolding receive
receive-IsSole env server (unread e) p v l s = s
receive-IsSole env server (arrived bytes from) p v l s =
    elim (Bool-cases (compare_net_addr server from)) [
      | inl e ↦ rw e s
      | inr e ↦ rw e (added-IsSole env _ p v l s)
    ]

fail-IsSole :
    (ctx : ℕ) (e : Error) (p : Spawner) → IsValid p → IsSole none p → IsSole none (fail ctx e p)
unfolding fail is_alive
fail-IsSole ctx e p v s =
    let a : Ages p (fail ctx e p) =
      Ages-refl p _ (cancel-Grows p.contexts ctx (formatted e) v.tree) refl in
    All-map _ _ p.connections
      (λ x k alive n.
        k.1 (is_alive-Ages p (fail ctx e p) x.1 a (id_at-stored p.containers x.1 x.0 k.0) alive) n)
      (All-zip _ _ p.connections v.located s)

-- UdpListener serves one client at a time: if, before a turn of its loop, no UDP connection of a valid
-- spawner that has an id left is alive but the one whose id it keeps, then so after the turn, whatever
-- was read and however the calls went; after a turn that ends the loop none is alive.
pub turn_of-IsSole :
    (env : Env) (server : Addr) (ctx : ℕ) (t : Turn) (id : Option ℕ) (p : Spawner)
    → IsValid p
    → p.current_id + 1 < word
    → IsSole id p
    → IsSoleNext (turn_of env server ctx t id p)
unfolding turn_of
turn_of-IsSole env server ctx t none p v l s = receive-IsSole env server t.read p v l s
turn_of-IsSole env server ctx t (some id) p v l s = elim (Bool-cases (is_current id p)) [
  | inl c ↦ rw c s
  | inr c ↦ rw c (elim (Option-cases t.relisten) [
    | inr (e, f) ↦ rw f (fail-IsSole ctx e p v (gone-IsSole id p v c s))
    | inl f ↦ rw f (receive-IsSole env server t.read p v l (gone-IsSole id p v c s))
  ])
]
