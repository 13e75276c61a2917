-- ===== src/Proxy/Runs/Sends.antt =====
-- The sends of a connection as writes to addresses: proxy/tcp.go and proxy/udp.go.
use text.Mathlib.TextEquality.{eq_iff}
use ezproxy.Base.{
  ◌∙◌, ℕ, ◌≡◌, refl, sym, ap, Bool, true, false, not, ◌==◌, Option, List, [], ◌∷◌, ◌++◌,
  if◌then◌else◌, arith, Bool-cases, inl, inr,
}
use ezproxy.Errors.{Error}
use ezproxy.Handler.State.{Addr, Bytes, Env, Spawner}
use ezproxy.Handler.Process.{Reach}
use ezproxy.Handler.Process.Runs.{process}
use ezproxy.Handler.Process.Relay.{writes}
use ezproxy.Proxy.Net.{compare_net_addr}

-- What the sends of a connection do: the write, and its error.
abbrev pub Send : Type 0
Send = Bool → Bytes → (Addr × Bytes) × Option Error

-- The environment in which the proxy of container h sends like this.
abbrev pub through : ℕ → Send → Env → Env
through h send env = record env {
  send = λ l k sb bytes. if k == h then (send sb bytes).1 else env.send l k sb bytes;
}

-- What the sends write to an address, oldest first.
abbrev pub given : Send → Addr → List (Bool × Bytes) → List Bytes
given send a [] = []
given send a ((sb, bytes) ∷ l) =
    let rest = given send a l in
    if compare_net_addr (send sb bytes).0.0 a then (send sb bytes).0.1 ∷ rest else rest

-- What goes in one direction: to the server (true) or to the client.
abbrev pub toward : Bool → List (Bool × Bytes) → List Bytes
toward sb [] = []
toward sb ((b, bytes) ∷ l) =
    let rest = toward sb l in if (if sb then b else not b) then bytes ∷ rest else rest

pub toward-append :
    (sb : Bool) (l m : List (Bool × Bytes)) → toward sb (l ++ m) ≡ toward sb l ++ toward sb m
toward-append sb [] m = refl
toward-append sb ((b, bytes) ∷ l) m = ground (arith, toward-append sb l m)

pub compare_net_addr_self : (a : Addr) → compare_net_addr a a ≡ true
unfolding compare_net_addr
compare_net_addr_self a =
    rw ((eq_iff a.network a.network).1 refl, (eq_iff a.address a.address).1 refl) refl

compare_net_addr-eq :
    (a b : Addr) → compare_net_addr a b ≡ true → (a.network ≡ b.network) × (a.address ≡ b.address)
unfolding compare_net_addr
compare_net_addr-eq a b e =
    ((eq_iff a.network b.network).0 (ground arith), (eq_iff a.address b.address).0 (ground arith))

compare_net_addr_sym : (a b : Addr) → compare_net_addr a b ≡ false → compare_net_addr b a ≡ false
unfolding compare_net_addr
compare_net_addr_sym a b e = elim (Bool-cases (compare_net_addr b a)) [
  | inr f ↦ f
  | inl f ↦
      let (n, m) = compare_net_addr-eq b a f in
      let same : compare_net_addr a b ≡ true =
        rw ((eq_iff a.network b.network).1 (sym n), (eq_iff a.address b.address).1 (sym m)) refl in
      absurd (cc (e, same))
]

-- Each send of a connection writes what it is called with, to its own side.
abbrev pub IsAddressed : Send → Addr → Addr → Type 0
IsAddressed send client server =
    (bytes : Bytes)
    → ((send true bytes).0 ≡ (server, bytes)) × ((send false bytes).0 ≡ (client, bytes))

given-server :
    (send : Send) (client server : Addr) (l : List (Bool × Bytes))
    → IsAddressed send client server
    → compare_net_addr client server ≡ false
    → given send server l ≡ toward true l
given-server send client server [] a c = refl
given-server send client server ((true, bytes) ∷ l) a c =
    rw ((a bytes).0, compare_net_addr_self server)
      (ap (λ x. bytes ∷ x) (given-server send client server l a c))
given-server send client server ((false, bytes) ∷ l) a c =
    rw ((a bytes).1, c) (given-server send client server l a c)

given-client :
    (send : Send) (client server : Addr) (l : List (Bool × Bytes))
    → IsAddressed send client server
    → compare_net_addr client server ≡ false
    → given send client l ≡ toward false l
given-client send client server [] a c = refl
given-client send client server ((true, bytes) ∷ l) a c =
    rw ((a bytes).0, compare_net_addr_sym client server c) (given-client send client server l a c)
given-client send client server ((false, bytes) ∷ l) a c =
    rw ((a bytes).1, compare_net_addr_self client)
      (ap (λ x. bytes ∷ x) (given-client send client server l a c))

-- From p to q container h was to write these to the server and to the client.
abbrev pub Parts : ℕ → ℕ → List Bytes → List Bytes → Spawner → Spawner → Type 0
Parts n h xs ys p q =
    Reach (process n p) (process n q)
    × (toward true (writes h q.log) ≡ toward true (writes h p.log) ++ xs)
    × (toward false (writes h q.log) ≡ toward false (writes h p.log) ++ ys)

-- From p to q, by steps of the process, its sends wrote these to the addresses of the two.
abbrev pub Carries :
    ℕ → ℕ → Send → Addr → Addr → List Bytes → List Bytes → Spawner → Spawner → Type 0
Carries n h send client server xs ys p q =
    Reach (process n p) (process n q)
    × (given send server (writes h q.log) ≡ given send server (writes h p.log) ++ xs)
    × (given send client (writes h q.log) ≡ given send client (writes h p.log) ++ ys)

pub Parts-Carries :
    (n h : ℕ) (send : Send) (client server : Addr) (xs ys : List Bytes) (p q : Spawner)
    → IsAddressed send client server
    → compare_net_addr client server ≡ false
    → Parts n h xs ys p q
    → Carries n h send client server xs ys p q
Parts-Carries n h send client server xs ys p q a c (r, x, y) = (
  r,
  given-server send client server (writes h q.log) a c
      ∙ x
      ∙ ap (λ l. l ++ xs) (sym (given-server send client server (writes h p.log) a c)),
  given-client send client server (writes h q.log) a c
      ∙ y
      ∙ ap (λ l. l ++ ys) (sym (given-client send client server (writes h p.log) a c)),
)
