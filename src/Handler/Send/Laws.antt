-- ===== src/Handler/Send/Laws.antt =====
-- HandleSend on every branch, handler/spawner.go.
use ezproxy.Base.{
  ℕ, ◌+◌, ◌%◌, ◌≡◌, refl, sym, ap, Bool, true, false, not, ◌||◌, Option, none, some, List, ◌∷◌,
  if◌then◌else◌, length, arith, Returns, Returns-map, Returns->>=, Returns-eq, Returns-some, ◌∙◌,
  Bool-cases, Option-cases, inl, inr, get_elem?,
}
use ezproxy.Errors.{canceled}
use ezproxy.Context.{is_done}
use ezproxy.Context.Laws.{cancel_done}
use ezproxy.Handler.Flags.{is_injected}
use ezproxy.Handler.State.{Bytes, word, Packet, Container, Effect, filtered, Env, Spawner}
use ezproxy.Handler.Invariant.{IsValid}
use ezproxy.Handler.Invariant.Frame.{log-IsValid}
use ezproxy.Handler.Send.{packet_of, count_total, ask_filter, handle_send}
use ezproxy.Handler.Send.Delivery.{live_places, OffersEach, IsDelivery, deliver-Returns}

abbrev pub filter_alive : Spawner → Bool
filter_alive p = elim p.callback_ctx [ none ↦ false | some ctx ↦ not (is_done p.contexts ctx) ]

-- The filter that a packet is shown to.
abbrev pub active_filter : Spawner → Option ℕ
active_filter p = if filter_alive p then p.send_callback else none

-- Whether a packet goes on: nothing filters it, or the filter lets it, or it is injected.
abbrev pub passes : Env → Bytes → ℕ → ℕ → Spawner → Bool
passes env bytes flags h p = elim (active_filter p) [
  | none ↦ true
  | some cb ↦ env.answer p.log cb bytes flags h || is_injected flags
]

-- The log once the filter, if there is one, is asked.
abbrev pub asked : Bytes → ℕ → ℕ → Spawner → List Effect
asked bytes flags h p = elim (active_filter p) [
  | none ↦ p.log
  | some cb ↦ filtered cb bytes flags h ∷ p.log
]

-- A filter whose context is dead goes, and nothing else does.
abbrev filter_ctx_after : Spawner → Option ℕ
filter_ctx_after p = elim p.send_callback [
  | none ↦ p.callback_ctx
  | some cb ↦ if filter_alive p then p.callback_ctx else none
]

abbrev pub after_filter : Bytes → ℕ → ℕ → Spawner → Spawner
after_filter bytes flags h p = record p {
  callback_ctx = filter_ctx_after p;
  send_callback = active_filter p;
  log = asked bytes flags h p;
}

ask_filter_lem :
    (env : Env) (bytes : Bytes) (flags h : ℕ) (p : Spawner)
    → IsValid p
    → ask_filter env bytes flags h p
      ≡ some (passes env bytes flags h p, after_filter bytes flags h p)
unfolding ask_filter
ask_filter_lem env bytes flags h p v = elim (Option-cases p.callback_ctx) [
  | inl bare ↦ ground (arith, v.linked)
  | inr (ctx, made) ↦ ground (arith, v.linked, cancel_done p.contexts ctx canceled v.tree)
]

count_total-IsValid : (bytes : Bytes) (p : Spawner) → IsValid p → IsValid (count_total bytes p)
unfolding count_total
count_total-IsValid bytes p v = assumption v

-- What HandleSend does to a valid spawner.
pub record IsHandled (env : Env) (bytes : Bytes) (flags h : ℕ) (c : Container) (p : Spawner)
    (r : Bool × Spawner) : Type 0 where
  pub result : r.0 ≡ passes env bytes flags h p
  pub frame : r.1 ≡ record (after_filter bytes flags h (count_total bytes p)) { log = r.1.log }
  pub logged :
      if passes env bytes flags h p
      then OffersEach
          (packet_of bytes flags c p)
          (live_places p.contexts 0 p.rc_chan)
          (asked bytes flags h p)
          r.1.log
      else r.1.log ≡ asked bytes flags h p

-- In a valid spawner HandleSend of a packet of one of its containers does not panic. It counts the
-- packet, shows it to the filter if there is a live one, and takes off a dead one. It says no, and
-- puts the packet forward to nobody, exactly if the live filter refuses a packet that is not injected;
-- otherwise each live receiver is offered the packet once. Nothing else changes.
pub handle_send-IsHandled :
    (env : Env) (bytes : Bytes) (flags h : ℕ) (c : Container) (p : Spawner)
    → IsValid p
    → get_elem? p.containers h ≡ some c
    → Returns (handle_send env bytes flags h p) (IsHandled env bytes flags h c p)
unfolding handle_send
handle_send-IsHandled env bytes flags h c p v e = rw e (
    rw (ask_filter_lem env bytes flags h (count_total bytes p) (count_total-IsValid bytes p v))
      (elim (Bool-cases (passes env bytes flags h p)) [
        | inl on ↦ rw on (
            Returns->>= (IsDelivery pkt places q₀) _ _ _
              (deliver-Returns env pkt 0 p.rc_chan q₀ v.channels)
              λ q _ d. record { result = sym on; frame = d.0; logged = rw on d.1 })
        | inr off ↦ rw off (record { result = sym off; frame = refl; logged = rw off refl })
      ]))
  where
    pkt : Packet
    pkt = packet_of bytes flags c p

    places : List ℕ
    places = live_places p.contexts 0 p.rc_chan

    q₀ : Spawner
    q₀ = after_filter bytes flags h (count_total bytes p)

after_filter-IsValid :
    (bytes : Bytes) (flags h : ℕ) (p : Spawner) → IsValid p → IsValid (after_filter bytes flags h p)
after_filter-IsValid bytes flags h p v = record {
  tree = v.tree;
  rooted = v.rooted;
  fresh = v.fresh;
  located = v.located;
  distinct = v.distinct;
  linked = ground (arith, v.linked);
  filter_made = ground (arith, v.filter_made);
  housed = v.housed;
  channels = v.channels;
  counted = v.counted;
}

-- A valid spawner stays valid, with the same containers, contexts, connections, next id
-- and wait group.
pub record IsSteady (p q : Spawner) : Type 0 where
  pub valid : IsValid q
  pub stored : q.containers ≡ p.containers
  pub table : q.connections ≡ p.connections
  pub waits : q.wg ≡ p.wg
  pub settled : q.contexts ≡ p.contexts
  pub next : q.current_id ≡ p.current_id

-- HandleSend keeps the spawner valid, whatever the environment answers.
pub handle_send-IsSteady :
    (env : Env) (bytes : Bytes) (flags h : ℕ) (c : Container) (p : Spawner)
    → IsValid p
    → get_elem? p.containers h ≡ some c
    → Returns (handle_send env bytes flags h p) (λ r. IsSteady p r.1)
unfolding count_total
handle_send-IsSteady env bytes flags h c p v e =
    Returns-map (IsHandled env bytes flags h c p) _ _
      (handle_send-IsHandled env bytes flags h c p v e)
      λ r _ d. record {
        valid = rw d.frame (
            log-IsValid _ r.1.log (
              after_filter-IsValid bytes flags h (count_total bytes p)
                (count_total-IsValid bytes p v)));
        stored = ap (λ q. q.containers) d.frame;
        table = ap (λ q. q.connections) d.frame;
        waits = ap (λ q. q.wg) d.frame;
        settled = ap (λ q. q.contexts) d.frame;
        next = ap (λ q. q.current_id) d.frame;
      }

-- An injected packet always goes on: the filter sees it and cannot drop it.
pub handle_send-injected :
    (env : Env) (bytes : Bytes) (flags h : ℕ) (c : Container) (p : Spawner)
    → IsValid p
    → get_elem? p.containers h ≡ some c
    → is_injected flags ≡ true
    → Returns (handle_send env bytes flags h p) (λ r. r.0 ≡ true)
handle_send-injected env bytes flags h c p v e i =
    Returns-map (IsHandled env bytes flags h c p) _ _
      (handle_send-IsHandled env bytes flags h c p v e) λ r _ d. ground (arith, d.result)

-- All of the above of one result.
pub handle_send_total :
    (env : Env) (bytes : Bytes) (flags h : ℕ) (c : Container) (p : Spawner)
    → IsValid p
    → get_elem? p.containers h ≡ some c
    → (r : Bool × Spawner) × (handle_send env bytes flags h p ≡ some r)
      × IsHandled env bytes flags h c p r
      × IsSteady p r.1
handle_send_total env bytes flags h c p v e =
    let (r, m, d) =
      Returns-some (IsHandled env bytes flags h c p) _
        (handle_send-IsHandled env bytes flags h c p v e) in
    let kept = Returns-eq _ _ r (handle_send-IsSteady env bytes flags h c p v e) m in
    (r, m, d, kept)

pub handle_send_on :
    (env : Env) (bytes : Bytes) (flags h : ℕ) (c : Container) (p : Spawner)
    → IsValid p
    → get_elem? p.containers h ≡ some c
    → is_injected flags ≡ true
    → (q : Spawner) × (handle_send env bytes flags h p ≡ some (true, q)) × IsSteady p q
handle_send_on env bytes flags h c p v e i =
    let (r, m, d, kept) = handle_send_total env bytes flags h c p v e in
    let on : r.0 ≡ true = ground (arith, d.result) in (r.1, m ∙ ap (λ b. some (b, r.1)) on, kept)

-- A packet that a live filter refuses, and that is not injected, is dropped: no receiver gets it,
-- and nothing changes but that the filter was asked and the bytes are counted as sent.
pub handle_send-drop :
    (env : Env) (bytes : Bytes) (flags h : ℕ) (c : Container) (p : Spawner) (cb : ℕ)
    → IsValid p
    → get_elem? p.containers h ≡ some c
    → active_filter p ≡ some cb
    → env.answer p.log cb bytes flags h ≡ false
    → is_injected flags ≡ false
    → handle_send env bytes flags h p
      ≡ some (
        false,
        record p {
          total_sent = (p.total_sent + length bytes) % word;
          log = filtered cb bytes flags h ∷ p.log;
        },
      )
unfolding handle_send count_total
handle_send-drop env bytes flags h c p cb v e live no_ i =
    ground (
      arith,
      ask_filter_lem env bytes flags h (count_total bytes p) (count_total-IsValid bytes p v),
    )
