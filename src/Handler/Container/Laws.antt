-- ===== src/Handler/Container/Laws.antt =====
-- The sends of a container, SendToClient and SendToServer in handler/proxy.go.
use ezproxy.Base.{
  ℕ, ◌+◌, ◌%◌, ◌<◌, ◌≡◌, refl, sym, ap, ◌∙◌, Bool, true, false, Option, none, some, ◌∷◌,
  if◌then◌else◌, length, arith, Returns, ◌>>=◌, Option-cases, inl, inr, get_elem?, length-set,
  get_elem?-set_self, get_elem?-lt, get_elem?-some,
}
use ezproxy.Errors.{Error}
use ezproxy.Context.{cause_of}
use ezproxy.Handler.Flags.{is_injected}
use ezproxy.Handler.State.{Bytes, word, Container, wrote, reported, Env, Spawner, emit}
use ezproxy.Handler.Invariant.{IsValid}
use ezproxy.Handler.Invariant.Frame.{log-IsValid, Grows-refl}
use ezproxy.Handler.Life.Ageing.{Ages, Ages-refl, Ages-trans, count_sent-Ages}
use ezproxy.Handler.Send.{handle_send, handle_error}
use ezproxy.Handler.Send.Laws.{IsSteady, handle_send_on}
use ezproxy.Handler.Container.{count_sent, write_out, injection_flags, send_to}
use ezproxy.Handler.Container.Store.{count_sent-IsValid, handle_error-IsValid}

-- A valid spawner stays valid, with as many containers, and the same connections and wait group.
pub record IsKept (p q : Spawner) : Type 0 where
  pub valid : IsValid q
  pub stored : length q.containers ≡ length p.containers
  pub table : q.connections ≡ p.connections
  pub waits : q.wg ≡ p.wg
  pub ages : Ages p q
  pub next : q.current_id ≡ p.current_id

pub IsKept-refl : (p : Spawner) → IsValid p → IsKept p p
IsKept-refl p v = record {
  valid = v;
  stored = refl;
  table = refl;
  waits = refl;
  next = refl;
  ages = Ages-refl p p (Grows-refl p.contexts) refl;
}

pub IsKept-steady : (p q r : Spawner) → IsSteady p q → IsKept q r → IsKept p r
IsKept-steady p q r s k = record {
  valid = k.valid;
  stored = k.stored ∙ ap length s.stored;
  table = k.table ∙ s.table;
  waits = k.waits ∙ s.waits;
  ages =
      Ages-trans p q r (Ages-refl p q (rw s.settled (Grows-refl p.contexts)) s.stored) k.ages
        (sym (ap length s.stored));
  next = k.next ∙ s.next;
}

handle_error-contexts :
    (e : Error) (pc : Option ℕ) (p : Spawner) → (handle_error e pc p).contexts ≡ p.contexts
unfolding handle_error
handle_error-contexts e pc p = ground arith

pub write_out-IsKept :
    (env : Env) (h : ℕ) (c : Container) (sb : Bool) (bytes : Bytes) (p : Spawner)
    → IsValid p
    → get_elem? p.containers h ≡ some c
    → IsKept p (write_out env h c sb bytes p).1
unfolding write_out
write_out-IsKept env h c sb bytes p v e = elim (Option-cases (env.send p.log h sb bytes)) [
  | inl sent ↦
      rw (sent, write_out)
        (record {
          valid =
              count_sent-IsValid env h bytes c (emit (wrote h sb bytes) p) (log-IsValid p _ v) e;
          stored = unfold count_sent in length-set p.containers h _;
          table = unfold count_sent in refl;
          waits = unfold count_sent in refl;
          ages =
              let a = count_sent-Ages env h bytes c (emit (wrote h sb bytes) p) e in
              record { grown = a.grown; same = a.same };
          next = unfold count_sent in refl;
        })
  | inr (x, failed) ↦
      rw (failed, write_out)
        (record {
          valid = handle_error-IsValid x (some h) _ (log-IsValid p _ v);
          stored = unfold handle_error in ground arith;
          table = unfold handle_error in ground arith;
          waits = unfold handle_error in ground arith;
          ages =
              Ages-refl p _
                (rw (handle_error-contexts x (some h) (emit (wrote h sb bytes) p))
                  (Grows-refl p.contexts))
                (unfold handle_error in ground arith);
          next = unfold handle_error in ground arith;
        })
]

pub at-steady :
    (p q : Spawner) (h : ℕ) {c : Container}
    → IsSteady p q
    → get_elem? p.containers h ≡ some c
    → get_elem? q.containers h ≡ some c
at-steady p q h s e = ap (λ cs. get_elem? cs h) s.stored ∙ e

-- What a write to the socket leaves: the error of the socket, if any, is the result and is handed to
-- the error callback; only a write without one counts its bytes and its time.
pub record IsWritten (env : Env) (sb : Bool) (bytes : Bytes) (h : ℕ) (c : Container) (q : Spawner)
    (r : Option Error × Spawner) : Type 0 where
  pub result : r.0 ≡ env.send q.log h sb bytes
  pub stats : get_elem? r.1.containers h ≡ elim r.0 [
    | some e ↦ some c
    | none ↦ some (record c {
      last_contact = env.now (wrote h sb bytes ∷ q.log);
      bytes_sent = (c.bytes_sent + length bytes) % word;
    })
  ]
  pub logged : r.1.log ≡ elim r.0 [
    | none ↦ wrote h sb bytes ∷ q.log
    | some e ↦ elim q.error_callback [
      | none ↦ wrote h sb bytes ∷ q.log
      | some cb ↦ reported cb e (some h) ∷ wrote h sb bytes ∷ q.log
    ]
  ]

pub write_out-IsWritten :
    (env : Env) (h : ℕ) (c : Container) (sb : Bool) (bytes : Bytes) (p : Spawner)
    → get_elem? p.containers h ≡ some c
    → IsWritten env sb bytes h c p (write_out env h c sb bytes p)
unfolding write_out handle_error
write_out-IsWritten env h c sb bytes p e = elim (Option-cases (env.send p.log h sb bytes)) [
  | inl sent ↦
      rw (sent, write_out)
        (record {
          result = sym sent;
          stats = get_elem?-set_self p.containers h _ (get_elem?-lt p.containers h e);
          logged = refl;
        })
  | inr (x, failed) ↦
      rw (failed, write_out)
        (record { result = sym failed; stats = ground (arith, e); logged = ground arith })
]

-- A send through a container whose context is dead returns the cause and does nothing.
pub send_to_dead :
    (sb : Bool) (env : Env) (bytes : Bytes) (h : ℕ) (c : Container) (p : Spawner) (cause : Error)
    → get_elem? p.containers h ≡ some c
    → cause_of p.contexts c.ctx ≡ some cause
    → send_to sb env bytes h p ≡ some (some cause, p)
unfolding send_to
send_to_dead sb env bytes h c p cause e d = ground arith

injection_flags-IsInjected : (sb : Bool) → is_injected (injection_flags sb) ≡ true
unfolding is_injected
injection_flags-IsInjected true = refl
injection_flags-IsInjected false = refl

-- What a send through a live container comes to.
abbrev live_send : Bool → Env → Bytes → ℕ → Container → Spawner → Option (Option Error × Spawner)
live_send sb env bytes h c p = handle_send env bytes (injection_flags sb) h p >>= λ r.
    if r.0 then some (write_out env h c sb bytes r.1) else some (none, r.1)

send_to_live :
    (sb : Bool) (env : Env) (bytes : Bytes) (h : ℕ) (c : Container) (p : Spawner)
    → get_elem? p.containers h ≡ some c
    → cause_of p.contexts c.ctx ≡ none
    → send_to sb env bytes h p ≡ live_send sb env bytes h c p
unfolding send_to
send_to_live sb env bytes h c p e live = ground arith

-- In a valid spawner a send through a live container always reaches the socket, whatever the filter
-- says: HandleSend returns true, and the write follows.
pub send_to-IsWritten :
    (sb : Bool) (env : Env) (bytes : Bytes) (h : ℕ) (c : Container) (p : Spawner)
    → IsValid p
    → get_elem? p.containers h ≡ some c
    → cause_of p.contexts c.ctx ≡ none
    → Returns (send_to sb env bytes h p) (λ r.
      (q : Spawner) × (handle_send env bytes (injection_flags sb) h p ≡ some (true, q))
      × IsWritten env sb bytes h c q r)
send_to-IsWritten sb env bytes h c p v e live =
    let (q, m, kept) =
      handle_send_on env bytes (injection_flags sb) h c p v e (injection_flags-IsInjected sb) in
    rw (send_to_live sb env bytes h c p e live)
      (rw m (q, refl, write_out-IsWritten env h c sb bytes q (at-steady p q h kept e)))

send_to-IsKept_at :
    (sb : Bool) (env : Env) (bytes : Bytes) (h : ℕ) (c : Container) (p : Spawner)
    → IsValid p
    → get_elem? p.containers h ≡ some c
    → Returns (send_to sb env bytes h p) (λ r. IsKept p r.1)
send_to-IsKept_at sb env bytes h c p v e = elim (Option-cases (cause_of p.contexts c.ctx)) [
  | inr (cause, dead) ↦ rw (send_to_dead sb env bytes h c p cause e dead) (IsKept-refl p v)
  | inl live ↦
      let (q, m, kept) =
        handle_send_on env bytes (injection_flags sb) h c p v e (injection_flags-IsInjected sb) in
      let w = write_out-IsKept env h c sb bytes q kept.valid (at-steady p q h kept e) in
      rw (send_to_live sb env bytes h c p e live)
        (rw m (IsKept-steady p q (write_out env h c sb bytes q).1 kept w))
]

-- A send through any container keeps the spawner valid, and does not panic.
pub send_to-IsKept :
    (sb : Bool) (env : Env) (bytes : Bytes) (h : ℕ) (p : Spawner)
    → IsValid p
    → h < length p.containers
    → Returns (send_to sb env bytes h p) (λ r. IsKept p r.1)
send_to-IsKept sb env bytes h p v l =
    let (c, e) = get_elem?-some p.containers h l in send_to-IsKept_at sb env bytes h c p v e
