-- ===== src/Handler/Lifecycle.antt =====
-- The rest of ProxySpawner, handler/spawner.go: how it is made and closed, its callbacks, its
-- receivers and its counters.
pub mod Laws
pub mod Closing
use ezproxy.Base.{
  ℕ, Bool, true, false, not, Option, none, some, List, [], ◌∷◌, ◌++◌, ◌==◌, if◌then◌else◌, ◌&&◌,
  ◌>>=◌,
}
use text.Mathlib.Text.{◌==◌ as str_eq}
use ezproxy.Errors.{
  Error, canceled, spawner_closed_ok, callback_exists, close_timeout, no_listeners, same_addresses,
  Result, ok, err,
}
use ezproxy.Context.{Contexts, cause_of, is_done, with_cancel, cancel}
use ezproxy.Handler.State.{Addr, RecvChan, Spawner}
use ezproxy.Handler.Listener.{Listener, cancel_spawner}
use ezproxy.Handler.Pruner.{start_pruner}

-- The filter of a context that has died is taken off.
unfoldable pub free_filter : ℕ → Spawner → Spawner
free_filter ctx p = record p {
  contexts = cancel p.contexts ctx canceled;
  callback_ctx = none;
  send_callback = none;
}

unfoldable pub set_filter : Option ℕ → ℕ → Spawner → Spawner
set_filter cb ctx p =
    let (contexts, own) = with_cancel p.contexts ctx in
    record p { contexts = contexts; callback_ctx = some own; send_callback = cb }

unfoldable pub try_set_filter_callback : Option ℕ → ℕ → Spawner → Option Error × Spawner
unfolding free_filter set_filter
try_set_filter_callback cb ctx p = elim p.callback_ctx [
  | none ↦ (none, set_filter cb ctx p)
  | some old ↦
      if is_done p.contexts old
      then (none, set_filter cb ctx (free_filter old p))
      else (some callback_exists, p)
]

unfoldable pub set_error_callback : Option ℕ → Spawner → Spawner
set_error_callback cb p = record p { error_callback = cb }

-- The new receiver stands last; the context is the one that its cancel function cancels.
unfoldable pub get_recv_chan : ℕ → Spawner → ℕ × Spawner
get_recv_chan ctx p =
    let (contexts, own) = with_cancel p.contexts ctx in
    let v : RecvChan = record { ctx = own; closed = false } in
    (own, record p { contexts = contexts; rc_chan = p.rc_chan ++ v ∷ [] })

unfoldable pub get_context : Spawner → ℕ
get_context p = p.context

unfoldable pub get_proxy_addr : Spawner → Addr
get_proxy_addr p = p.proxy_addr

unfoldable pub get_server_addr : Spawner → Addr
get_server_addr p = p.server_addr

unfoldable pub get_bytes_sent : Spawner → ℕ
get_bytes_sent p = p.total_sent

unfoldable pub is_alive : Spawner → Bool
is_alive p = not (is_done p.contexts p.context)

-- for _, v := range p.rcChan { v.cancel(); close(v.Recv) }. A second close panics.
unfoldable pub close_channels : Contexts → List RecvChan → Option (Contexts × List RecvChan)
close_channels s [] = some (s, [])
close_channels s (v ∷ vs) =
    if v.closed
    then none
    else (close_channels (cancel s v.ctx canceled) vs >>= λ r.
        some (r.0, record v { closed = true } ∷ r.1))

-- Close as far as the select.
unfoldable pub begin_close : Spawner → Option Spawner
unfolding close_channels cancel_spawner
begin_close p = close_channels p.contexts p.rc_chan >>= λ r.
    some (cancel_spawner spawner_closed_ok (record p { contexts = r.0; rc_chan = r.1 }))

-- The select: p.wg.Wait() returns when the counter is 0, or the second is over.
unfoldable pub end_close : Spawner → Option Error
end_close p = if p.wg == 0 then none else some close_timeout

abbrev same_addr : Addr → Addr → Bool
same_addr a b = str_eq a.network b.network && str_eq a.address b.address

unfoldable pub fresh_spawner : Addr → Addr → ℕ → Contexts → Spawner
fresh_spawner server proxy ctx s =
    let (contexts, own) = with_cancel s ctx in
    record {
      current_id = 0;
      connections = [];
      total_sent = 0;
      server_addr = server;
      proxy_addr = proxy;
      context = own;
      wg = 0;
      send_callback = none;
      error_callback = none;
      rc_chan = [];
      callback_ctx = none;
      containers = [];
      contexts = contexts;
      log = [];
    }

-- What NewProxySpawnerWithContainer does once its listeners are started: they may have cancelled
-- the spawner already. The goroutine of the pruner, which is started last, adds itself to the wait group
-- at some later time.
unfoldable pub check_started : Spawner → Result Spawner
check_started p = elim (cause_of p.contexts p.context) [ some cause ↦ err cause | none ↦ ok p ]

-- NewProxySpawnerWithContainer. `meanwhile` is what the listeners' goroutines do before the check.
unfoldable pub new_proxy_spawner :
    Addr → Addr → ℕ → Contexts → List Listener → (Spawner → Spawner) → Result Spawner
unfolding fresh_spawner check_started
new_proxy_spawner server proxy ctx s [] meanwhile = err no_listeners
new_proxy_spawner server proxy ctx s (h ∷ hs) meanwhile =
    if same_addr server proxy
    then err same_addresses
    else check_started (meanwhile (fresh_spawner server proxy ctx s))
