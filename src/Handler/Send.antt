-- ===== src/Handler/Send.antt =====
-- ProxySpawner.HandleSend and HandleError, handler/spawner.go. `none` is a panic: a call of a nil
-- context, or a send on a closed channel.
pub mod Laws
pub mod Delivery
use ezproxy.Base.{
  ℕ, ◌+◌, ◌%◌, Bool, true, false, ◌||◌, Option, none, some, List, [], ◌∷◌, if◌then◌else◌, length,
  get_elem?, ◌>>=◌,
}
use ezproxy.Errors.{Error, canceled}
use ezproxy.Context.{is_done, cancel}
use ezproxy.Handler.Flags.{is_serverbound, is_injected}
use ezproxy.Handler.State.{
  Bytes, word, Packet, RecvChan, Container, Effect, filtered, delivered, missed, reported, Env,
  Spawner, emit,
}

-- pktData
unfoldable pub packet_of : Bytes → ℕ → Container → Spawner → Packet
unfolding is_serverbound
packet_of bytes flags c p = record {
  flags = flags;
  source = if is_serverbound flags then c.px.client_addr else p.server_addr;
  dest = if is_serverbound flags then p.server_addr else c.px.client_addr;
  content = bytes;
  proxy_id = c.id;
}

-- p.totalSent += uint64(len(data))
unfoldable pub count_total : Bytes → Spawner → Spawner
count_total bytes p = record p { total_sent = (p.total_sent + length bytes) % word }

-- The filter: false if the packet is to be dropped. A filter with a dead context is taken off.
unfoldable pub ask_filter : Env → Bytes → ℕ → ℕ → Spawner → Option (Bool × Spawner)
ask_filter env bytes flags h p = elim p.send_callback [
  | none ↦ some (true, p)
  | some cb ↦ elim p.callback_ctx [
    | none ↦ none
    | some ctx ↦
        if is_done p.contexts ctx
        then some (
          true,
          record p {
            contexts = cancel p.contexts ctx canceled;
            callback_ctx = none;
            send_callback = none;
          },
        )
        else some (
          env.answer p.log cb bytes flags h || is_injected flags,
          emit (filtered cb bytes flags h) p,
        )
  ]
]

-- One round of the loop over p.rcChan.
unfoldable pub offer : Env → Packet → ℕ → RecvChan → Spawner → Option Spawner
offer env pkt i v p =
    if is_done p.contexts v.ctx
    then some p
    else if v.closed
    then none
    else some (emit (if env.receives p.log i then delivered i pkt else missed i pkt) p)

unfoldable pub deliver : Env → Packet → ℕ → List RecvChan → Spawner → Option Spawner
deliver env pkt i [] p = some p
deliver env pkt i (v ∷ vs) p = offer env pkt i v p >>= deliver env pkt (i + 1) vs

unfoldable pub handle_send : Env → Bytes → ℕ → ℕ → Spawner → Option (Bool × Spawner)
unfolding count_total ask_filter packet_of
handle_send env bytes flags h p = get_elem? p.containers h >>= λ c.
    ask_filter env bytes flags h (count_total bytes p) >>= λ r.
    if r.0
    then (deliver env (packet_of bytes flags c p) 0 p.rc_chan r.1 >>= λ q. some (true, q))
    else some (false, r.1)

unfoldable pub handle_error : Error → Option ℕ → Spawner → Spawner
handle_error e pc p = elim p.error_callback [ none ↦ p | some cb ↦ emit (reported cb e pc) p ]
