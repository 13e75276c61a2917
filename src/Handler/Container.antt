-- ===== src/Handler/Container.antt =====
-- ProxyContainer, handler/proxy.go. A container is named by its place in the store.
pub mod Store
pub mod Laws
pub mod Packets
use Prim.Native.String.{String}
use ezproxy.Base.{
  ◌-◌, ℕ, ◌+◌, ◌%◌, Bool, true, false, Option, none, some, List, [], ◌∷◌, ◌++◌, if◌then◌else◌,
  length, get_elem?, set, ◌>>=◌,
}
use ezproxy.Errors.{Error, canceled, proxy_closed_ok, formatted, Result, ok, err}
use ezproxy.Context.{cause_of, is_done, with_cancel, cancel}
use ezproxy.Handler.Flags.{to_server, injected}
use ezproxy.Handler.State.{Addr, Bytes, word, Proxy, Container, wrote, Env, Spawner, emit}
use ezproxy.Handler.Send.{handle_send, handle_error}

-- pc.statsLock.Lock() … Unlock()
unfoldable pub count_sent : Env → ℕ → Bytes → Container → Spawner → Spawner
count_sent env h bytes c p = record p {
  containers = set p.containers h (record c {
    last_contact = env.now p.log;
    bytes_sent = (c.bytes_sent + length bytes) % word;
  });
}

-- px.SendToServer or px.SendToClient, and what follows it in the three places that call them.
unfoldable pub write_out : Env → ℕ → Container → Bool → Bytes → Spawner → Option Error × Spawner
unfolding count_sent
write_out env h c serverbound bytes p = elim (env.send p.log h serverbound bytes) [
  | some e ↦ (some e, handle_error e (some h) (emit (wrote h serverbound bytes) p))
  | none ↦ (none, count_sent env h bytes c (emit (wrote h serverbound bytes) p))
]

-- The flags of an injection.
abbrev pub injection_flags : Bool → ℕ
injection_flags true = to_server + injected
injection_flags false = injected

-- SendToServer (true) and SendToClient (false)
unfoldable pub send_to : Bool → Env → Bytes → ℕ → Spawner → Option (Option Error × Spawner)
unfolding write_out
send_to serverbound env bytes h p = get_elem? p.containers h >>= λ c.
    elim (cause_of p.contexts c.ctx) [
      | some cause ↦ some (some cause, p)
      | none ↦ handle_send env bytes (injection_flags serverbound) h p >>= λ r.
          if r.0 then some (write_out env h c serverbound bytes r.1) else some (none, r.1)
    ]

unfoldable pub send_to_client : Env → Bytes → ℕ → Spawner → Option (Option Error × Spawner)
unfolding send_to
send_to_client = send_to false

unfoldable pub send_to_server : Env → Bytes → ℕ → Spawner → Option (Option Error × Spawner)
unfolding send_to
send_to_server = send_to true

-- ProxyPacketData
pub record PacketData : Type 0 where
  pub serverbound : Bool
  pub source : Addr
  pub dest : Addr
  pub content : Bytes

abbrev pub packet_flags : Bool → ℕ
packet_flags true = to_server
packet_flags false = 0

-- One packet of handlePacket.
unfoldable pub handle_packet : Env → PacketData → ℕ → Spawner → Option Spawner
unfolding write_out
handle_packet env d h p = get_elem? p.containers h >>= λ c.
    handle_send env d.content (packet_flags d.serverbound) h p >>= λ r.
    if r.0 then some (write_out env h c d.serverbound d.content r.1).1 else some r.1

-- pc.Cancel(cause), and Close with its cause
unfoldable pub cancel_container : Error → ℕ → Spawner → Option Spawner
cancel_container cause h p =
    get_elem? p.containers h >>= λ c. some (record p { contexts = cancel p.contexts c.ctx cause })

unfoldable pub is_alive : Spawner → ℕ → Bool
unfolding is_done
is_alive p h = elim (get_elem? p.containers h) [
  | none ↦ false
  | some c ↦ elim (is_done p.contexts c.ctx) [ true ↦ false | false ↦ true ]
]

-- NewProxyContainer. A container whose Init fails is never handed out, and its context dies.
unfoldable pub new_proxy_container : Env → Proxy → ℕ → Spawner → Result ℕ × Spawner
unfolding with_cancel
new_proxy_container env px id p =
    let (contexts, ctx) = with_cancel p.contexts p.context in
    let c : Container = record { id = id; ctx = ctx; px = px; bytes_sent = 0; last_contact = 0 } in
    let p' : Spawner = record p { contexts = contexts; containers = p.containers ++ c ∷ [] } in
    elim (env.init p.log px) [
      | none ↦ (ok (length p.containers), p')
      | some e ↦ (err e, record p' { contexts = cancel contexts ctx (formatted e) })
    ]

-- GetServerAddr of a container is that of its spawner.
unfoldable pub server_addr_of : Spawner → Addr
server_addr_of p = p.server_addr

unfoldable pub client_addr_of : Container → Addr
client_addr_of c = c.px.client_addr

unfoldable pub network_of : Container → String
network_of c = c.px.network

unfoldable pub id_of : Container → ℕ
id_of c = c.id

unfoldable pub bytes_sent_of : Container → ℕ
bytes_sent_of c = c.bytes_sent

unfoldable pub last_contact_time : Container → ℕ
last_contact_time c = c.last_contact

-- LastContactTimeAgo; a clock that goes back gives 0 here.
unfoldable pub last_contact_time_ago : Env → Spawner → Container → ℕ
last_contact_time_ago env p c = env.now p.log - c.last_contact
