-- ===== src/Handler/State.antt =====
-- The objects of package handler, in handler/spawner.go, handler/proxy.go and
-- handler/interfaces.go, in one record: the fields of the ProxySpawner, the store of its
-- ProxyContainers, the contexts, and a log of the calls that leave the package, newest first.
use Prim.Native.String.{String}
use ezproxy.Base.{ℕ, Bool, Option, List, ◌∷◌}
use ezproxy.Errors.{Error}
use ezproxy.Context.{Contexts}

abbrev pub Bytes : Type 0
Bytes = List ℕ

-- 2^64: uint64 wraps at it, and an int is held as its 64-bit pattern.
abbrev pub word : ℕ
word = 0x1_0000_0000_0000_0000

-- net.Addr, by what Network() and String() return
pub record Addr : Type 0 where
  pub network : String
  pub address : String

-- PacketChanData
pub record Packet : Type 0 where
  pub flags : ℕ
  pub source : Addr
  pub dest : Addr
  pub content : Bytes
  pub proxy_id : ℕ

-- rChan; `closed` is the state of the channel Recv
pub record RecvChan : Type 0 where
  pub ctx : ℕ
  pub closed : Bool

-- What an IProxy says of itself; its sends are in `Env`.
pub record Proxy : Type 0 where
  pub network : String
  pub client_addr : Addr

-- ProxyContainer; the spawner is the one of the state
pub record Container : Type 0 where
  pub id : ℕ
  pub ctx : ℕ
  pub px : Proxy
  pub bytes_sent : ℕ
  pub last_contact : ℕ

-- A call that leaves the package. Containers and channels are named by their place in the state.
pub data Effect : Type 0 where
  filtered : ℕ → Bytes → ℕ → ℕ → Effect  -- sendCallback(data, flags, container)
  wrote : ℕ → Bool → Bytes → Effect  -- px.SendToServer (true) or px.SendToClient (false)
  delivered : ℕ → Packet → Effect  -- v.Recv <- pktData
  missed : ℕ → Packet → Effect  -- nobody receives on the channel
  reported : ℕ → Error → Option ℕ → Effect  -- errorCallback(err, pc)
  listened : ℕ → Effect  -- a run of a listener, under its context

-- What the environment answers: filter callbacks, sockets, receivers, Init and the clock. An answer
-- may depend on all that went before.
pub record Env : Type 0 where
  pub answer : List Effect → ℕ → Bytes → ℕ → ℕ → Bool
  pub send : List Effect → ℕ → Bool → Bytes → Option Error
  pub receives : List Effect → ℕ → Bool
  pub init : List Effect → Proxy → Option Error
  pub now : List Effect → ℕ
  pub order : List Effect → List (ℕ × ℕ) → List (ℕ × ℕ)  -- the order of a range over a map

-- ProxySpawner. `connections` maps an id to a place in `containers`.
pub record Spawner : Type 0 where
  pub current_id : ℕ
  pub connections : List (ℕ × ℕ)
  pub total_sent : ℕ
  pub server_addr : Addr
  pub proxy_addr : Addr
  pub context : ℕ
  pub wg : ℕ
  pub send_callback : Option ℕ
  pub error_callback : Option ℕ
  pub rc_chan : List RecvChan
  pub callback_ctx : Option ℕ
  pub containers : List Container
  pub contexts : Contexts
  pub log : List Effect

-- What the package does to the world outside it.
abbrev pub emit : Effect → Spawner → Spawner
emit x p = record p { log = x ∷ p.log }
