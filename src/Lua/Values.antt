-- ===== src/Lua/Values.antt =====
-- What crosses between Go and a script: ezp_lua/util.go, and the values of gopher-lua that the package
-- tells apart.
use Prim.Native.String.{String}
use ezproxy.Base.{ℕ, Bool, Option, some, List, ◌==◌, if◌then◌else◌, length}
use ezproxy.Handler.Flags.{is_serverbound, is_injected}
use ezproxy.Handler.State.{Bytes, Packet, Spawner}

-- lua.LValue. An integer is held as its 64-bit pattern; a text that Go makes stands as a String, the
-- content of a packet as its bytes; an object is a table of functions over a container.
pub data Value : Type 0 where
  nil_value : Value
  bool_value : Bool → Value
  number_value : ℕ → Value
  text_value : String → Value
  bytes_value : Bytes → Value
  function_value : ℕ → Value
  proxy_value : ℕ → Value
  other_value : Value

-- The checks of gopher-lua on an argument: none raises an error.
pub record Checks : Type 0 where
  pub check_int : Value → Option ℕ
  pub check_string : Value → Option Bytes
  pub check_function : Value → Option ℕ

-- packetDataToTable, by the keys of its table
pub record PacketTable : Type 0 where
  pub serverbound : Bool
  pub injected : Bool
  pub flags : ℕ
  pub source : String
  pub dest : String
  pub proxy_id : ℕ
  pub content : Bytes

unfoldable pub packet_data_to_table : Packet → PacketTable
packet_data_to_table d = record {
  serverbound = is_serverbound d.flags;
  injected = is_injected d.flags;
  flags = d.flags;
  source = d.source.address;
  dest = d.dest.address;
  proxy_id = d.proxy_id;
  content = d.content;
}

-- How a Go function that a script calls ends: with the values that it pushed, or with RaiseError or a
-- check that raises.
pub data Outcome : Type 0 where
  nothing : Outcome
  pushed : Value → Outcome
  raised : Outcome

-- A Go function over the spawner; none is a panic of package handler.
abbrev pub Bound : Type 0
Bound = Spawner → Option (Outcome × Spawner)

-- addFunction: the number of arguments is checked first.
unfoldable pub add_function : ℕ → List Value → Bound → Bound
add_function args given fn p = if length given == args then fn p else some (raised, p)

-- l.CallByParam with Protect, and the value that is popped.
pub data Called : Type 0 where
  failed : Called
  returned : Value → Called

-- A Lua function that is called with the table of the spawner and that of a packet. Through the former it
-- may do to the spawner what the bound functions do.
abbrev pub Function : Type 0
Function = Spawner → PacketTable → Called × Spawner
