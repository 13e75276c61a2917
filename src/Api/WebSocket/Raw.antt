-- ===== src/Api/WebSocket/Raw.antt =====
-- What a WebSocket writes, api/websocket.go: _sendRaw, sendPacket and sendError. json.Marshal and the
-- write to the socket are parameters.
pub mod Laws
use Prim.Native.String.{String}
use ezproxy.Base.{ℕ, Bool, ◌==◌, Option, none, some, if◌then◌else◌}
use ezproxy.Errors.{Error, Result, ok, err}
use ezproxy.Handler.State.{Bytes}
use ezproxy.Api.WebSocket.{WsPacket, Message, shown, failed}

-- wsServerTypes
pub data ServerType : Type 0 where
  server_error server_packet : ServerType

-- The data of a response: a text, a packet, or wsServerMsg
pub data Payload : Type 0 where
  text : String → Payload
  packet : WsPacket → Payload
  server_msg : ServerType → Payload → Payload

-- baseResponse
pub record BaseResponse : Type 0 where
  pub status : ℕ
  pub content : Payload

-- How _sendRaw goes: a panic, before which the WebSocket is closed or not, or what is written, and the
-- error of the write.
pub data Sent : Type 0 where
  closes_and_panics panics : Sent
  sent : Bytes → Option Error → Sent

abbrev pub post : (BaseResponse → Result Bytes) → (Bytes → Option Error) → BaseResponse → Sent
post marshal write r = elim (marshal r) [ err e ↦ panics | ok bytes ↦ sent bytes (write bytes) ]

-- _sendRaw
unfoldable pub send_raw :
    (BaseResponse → Result Bytes) → (Bytes → Option Error) → ℕ → ServerType → Payload → Sent
send_raw marshal write status server_error d =
    if status == 200
    then closes_and_panics
    else post marshal write (record { status = status; content = d })
send_raw marshal write status server_packet d =
    post marshal write (record {
      status = status;
      content = if status == 200 then server_msg server_packet d else d;
    })

-- sendPacket
unfoldable pub send_packet :
    (BaseResponse → Result Bytes) → (Bytes → Option Error) → WsPacket → Sent
unfolding send_raw
send_packet marshal write pkt = send_raw marshal write 200 server_packet (packet pkt)

-- sendError
unfoldable pub send_error :
    (BaseResponse → Result Bytes) → (Bytes → Option Error) → ℕ → String → Sent
unfolding send_raw
send_error marshal write status msg = send_raw marshal write status server_error (text msg)

-- A message that the WebSocket writes, by the one or the other.
unfoldable pub send_message :
    (BaseResponse → Result Bytes) → (Bytes → Option Error) → Message → Sent
unfolding send_packet send_error
send_message marshal write (shown pkt) = send_packet marshal write pkt
send_message marshal write (failed status msg) = send_error marshal write status msg
