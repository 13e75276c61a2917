-- ===== src/Api/WebSocket/Callback.antt =====
-- The filter callback of a WebSocket before and after Accept: newWebSocket and handleSend of
-- api/websocket.go.
use Prim.Native.String.{String}
