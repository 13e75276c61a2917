-- ===== src/Lib.antt =====
-- A verification library for ezproxy, a proxy that shows, filters and injects the packets of the
-- connections it passes on.
--
-- Parts of the program. Package handler is its core: a ProxySpawner (handler/spawner.go) runs
-- listeners, which hand it a connection (an IProxy) each by AddConnection; it makes a ProxyContainer
-- (handler/proxy.go) for it, gives it an id, and passes every packet of a container, and every
-- injection, through HandleSend, which shows it to a filter and to the receivers. A pruner removes
-- what has died, and Close ends it all. Package proxy has the two listeners and their connections:
-- proxy/tcp.go and proxy/udp.go. Package api is the HTTP interface to a spawner: a table of keys
-- with permissions (api/auth.go) guards its endpoints (api/endpoints.go), one of which makes
-- WebSockets (api/websocket.go), which filter or watch packets and take the actions of a client.
-- Package ezp_lua gives the same to a script. helpers.go and the two main files start it all.
--
-- Files.
--   Base, with Base/Tests, Base/Lists and Base/Maps: tests on numbers, lists, maps, and `Returns`, which
--     says of a step that may panic (none) that it does not.
--   Errors: the error values, handler/errors.go.
--   Context: contexts and their causes, as package context documents them. All contexts stand in one
--     list, the newest first, and are named by number.
--   Handler/Flags: handler/flags.go.
--   Handler/State: ProxySpawner, ProxyContainer, rChan and PacketChanData, and `Env`, what sockets,
--     callbacks, receivers and the clock answer. Containers are named by their place in a list, so that
--     the table of connections and the goroutines share them as the pointers of the source do. The
--     calls that leave the package stand in a log.
--   Handler/Send: HandleSend and HandleError. Handler/Container: handlePacket, SendToClient,
--     SendToServer, NewProxyContainer and the getters. Handler/Connections: AddConnection, GetProxy,
--     GetAllProxies, CloseProxy, SendToAllClients and SendToAllServers. Handler/Listener: addListener.
--     Handler/Pruner: pruner. Handler/Lifecycle: the rest of ProxySpawner and its making.
--   Handler/Invariant: what is valid of a spawner between two calls.
--   Handler/Process: the calls and the goroutines of one spawner as steps in any order. A call, a packet
--     and each of the two loops of a tick of the pruner is one step; the pruner joins the wait group
--     by a step of its own, at any time after the spawner is made.
--     Handler/Process/Start: the process that NewProxySpawner leaves. Handler/Process/Runs: what the
--     users of a spawner do to it as runs of the process. Handler/Process/Relay: the loop of
--     handlePacket beside all other steps.
--   Handler/Life: the abstract machine of one connection, by its id, that a spawner implements.
--   Proxy/Net: proxy/util.go. Proxy/Udp and Proxy/Udp/Listener: UdpProxy and UdpListener of
--     proxy/udp.go. Proxy/Tcp and Proxy/Tcp/Listener: TcpProxy and TcpListener of proxy/tcp.go. A loop
--     runs over the list of its turns: what the socket gives, and what others do meanwhile.
--     Proxy/Runs: the listeners as parts of the process of package handler, and whole connections, of
--     TCP in Proxy/Runs/Relay and of UDP in Proxy/Runs/Datagrams, down to the writes to the sockets
--     (Proxy/Runs/Sends).
--   Lua/Values: ezp_lua/util.go. Lua/Proxy: luaProxy, ezp_lua/proxy.go. Lua/Spawner: luaSpawner,
--     ezp_lua/spawner.go, with get_packets in Lua/Spawner/Packets. Lua/Callback: luaCallback and
--     runLuaCallback, ezp_lua/callback.go. Lua/Binding: luaBindings, ezp_lua/binding.go.
--   Api/Http: requests and responses, api/util.go. Api/Hex: what strconv.ParseUint and %x of
--     package fmt do with keys, as they document it. Api/Perms: createNewPerms
--     and isValidCreationPerm of api/endpoints.go. Api/Auth: authLookup, api/auth.go, and addEndpoint.
--     Api/Keys: epGetKey and epGetAuthValue of api/endpoints.go, and the endpoint newkey of api/api.go;
--     Api/Keys/Use: what a new key is good for.
--     Api/Endpoints: epStatus, epProxyList and epInject of api/endpoints.go. Api/WebSocket: the
--     permissions of newWebSocket, sendPkt, handleRecvFilter and handleSend of api/websocket.go, and in
--     Api/WebSocket/Client handleClientAction of api/ws_client.go. Api/WebSocket/Raw: what it writes,
--     _sendRaw, sendPacket and sendError. Api/WebSocket/Exchange: the goroutines of the packets that
--     wait and that of the client, which meet at filterChan, as steps in any order. Api/Session: the
--     rest of newWebSocket, with recv, listen and Close, from the request to its end. Api/Server:
--     WebApi, api/api.go.
--   Config: versionToString, LevelToSlog and the configuration's IsEmpty, helpers.go.
--   Program: loadCfg, ToString and setupSpawnerAndApi of helpers.go. Program/Main: main of main_lua.go
--     and of main_no_lua.go, setupLogger and run.
--   Integration: the test of integration/tcp_integration.go with its echo server, and
--     integration/util.go. Integration/Threads: main_integration.go.
--   The other files of a module hold its theorems. Tests holds concrete instances.
--
-- Bounds. The loop of addListener has 3 retries, as in the source, and that of newKeyInt 1000 draws;
-- they recurse on what is left, and need no other fuel. The loops that wait for packets recurse on the
-- list of what they get, and say so when it ends before they do. A uint64 wraps at 2^64, and an int is
-- held as its 64-bit pattern. IDs of connections are modelled up to 2^64.
--
-- Parameters. Filters, sockets, receivers, Init and the clock are functions of `Env`; a listener is a
-- function on the spawner; the random draws, strconv.ParseInt, json.Unmarshal, the resolving of
-- addresses, json.Marshal and Timeout of a net.Error are functions. What wakes the filter of a
-- WebSocket, and what a socket gives, is a list. Of gopher-lua, the checks of arguments, the globals and
-- the functions of a script are functions; what a script does to the spawner that it is handed is part
-- of its function's result.
--
-- Not modelled. Logging, the locks and what a data race does (a call is one step, so that the writes
-- of HandleSend to callbackCtx, and those to filterMap, are not seen to clash), the time that passes (the second that Close
-- waits is over unless the wait group is at 0), the limit of 4096 bytes of a read, JSON, reading the
-- configuration and serving HTTP, the HTML of the home page, the rounding of a number that a script
-- gets, the Lua interpreter, and what a failed integration test leaves of the contexts; the mocks,
-- which are no part of the proxy.
pub mod Base
pub mod Errors
pub mod Context
pub mod Handler
pub mod Proxy
pub mod Lua
pub mod Api
pub mod Config
pub mod Program
pub mod Integration
mod Tests
