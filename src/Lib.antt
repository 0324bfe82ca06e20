-- ===== src/Lib.antt =====
-- gotu: a Go networking library, with message framing, an actor runtime and tools built on it.
--
-- The parts and how they meet. A server or client owns sockets. A socket has a read loop, which reads
-- into pooled buffers, gathers what it read in a cache and calls the message callback until the
-- callback takes nothing more; and a write loop, fed by SendMsg through a bounded channel. The
-- callback of a TCP socket is the message codec, which cuts messages out of the bytes and calls the
-- handler registered for a message's command. A KCP socket puts a protocol of its own between the
-- bytes and the callback: one byte in front of each piece tells messages of the program from those of
-- the handshake and of the close. The UDP tunnel relays datagrams between two proxies, may put a time
-- stamp in front of them, and passes them through an actor that delays and loses some.
--
-- Which file models what. Names are the source's in another spelling; `now`, random numbers and the
-- choices of `select` are inputs.
--   Base, Wire       helpers; numbers as bytes (encoding/binary), slices that panic, Go's errors
--   Net/Handler      pkg/xnet/common.go: the message callback and what read loops expect of it
--   Net/Buffer       pkg/xnet/buffer.go: the pool of read buffers
--   Net/Stream       pkg/xnet/tcp_socket.go readLoop; kcp_socket.go has the same inner loop
--                    Frames: what a message protocol gives the loop, and the delivery of whole messages
--   Net/Delivery     the write loop of one socket and the read loop of the other, over one connection
--   Net/Write        SendMsg of the sockets; Coalesce: writeLoop of tcp_socket.go and kcp_socket.go;
--                    Each: writeLoop of udp_socket.go and websocket.go
--   Net/Socket       the ends of the two loops of each kind of socket, what they defer, and Close
--   Net/Websocket    pkg/xnet/websocket.go readLoop; Server: pkg/xnet/websocket_server.go
--   Net/Session      pkg/xnet/udp_session.go, and the timeout of udp_server.go
--   Net/Server       pkg/xnet/tcp_server.go and kcp_server.go: accept loop, release of sockets, Close
--   Net/Udp          pkg/xnet/udp_server.go: the sessions by address; ReadLoop: udp_socket.go
--                    readLoop; Client: builtInUDP of udp_client.go
--   Net/Client       tcp_client.go, kcp_client.go, websocket_client.go, and UDPClient of udp_client.go,
--                    over a socket given by its operations and laws
--   Net/Kcp/Mux      pkg/xnet/kcp_mux.go: framing, and one end of the protocol
--   Net/Kcp/ReadLoop pkg/xnet/kcp_socket.go readLoop
--   Net/Kcp/Messages messages over an established KCP connection; Connection: one end from the
--                    handshake to the close, in bytes
--   Net/Kcp/Protocol both ends of kcp_mux.go over two ordered channels: Split has their steps, Serial
--                    the schedules that follow an abstract machine, and Race what others come to
--   Msg              pkg/xmsg: packing and parsing of messages; Delivery: messages from end to end
--   Registry         pkg/xregistry: the table of handlers, the echo service
--   Actor            pkg/xactor: the tables of handlers and of actors; Loop: the logic loop of an actor;
--                    Request: requests by name and CloseAll
--   Latency          pkg/xlatency: the simulator of delay and loss; Flow: its runs
--   Common           pkg/xcommon/math.go, and arithmetic of int64
--   Tunnel           cmd/udp_tun/internal/handlers: codec.go, snmp.go, registry.go; Registry/Connect:
--                    OnConnect and OnDisconnect, with state.go
--   Cmd              cmd/tcp_svr/main.go and cmd/tcp_cli/client.go: the echo server and its client
--
-- State. Each model has the source's struct as a record and one function per operation; a loop is a
-- function on the record, or a step per select where several goroutines meet (Net/Write,
-- Net/Server, Net/Socket, Net/Udp, Net/Kcp/Protocol, Actor/Loop), and then the order of the steps is
-- a list of any actions. A panic is a value: `panicked` of a handler, `none` elsewhere. Integers of
-- Go's widths wrap as in Go; lengths and times are natural numbers.
--
-- Interfaces. Net/Client takes a socket as a record of operations and laws (SocketOps), which
-- Net/Udp/Client/Ops fills for builtInUDP; Tunnel/Registry/Connect takes the same record for the UDP
-- client of a connection. Net/Stream/Frames is what a message protocol owes the read loop; Msg and
-- Net/Kcp fill it. Cmd takes a socket by SendMsg and the messages that it accepts, which the write
-- side of a TCP socket fills. The UDP server and client run the sessions of Net/Session, and the read
-- loops any callback that keeps the laws of Net/Handler.
--
-- Fuel. The inner read loop of Net/Stream recurses on the number of cached bytes, since a callback
-- that goes on takes at least one; Net/Write's `drive` takes a number of steps, for which a bound is
-- computed from the state. Net/Server's `drive` recurses on such a bound too.
--
-- Outside the model: the network below (kcp-go and TCP are ordered byte channels; what Read and Write
-- answer is an input), the logger, deadlines beyond their effect as an error, net/http and the websocket
-- package below the websocket server, and the commands' mains.
pub mod Base
pub mod Wire
pub mod Net
pub mod Msg
pub mod Common
pub mod Registry
pub mod Actor
pub mod Latency
pub mod Tunnel
pub mod Cmd
