-- ===== src/Net/Socket.antt =====
-- The life of a socket of tcp_socket.go, kcp_socket.go, websocket.go and udp_socket.go: its two loops, what each defers to its end,
-- and Close, in any order. What the loops do until they end is in Net/Stream.antt and
-- Net/Write/Coalesce.antt. `close_ch` is the close channel, `conn` an open connection, `crashed` the
-- panic of closing a closed channel.
pub mod Even
pub mod Steps
pub mod Balance
pub mod Tidy
pub mod Ends
pub mod Life
mod Examples
use gotu.Base.{ℕ, suc, ◌-◌, ◌+◌, Bool, true, false, not, ◌||◌, List, [], ◌∷◌, if◌then◌else◌}

pub data Kind : Type 0 where
  tcp kcp websocket udp : Kind

-- What the deferred functions do: `wg.Done`, the close of closeCh, onDisconnect, releaseFn,
-- `conn.Close`.
pub data Op : Type 0 where
  done shut disconnect release close_conn : Op

-- A loop runs, or it is over and this is left of what it deferred.
pub data Phase : Type 0 where
  looping : Phase
  unwinding : List Op → Phase

pub record Socket : Type 0 where
  pub reader : Phase
  pub writer : Phase
  pub wg : ℕ
  pub close_ch : Bool
  pub conn : Bool
  pub called : Bool
  pub disconnects : ℕ
  pub releases : ℕ
  pub crashed : Bool

abbrev pub new_socket : Socket
new_socket = record {
  reader = looping;
  writer = looping;
  wg = 2;
  close_ch = false;
  conn = true;
  called = false;
  disconnects = 0;
  releases = 0;
  crashed = false;
}

-- The deferred functions run from the last to the first.
abbrev pub read_defers : Kind → List Op
read_defers tcp = done ∷ shut ∷ disconnect ∷ []
read_defers kcp = done ∷ disconnect ∷ release ∷ shut ∷ []
read_defers websocket = disconnect ∷ done ∷ shut ∷ []
read_defers udp = done ∷ shut ∷ []

abbrev pub write_defers : Kind → List Op
write_defers tcp = done ∷ close_conn ∷ release ∷ []
write_defers kcp = done ∷ close_conn ∷ []
write_defers websocket = done ∷ close_conn ∷ []
write_defers udp = done ∷ close_conn ∷ []

-- `read_break` and `write_break` are ends of a loop for a reason of its own: an error, the end of the
-- stream, an empty piece, an error of the callback. `read_end` and `write_end` are the ends that Close
-- brings about. `read_on` and `write_on` run what was deferred next.
pub data Action : Type 0 where
  read_break write_break read_end write_end read_on write_on close : Action

-- kcp_socket.go looks at closeFlag first, websocket.go and udp_socket.go have a sync.Once; tcp_socket.go
-- just closes.
unfoldable pub shut_in : Kind → Socket → Socket
shut_in tcp s = if s.close_ch then record s { crashed = true } else record s { close_ch = true }
shut_in kind s = record s { close_ch = true }

unfoldable pub perform : Kind → Op → Socket → Socket
unfolding shut_in
perform kind done s = record s { wg = s.wg - 1 }
perform kind shut s = shut_in kind s
perform kind disconnect s = record s { disconnects = suc s.disconnects }
perform kind release s = record s { releases = suc s.releases }
perform kind close_conn s = record s { conn = false }

pub read_over : Kind → Socket → Phase → Socket
read_over kind s looping = record s { reader = unwinding (read_defers kind) }
read_over kind s (unwinding ops) = s

pub write_over : Kind → Socket → Phase → Socket
write_over kind s looping = record s { writer = unwinding (write_defers kind) }
write_over kind s (unwinding ops) = s

pub read_next : Kind → Socket → Phase → Socket
unfolding perform
read_next kind s looping = s
read_next kind s (unwinding []) = s
read_next kind s (unwinding (op ∷ ops)) = perform kind op (record s { reader = unwinding ops })

pub write_next : Kind → Socket → Phase → Socket
unfolding perform
write_next kind s looping = s
write_next kind s (unwinding []) = s
write_next kind s (unwinding (op ∷ ops)) = perform kind op (record s { writer = unwinding ops })

-- Whether the read of the connection fails: after `CloseRead`, or on a closed connection.
abbrev pub read_fails : Kind → Socket → Bool
read_fails tcp s = s.called || not s.conn
read_fails kind s = not s.conn

-- The beginning of Close: CloseRead for TCP, the close of closeCh else (for KCP behind the protocol's
-- own close). Then it waits for `wg`.
pub begin_close : Kind → Socket → Socket
unfolding shut_in
begin_close tcp s = record s { called = true }
begin_close kind s = shut_in kind (record s { called = true })

unfoldable pub step : Kind → Socket → Action → Socket
unfolding read_over write_over read_next write_next begin_close
step kind s read_break = read_over kind s s.reader
step kind s write_break = write_over kind s s.writer
step kind s read_end = if read_fails kind s then read_over kind s s.reader else s
step kind s write_end = if s.close_ch then write_over kind s s.writer else s
step kind s read_on = read_next kind s s.reader
step kind s write_on = write_next kind s s.writer
step kind s close = begin_close kind s

unfoldable pub steps : Kind → Socket → List Action → Socket
unfolding step
steps kind s [] = s
steps kind s (a ∷ actions) = steps kind (step kind s a) actions
