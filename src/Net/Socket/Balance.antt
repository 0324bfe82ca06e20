-- ===== src/Net/Socket/Balance.antt =====
-- What the two loops of a socket (tcp_socket.go, kcp_socket.go, websocket.go, udp_socket.go) have done and have still to do.
use gotu.Base.{refl, List, [], ◌∷◌, if_both}
use gotu.Net.Socket.{
  Kind, tcp, kcp, websocket, udp, Socket, new_socket, Action, read_break, write_break, read_end,
  write_end, read_on, write_on, close, read_fails, step, steps,
}
use gotu.Net.Socket.Steps.{
  IsBalanced, read_over-IsBalanced, write_over-IsBalanced, read_next-IsBalanced,
  write_next-IsBalanced, begin_close-IsBalanced,
}

pub step-IsBalanced :
    (kind : Kind) (s : Socket) (a : Action) → IsBalanced kind s → IsBalanced kind (step kind s a)
unfolding step
step-IsBalanced kind s read_break v = read_over-IsBalanced kind s s.reader refl v
step-IsBalanced kind s write_break v = write_over-IsBalanced kind s s.writer refl v
step-IsBalanced kind s read_end v =
    if_both (IsBalanced kind) (read_fails kind s) (read_over-IsBalanced kind s s.reader refl v) v
step-IsBalanced kind s write_end v =
    if_both (IsBalanced kind) s.close_ch (write_over-IsBalanced kind s s.writer refl v) v
step-IsBalanced kind s read_on v = read_next-IsBalanced kind s s.reader refl v
step-IsBalanced kind s write_on v = write_next-IsBalanced kind s s.writer refl v
step-IsBalanced kind s close v = begin_close-IsBalanced kind s v

pub steps-IsBalanced_from :
    (kind : Kind) (s : Socket) (actions : List Action)
    → IsBalanced kind s
    → IsBalanced kind (steps kind s actions)
unfolding steps
steps-IsBalanced_from kind s [] v = v
steps-IsBalanced_from kind s (a ∷ actions) v =
    steps-IsBalanced_from kind (step kind s a) actions (step-IsBalanced kind s a v)

new_socket-IsBalanced : (kind : Kind) → IsBalanced kind new_socket
new_socket-IsBalanced tcp = record {
  waits = refl;
  disconnected = refl;
  released = refl;
  connected = refl;
  shut_once = refl;
  intact = refl;
}
new_socket-IsBalanced kcp = record {
  waits = refl;
  disconnected = refl;
  released = refl;
  connected = refl;
  shut_once = refl;
  intact = refl;
}
new_socket-IsBalanced websocket = record {
  waits = refl;
  disconnected = refl;
  released = refl;
  connected = refl;
  shut_once = refl;
  intact = refl;
}
new_socket-IsBalanced udp = record {
  waits = refl;
  disconnected = refl;
  released = refl;
  connected = refl;
  shut_once = refl;
  intact = refl;
}

-- However its two loops end and go through what they deferred, and however often Close is called in
-- between: a socket waits for just the loops that have not left its wait group; onDisconnect,
-- releaseFn and the connection's close have been called once or are still to be called once, as far
-- as the kind of socket has them; and no closed channel is closed.
pub steps-IsBalanced :
    (kind : Kind) (actions : List Action) → IsBalanced kind (steps kind new_socket actions)
steps-IsBalanced kind actions =
    steps-IsBalanced_from kind new_socket actions (new_socket-IsBalanced kind)
