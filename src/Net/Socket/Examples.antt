-- ===== src/Net/Socket/Examples.antt =====
-- Sockets (tcp_socket.go, kcp_socket.go, websocket.go, udp_socket.go) that are closed while one of their loops ends by itself.
use gotu.Base.{refl, List, [], ◌∷◌}
use gotu.Net.Socket.{
  Action, tcp, kcp, new_socket, steps, read_break, write_break, read_on, write_on, close,
}
use gotu.Net.Socket.Steps.{IsBalanced}
use gotu.Net.Socket.Balance.{steps-IsBalanced}
use gotu.Net.Socket.Life.{IsGone, drive, drive-IsGone}

abbrev broken : List Action
broken = write_break ∷ write_on ∷ close ∷ write_on ∷ read_break ∷ read_on ∷ []

steps-IsBalanced_example : IsBalanced kcp (steps kcp new_socket broken)
steps-IsBalanced_example = steps-IsBalanced kcp broken

drive-IsGone_example : IsGone tcp (drive tcp (steps tcp new_socket broken))
unfolding steps
drive-IsGone_example = drive-IsGone tcp broken refl
