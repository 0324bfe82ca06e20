-- ===== src/Net/Websocket.antt =====
-- pkg/xnet/websocket.go: the read loop of a websocket. The package below cuts the bytes into messages,
-- and the callback gets each of them once, whatever number of bytes it says that it took.
pub mod Messages
pub mod Server
use gotu.Base.{ℕ, Bool, Option, none, some, List, [], ◌∷◌, Error}
use gotu.Wire.{Bytes}
use gotu.Net.Handler.{Handled, handled, panicked, OnHandlerOnce}

-- What a round of the loop meets: a deadline that cannot be set; an error of ReadMessage that is logged,
-- or that is the normal close or that of a closed connection; a message.
pub data Read : Type 0 where
  deadline_failed read_failed : Error → Read
  read_closed : Read
  message : Bytes → Read

-- The loop goes on, has ended with the error that it logs, or has panicked.
pub data Loop (S : Type 0) : Type 0 where
  reading : S → Loop S
  ended : S → Option Error → Loop S
  died : Loop S

unfoldable pub ws_read_loop : {S : Type 0} → OnHandlerOnce S → S → List Read → Loop S
ws_read_loop on_msg s [] = reading s
ws_read_loop on_msg s (deadline_failed e ∷ reads) = ended s (some e)
ws_read_loop on_msg s (read_failed e ∷ reads) = ended s (some e)
ws_read_loop on_msg s (read_closed ∷ reads) = ended s none
ws_read_loop on_msg s (message msg ∷ reads) = elim (on_msg s msg) [
  | panicked ↦ died
  | handled s' n (some e) ↦ ended s' (some e)
  | handled s' n none ↦ ws_read_loop on_msg s' reads
]
