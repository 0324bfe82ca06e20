-- ===== src/Net/Kcp/Protocol.antt =====
-- The two ends of a KCP connection with the built-in protocol on: each end's mux (kcp_mux.go) and the
-- inline messages under way. KCP delivers them in order. No data message is under way, and no timer
-- fires. Split has the steps of the code, where a swap and the sends behind it are apart. Here they are
-- one step: the machine that Serial shows those schedules of Split to follow in which an end sends what
-- it has to before its next swap; Race has what the others may come to.
pub mod Shapes
pub mod Stages
pub mod Refinement
pub mod Safety
pub mod Split
pub mod Serial
pub mod Ends
pub mod Race
pub mod Waits
use gotu.Base.{
  ℕ, Bool, true, false, Option, none, some, List, [], ◌∷◌, ◌++◌, if◌then◌else◌, Error, eof,
}
use gotu.Net.Kcp.Mux.{Kms, Mux, new_kcp_mux, Reply, inline_protocol, init_begin, close_begin}

-- How the read loop of an end stands: reading, ended by io.EOF, or ended by another error.
pub data ReadEnd : Type 0 where
  open_end eof_end error_end : ReadEnd

pub record System : Type 0 where
  pub client : Mux
  pub server : Mux
  pub client_end : ReadEnd
  pub server_end : ReadEnd
  pub up : List Kms  -- to the server
  pub down : List Kms  -- to the client

-- The program's two calls at either end, and the arrival of the next message.
pub data Action : Type 0 where
  client_init server_init client_close server_close deliver_up deliver_down : Action

unfoldable pub start : System
unfolding new_kcp_mux
start = record {
  client = new_kcp_mux true false;
  server = new_kcp_mux true true;
  client_end = open_end;
  server_end = open_end;
  up = [];
  down = [];
}

-- The read loop's end after the answer of `onMsg`.
abbrev pub end_of : Option Error → ReadEnd
end_of none = open_end
end_of (some eof) = eof_end
end_of (some e) = error_end

-- An end that still reads takes the next message; another leaves it.
server_reads : System → ReadEnd → List Kms → System
server_reads s open_end (k ∷ up) =
    let r = inline_protocol s.server k in
    record s { server = r.mux; server_end = end_of r.error; up = up; down = s.down ++ r.sends }
server_reads s _ _ = s

client_reads : System → ReadEnd → List Kms → System
client_reads s open_end (k ∷ down) =
    let r = inline_protocol s.client k in
    record s { client = r.mux; client_end = end_of r.error; down = down; up = s.up ++ r.sends }
client_reads s _ _ = s

unfoldable pub act : System → Action → System
unfolding server_reads client_reads inline_protocol init_begin close_begin
act s client_init =
    let (m, sends) = init_begin s.client in record s { client = m; up = s.up ++ sends }
act s server_init =
    let (m, sends) = init_begin s.server in record s { server = m; down = s.down ++ sends }
act s client_close =
    let (m, sends) = close_begin s.client in record s { client = m; up = s.up ++ sends }
act s server_close =
    let (m, sends) = close_begin s.server in record s { server = m; down = s.down ++ sends }
act s deliver_up = server_reads s s.server_end s.up
act s deliver_down = client_reads s s.client_end s.down

unfoldable pub run : System → List Action → System
unfolding act
run s [] = s
run s (a ∷ actions) = run (act s a) actions
