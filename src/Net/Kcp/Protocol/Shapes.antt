-- ===== src/Net/Kcp/Protocol/Shapes.antt =====
-- What the two ends and the channels of kcp_mux.go hold at each stage of a connection.
use gotu.Base.{ℕ, List, [], ◌∷◌}
use gotu.Net.Kcp.Mux.{
  Kms, syn_sent, listen, syn_rcvd, established, fin_wait1, close_wait, fin_wait2, closing,
  time_wait, last_ack,
}
use gotu.Net.Kcp.Protocol.{ReadEnd, open_end, eof_end}

-- `idle` to `half` open the connection and `opened` is it; then the client closes (`_up`), the server
-- closes (`_down`), or both do (the rest).
pub data Stage : Type 0 where
  idle syn rcvd half half_fin opened : Stage
  fin_up ack_up half_up last_up done_up fin_down : Stage
  ack_down half_down last_down done_down both_fin server_closing : Stage
  client_closing both_closing server_waits client_waits both_wait server_done : Stage
  client_done both_done : Stage

-- An end's state, its sends to `closeCh` and to `initCh`, and its read loop.
pub record End : Type 0 where
  pub state : Kms
  pub close_ch : ℕ
  pub init_ch : ℕ
  pub reads : ReadEnd

pub record Shape : Type 0 where
  pub client : End
  pub server : End
  pub up : List Kms
  pub down : List Kms

abbrev end : Kms → ℕ → ℕ → ReadEnd → End
end k c i r = record { state = k; close_ch = c; init_ch = i; reads = r }

abbrev pub shape : Stage → Shape
shape idle = record {
  client = end syn_sent 0 0 open_end;
  server = end listen 0 0 open_end;
  up = [];
  down = [];
}
shape syn = record {
  client = end syn_sent 0 0 open_end;
  server = end listen 0 0 open_end;
  up = syn_sent ∷ [];
  down = [];
}
shape rcvd = record {
  client = end syn_sent 0 0 open_end;
  server = end syn_rcvd 0 0 open_end;
  up = [];
  down = syn_rcvd ∷ [];
}
shape half = record {
  client = end established 0 1 open_end;
  server = end syn_rcvd 0 0 open_end;
  up = established ∷ [];
  down = [];
}
shape half_fin = record {
  client = end fin_wait1 0 1 open_end;
  server = end syn_rcvd 0 0 open_end;
  up = established ∷ fin_wait1 ∷ [];
  down = [];
}
shape opened = record {
  client = end established 0 1 open_end;
  server = end established 0 1 open_end;
  up = [];
  down = [];
}
shape fin_up = record {
  client = end fin_wait1 0 1 open_end;
  server = end established 0 1 open_end;
  up = fin_wait1 ∷ [];
  down = [];
}
shape ack_up = record {
  client = end fin_wait1 0 1 open_end;
  server = end last_ack 0 1 open_end;
  up = [];
  down = close_wait ∷ last_ack ∷ [];
}
shape half_up = record {
  client = end fin_wait2 0 1 open_end;
  server = end last_ack 0 1 open_end;
  up = [];
  down = last_ack ∷ [];
}
shape last_up = record {
  client = end time_wait 1 1 eof_end;
  server = end last_ack 0 1 open_end;
  up = time_wait ∷ [];
  down = [];
}
shape done_up = record {
  client = end time_wait 1 1 eof_end;
  server = end last_ack 1 1 eof_end;
  up = [];
  down = [];
}
shape fin_down = record {
  client = end established 0 1 open_end;
  server = end fin_wait1 0 1 open_end;
  up = [];
  down = fin_wait1 ∷ [];
}
shape ack_down = record {
  client = end last_ack 0 1 open_end;
  server = end fin_wait1 0 1 open_end;
  up = close_wait ∷ last_ack ∷ [];
  down = [];
}
shape half_down = record {
  client = end last_ack 0 1 open_end;
  server = end fin_wait2 0 1 open_end;
  up = last_ack ∷ [];
  down = [];
}
shape last_down = record {
  client = end last_ack 0 1 open_end;
  server = end time_wait 1 1 eof_end;
  up = [];
  down = time_wait ∷ [];
}
shape done_down = record {
  client = end last_ack 1 1 eof_end;
  server = end time_wait 1 1 eof_end;
  up = [];
  down = [];
}
shape both_fin = record {
  client = end fin_wait1 0 1 open_end;
  server = end fin_wait1 0 1 open_end;
  up = fin_wait1 ∷ [];
  down = fin_wait1 ∷ [];
}
shape server_closing = record {
  client = end fin_wait1 0 1 open_end;
  server = end closing 0 1 open_end;
  up = [];
  down = fin_wait1 ∷ closing ∷ [];
}
shape client_closing = record {
  client = end closing 0 1 open_end;
  server = end fin_wait1 0 1 open_end;
  up = fin_wait1 ∷ closing ∷ [];
  down = [];
}
shape both_closing = record {
  client = end closing 0 1 open_end;
  server = end closing 0 1 open_end;
  up = closing ∷ [];
  down = closing ∷ [];
}
shape server_waits = record {
  client = end closing 0 1 open_end;
  server = end time_wait 0 1 open_end;
  up = [];
  down = closing ∷ time_wait ∷ [];
}
shape client_waits = record {
  client = end time_wait 0 1 open_end;
  server = end closing 0 1 open_end;
  up = closing ∷ time_wait ∷ [];
  down = [];
}
shape both_wait = record {
  client = end time_wait 0 1 open_end;
  server = end time_wait 0 1 open_end;
  up = time_wait ∷ [];
  down = time_wait ∷ [];
}
shape server_done = record {
  client = end time_wait 0 1 open_end;
  server = end time_wait 1 1 eof_end;
  up = [];
  down = time_wait ∷ [];
}
shape client_done = record {
  client = end time_wait 1 1 eof_end;
  server = end time_wait 0 1 open_end;
  up = time_wait ∷ [];
  down = [];
}
shape both_done = record {
  client = end time_wait 1 1 eof_end;
  server = end time_wait 1 1 eof_end;
  up = [];
  down = [];
}
