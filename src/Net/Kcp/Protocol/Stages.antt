-- ===== src/Net/Kcp/Protocol/Stages.antt =====
-- The stages of a connection: every state that the two ends can reach together, and the abstract
-- machine over them that the detailed one refines.
pub use gotu.Net.Kcp.Protocol.Shapes.{
  Stage, idle, syn, rcvd, half, half_fin, opened, fin_up, ack_up, half_up, last_up, done_up,
  fin_down, ack_down, half_down, last_down, done_down, both_fin, server_closing, client_closing,
  both_closing, server_waits, client_waits, both_wait, server_done, client_done, both_done, End,
  Shape, shape,
}
use gotu.Base.{Bool, true, false, if◌then◌else◌}
use gotu.Net.Kcp.Mux.{Mux}
use gotu.Net.Kcp.Protocol.{
  System, Action, client_init, server_init, client_close, server_close, deliver_up, deliver_down,
}

abbrev client_started : Stage → Bool
client_started idle = false
client_started _ = true

-- A stage, and which of `init` at the server and `close` at either end was called.
pub record Phase : Type 0 where
  pub stage : Stage
  pub server_init : Bool
  pub client_close : Bool
  pub server_close : Bool

abbrev pub phase : Stage → Bool → Bool → Bool → Phase
phase stage f a b = record { stage = stage; server_init = f; client_close = a; server_close = b }

abbrev mux_of : Bool → Bool → Bool → End → Mux
mux_of is_listen init_flag close_once e = record {
  is_inline = true;
  init_flag = init_flag;
  close_once = close_once;
  state = e.state;
  is_listen = is_listen;
  close_ch = e.close_ch;
  init_ch = e.init_ch;
}

abbrev pub system_of : Phase → System
system_of p = record {
  client = mux_of false (client_started p.stage) p.client_close (shape p.stage).client;
  server = mux_of true p.server_init p.server_close (shape p.stage).server;
  client_end = (shape p.stage).client.reads;
  server_end = (shape p.stage).server.reads;
  up = (shape p.stage).up;
  down = (shape p.stage).down;
}

-- The abstract machine.
abbrev pub next : Stage → Action → Stage
next idle client_init = syn
next syn deliver_up = rcvd
next rcvd deliver_down = half
next half client_close = half_fin
next half deliver_up = opened
next half_fin deliver_up = fin_up
next opened client_close = fin_up
next opened server_close = fin_down
next fin_up server_close = both_fin
next fin_up deliver_up = ack_up
next ack_up deliver_down = half_up
next half_up deliver_down = last_up
next last_up deliver_up = done_up
next fin_down client_close = both_fin
next fin_down deliver_down = ack_down
next ack_down deliver_up = half_down
next half_down deliver_up = last_down
next last_down deliver_down = done_down
next both_fin deliver_up = server_closing
next both_fin deliver_down = client_closing
next server_closing deliver_down = both_closing
next client_closing deliver_up = both_closing
next both_closing deliver_up = server_waits
next both_closing deliver_down = client_waits
next server_waits deliver_down = both_wait
next client_waits deliver_up = both_wait
next both_wait deliver_up = server_done
next both_wait deliver_down = client_done
next server_done deliver_down = both_done
next client_done deliver_up = both_done
next s _ = s

abbrev pub next_phase : Phase → Action → Phase
next_phase p server_init = record p { server_init = true }
next_phase p client_close =
    if p.client_close
    then p
    else record p { stage = next p.stage client_close; client_close = true }
next_phase p server_close =
    if p.server_close
    then p
    else record p { stage = next p.stage server_close; server_close = true }
next_phase p x = record p { stage = next p.stage x }
