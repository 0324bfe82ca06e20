-- ===== src/Net/Kcp/Protocol/Split.antt =====
-- The two ends of a KCP connection (kcp_mux.go) with the swap of a state and the sends behind it
-- apart: `init` and `close` run beside the read loop of their end, so that either may come between the
-- other's swap and send. A value for `initCh` or `closeCh` counts from the swap, since its send does
-- not wait.
use gotu.Base.{List, [], ◌∷◌, ◌++◌}
use gotu.Net.Kcp.Mux.{Kms, inline_protocol, init_begin, close_begin}
use gotu.Net.Kcp.Protocol.{
  ReadEnd, open_end, System, Action, client_init, server_init, client_close, server_close,
  deliver_up, deliver_down, start, end_of,
}

-- `owes` is what a call of `init` or `close` has still to send, `answers` what a read loop has; the
-- messages under way are in `ends`.
pub record Split : Type 0 where
  pub ends : System
  pub client_owes : List Kms
  pub client_answers : List Kms
  pub server_owes : List Kms
  pub server_answers : List Kms

-- `begin` is a call up to its send, or the arrival of a message up to its answer.
pub data Step : Type 0 where
  begin : Action → Step
  client_sends client_replies server_sends server_replies : Step

-- A read loop takes a message once it has sent its answers to the last.
unfoldable pub server_takes : Split → List Kms → ReadEnd → List Kms → Split
server_takes s [] open_end (k ∷ up) =
    let r = inline_protocol s.ends.server k in
    record s {
      ends = record s.ends { server = r.mux; server_end = end_of r.error; up = up };
      server_answers = r.sends;
    }
server_takes s _ _ _ = s

unfoldable pub client_takes : Split → List Kms → ReadEnd → List Kms → Split
client_takes s [] open_end (k ∷ down) =
    let r = inline_protocol s.ends.client k in
    record s {
      ends = record s.ends { client = r.mux; client_end = end_of r.error; down = down };
      client_answers = r.sends;
    }
client_takes s _ _ _ = s

-- The first of the messages that are to be sent goes on its way.
unfoldable pub client_send : Split → List Kms → Split
client_send s [] = s
client_send s (k ∷ ks) = record s {
  ends = record s.ends { up = s.ends.up ++ (k ∷ []) };
  client_owes = ks;
}

unfoldable pub client_reply : Split → List Kms → Split
client_reply s [] = s
client_reply s (k ∷ ks) = record s {
  ends = record s.ends { up = s.ends.up ++ (k ∷ []) };
  client_answers = ks;
}

unfoldable pub server_send : Split → List Kms → Split
server_send s [] = s
server_send s (k ∷ ks) = record s {
  ends = record s.ends { down = s.ends.down ++ (k ∷ []) };
  server_owes = ks;
}

unfoldable pub server_reply : Split → List Kms → Split
server_reply s [] = s
server_reply s (k ∷ ks) = record s {
  ends = record s.ends { down = s.ends.down ++ (k ∷ []) };
  server_answers = ks;
}

unfoldable pub split_step : Split → Step → Split
unfolding inline_protocol init_begin close_begin server_takes client_takes client_send client_reply
    server_send server_reply
split_step s (begin client_init) =
    let (m, sends) = init_begin s.ends.client in
    record s { ends = record s.ends { client = m }; client_owes = s.client_owes ++ sends }
split_step s (begin server_init) =
    let (m, sends) = init_begin s.ends.server in
    record s { ends = record s.ends { server = m }; server_owes = s.server_owes ++ sends }
split_step s (begin client_close) =
    let (m, sends) = close_begin s.ends.client in
    record s { ends = record s.ends { client = m }; client_owes = s.client_owes ++ sends }
split_step s (begin server_close) =
    let (m, sends) = close_begin s.ends.server in
    record s { ends = record s.ends { server = m }; server_owes = s.server_owes ++ sends }
split_step s (begin deliver_up) = server_takes s s.server_answers s.ends.server_end s.ends.up
split_step s (begin deliver_down) = client_takes s s.client_answers s.ends.client_end s.ends.down
split_step s client_sends = client_send s s.client_owes
split_step s client_replies = client_reply s s.client_answers
split_step s server_sends = server_send s s.server_owes
split_step s server_replies = server_reply s s.server_answers

unfoldable pub split_run : Split → List Step → Split
unfolding split_step
split_run s [] = s
split_run s (x ∷ xs) = split_run (split_step s x) xs

abbrev pub whole : System → Split
whole e = record {
  ends = e;
  client_owes = [];
  client_answers = [];
  server_owes = [];
  server_answers = [];
}

unfoldable pub split_start : Split
unfolding start
split_start = whole start
