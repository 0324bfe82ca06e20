-- ===== src/Net/Kcp/Protocol/Race.antt =====
-- What happens in kcp_mux.go where the read loop comes between the swap and the send of `close`.
use gotu.Base.{ℕ, ◌≡◌, Bool, true, false, List, [], ◌∷◌}
use gotu.Net.Kcp.Mux.{Kms, Mux, established, fin_wait1, closing}
use gotu.Net.Kcp.Protocol.{
  open_end, error_end, client_close, server_close, deliver_up, deliver_down,
}
use gotu.Net.Kcp.Protocol.Split.{
  Split, Step, begin, client_sends, client_replies, server_sends, whole,
}

abbrev mux_in : Kms → Bool → Bool → Bool → ℕ → Mux
mux_in state closed is_listen init_flag i = record {
  is_inline = true;
  init_flag = init_flag;
  close_once = closed;
  state = state;
  is_listen = is_listen;
  close_ch = 0;
  init_ch = i;
}

-- An established connection that neither end has begun to close, with nothing under way; whether
-- `init` was called and has taken its value from `initCh` does not matter.
abbrev pub standing : Bool → Bool → ℕ → ℕ → Split
standing f g i j = whole (record {
  client = mux_in established false false f i;
  server = mux_in established false true g j;
  client_end = open_end;
  server_end = open_end;
  up = [];
  down = [];
})

-- The server closes; the client swaps in its `close`, and before it sends, its read loop answers the
-- server; then its `fin_wait1` follows, and the server takes the answer.
abbrev pub overtaken : List Step
overtaken =
    begin server_close
    ∷ server_sends
    ∷ begin client_close
    ∷ begin deliver_down
    ∷ client_replies
    ∷ client_sends
    ∷ begin deliver_up
    ∷ []

abbrev stuck : Bool → Bool → ℕ → ℕ → List Kms → List Kms → List Kms → Split
stuck f g i j up co ca = record {
  ends = record {
    client = mux_in closing true false f i;
    server = mux_in fin_wait1 true true g j;
    client_end = open_end;
    server_end = error_end;
    up = up;
    down = [];
  };
  client_owes = co;
  client_answers = ca;
  server_owes = [];
  server_answers = [];
}

abbrev IsStuck : Split → Type 0
IsStuck s = (f g : Bool) × (i j : ℕ) × (up co ca : List Kms) × (s ≡ stuck f g i j up co ca)

-- The server has rejected a message, and neither `close` is woken by its channel.
abbrev pub Hangs : Split → Type 0
Hangs s =
    (s.ends.server_end ≡ error_end)
    × (s.ends.client_end ≡ open_end)
    × (s.ends.client.close_ch ≡ 0)
    × (s.ends.server.close_ch ≡ 0)
