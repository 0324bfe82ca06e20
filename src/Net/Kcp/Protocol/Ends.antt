-- ===== src/Net/Kcp/Protocol/Ends.antt =====
-- The end of a KCP connection (kcp_mux.go) whose ends swap and send apart.
use gotu.Base.{List, [], ◌∷◌, ◌++◌}
use gotu.Net.Kcp.Mux.{Kms, Mux}
use gotu.Net.Kcp.Protocol.{ReadEnd, System, deliver_up, deliver_down}
use gotu.Net.Kcp.Protocol.Split.{Split, Step, begin, client_replies, server_replies}

-- An arrival at either end with its answers.
abbrev arrives_up : List Step
arrives_up = begin deliver_up ∷ server_replies ∷ server_replies ∷ []

abbrev arrives_down : List Step
arrives_down = begin deliver_down ∷ client_replies ∷ client_replies ∷ []

abbrev ends : Mux → Mux → ReadEnd → ReadEnd → List Kms → List Kms → System
ends client server ce se up down = record {
  client = client;
  server = server;
  client_end = ce;
  server_end = se;
  up = up;
  down = down;
}

-- A round: the next message arrives at the server, then at the client.
abbrev round : List Step
round = arrives_up ++ arrives_down

abbrev pub split_rounds : List Step
split_rounds = round ++ (round ++ (round ++ (round ++ (round ++ round))))
